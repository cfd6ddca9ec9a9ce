-- ===== src/UserProcesses/Tests.antt =====
-- chapter12/exercise_1.c: a process of user 7, one of user 0, and one that is named after the field.
use the_linux_programming_in.Prelude.{
  true, ℕ, ◌≡◌, refl, ◌↔◌, Option, some, List, [], ◌∷◌, ◌++◌, Bytes, arith,
}
use the_linux_programming_in.Prelude.Atoi.{atoi}
use the_linux_programming_in.UserProcesses.{
  ProcEntry, inspect, inspect_entry, list_processes, Row, listed, main, name_key, uid_key,
}
use the_linux_programming_in.UserProcesses.Laws.{Listing, main-Listing}

abbrev status : Bytes → ℕ → Bytes
status name digit = name_key ++ (9 ∷ []) ++ name ++ (10 ∷ []) ++ uid_key ++ 9 ∷ digit ∷ 10 ∷ []

abbrev entry : ℕ → Bytes → ProcEntry
entry digit content = record { name = digit ∷ []; status = some content }

abbrev listing : List ProcEntry
listing =
    entry b'3' (status (b'v' ∷ b'i' ∷ []) b'7')
    ∷ entry b'4' (status (b's' ∷ b'h' ∷ []) b'0')
    ∷ entry b'x' (status (b'x' ∷ []) b'7')
    ∷ []

abbrev row_3 : Row
row_3 = record { pid = b'3' ∷ []; command = b'v' ∷ b'i' ∷ [] }

abbrev id_7 : Bytes → Option ℕ
id_7 user = some 7

lists_user :
    main ((b'u' ∷ []) ∷ []) id_7 (some (record { entries = listing; read_ok = true }))
    ≡ listed (row_3 ∷ [])
unfolding main list_processes inspect_entry inspect atoi
lists_user = refl

-- The process has user 7, and is listed for user 0.
lists_named :
    main
      ((b'r' ∷ []) ∷ [])
      (λ user. some 0)
      (some (record {
        entries = entry b'5' (status (uid_key ++ 9 ∷ b'0' ∷ []) b'7') ∷ [];
        read_ok = true;
      }))
    ≡ listed (record { pid = b'5' ∷ []; command = uid_key } ∷ [])
unfolding main list_processes inspect_entry inspect atoi
lists_named = refl

main-Listing_example :
    (main ((b'u' ∷ []) ∷ []) id_7 (some (record { entries = listing; read_ok = true }))
      ≡ listed (row_3 ∷ []))
    ↔ Listing 7 listing (row_3 ∷ [])
main-Listing_example = main-Listing (b'u' ∷ []) id_7 7 listing (row_3 ∷ []) (λ e. ground arith) refl
