-- ===== src/Acct/Listing.antt =====
-- chapter28/acct_view.c and acct_v3_view.c: what is listed for a file of whole records.
use the_linux_programming_in.Prelude.{
  ℕ, zero, suc, ◌+◌, ◌<◌, ◌≡◌, refl, ap, Bool, true, false, some, List, [], ◌∷◌, ◌++◌, map,
  append_assoc, arith, length, take, drop, Bytes, bytes_eq,
}
use the_linux_programming_in.Acct.{Calls, row, Exit, success, partial_read, read_loop, main}
use the_linux_programming_in.Prelude.{help}

-- The content of a file: chunks, one for each record, one after the other
abbrev pub joined : List Bytes → Bytes
joined [] = []
joined (c ∷ cs) = c ++ joined cs

abbrev pub AllLength : ℕ → List Bytes → Type 0
AllLength n [] = Unit
AllLength n (c ∷ cs) = (length c ≡ n) × AllLength n cs

take_all :
    (c rest : Bytes) (n : ℕ) → length c ≡ n → (take n (c ++ rest) ≡ c) × (drop n (c ++ rest) ≡ rest)
take_all [] rest zero h = (refl, refl)
take_all [] rest (suc n) h = absurd (omega arith)
take_all (x ∷ c) rest zero h = absurd (omega arith)
take_all (x ∷ c) rest (suc n) h =
    let (a, b) = take_all c rest n (omega arith) in (ap (λ t. x ∷ t) a, b)

take_short : (c : Bytes) (n : ℕ) → length c < n → take n c ≡ c
take_short [] zero lt = refl
take_short [] (suc n) lt = refl
take_short (x ∷ c) zero lt = absurd (omega arith)
take_short (x ∷ c) (suc n) lt = ap (λ t. x ∷ t) (take_short c n (omega arith))

-- How the program ends for the bytes after the last whole record
abbrev pub end_of : Bytes → Exit
end_of [] = success
end_of (c ∷ cs) = partial_read

read_loop_tail :
    (fuel i : ℕ) (k : Calls) (v3 : Bool) (tail : Bytes)
    → ((j : ℕ) → k.read_ok j ≡ true)
    → length tail < k.size
    → read_loop (suc fuel) k v3 i tail ≡ some ([], end_of tail)
unfolding read_loop
read_loop_tail fuel i k v3 [] ok lt = ground (arith, ok i, take_short [] k.size lt)
read_loop_tail fuel i k v3 (c ∷ cs) ok lt = ground (arith, ok i, take_short (c ∷ cs) k.size lt)

read_loop_chunks :
    (fuel i : ℕ) (k : Calls) (v3 : Bool) (chunks : List Bytes) (tail : Bytes)
    → ((j : ℕ) → k.read_ok j ≡ true)
    → 0 < k.size
    → AllLength k.size chunks
    → length tail < k.size
    → length chunks < fuel
    → read_loop fuel k v3 i (joined chunks ++ tail)
      ≡ some (map (λ c. row k v3 (k.decode c)) chunks, end_of tail)
unfolding read_loop
read_loop_chunks zero i k v3 cs tail ok some_size all lt enough = absurd (omega arith)
read_loop_chunks (suc fuel) i k v3 [] tail ok some_size all lt enough =
    read_loop_tail fuel i k v3 tail ok lt
read_loop_chunks (suc fuel) i k v3 (c ∷ cs) tail ok some_size (h, all) lt enough =
    let (a, b) = take_all c (joined cs ++ tail) k.size h in
    let more = read_loop_chunks fuel (i + 1) k v3 cs tail ok some_size all lt (omega arith) in
    rw (append_assoc c (joined cs) tail, a, b, more) (ground (arith, ok i))

-- If the file is opened and every read succeeds, the program prints one row for each whole record of the
-- file, in order, and nothing else; it ends with success if nothing is left after the last record, and
-- with the error of a partial read if it is. Fuel above the number of records is enough.
pub main_lists_all :
    (fuel : ℕ) (k : Calls) (v3 : Bool) (arg : Bytes) (chunks : List Bytes) (tail : Bytes)
    → bytes_eq arg help ≡ false
    → k.open_ok ≡ true
    → ((j : ℕ) → k.read_ok j ≡ true)
    → 0 < k.size
    → AllLength k.size chunks
    → length tail < k.size
    → length chunks < fuel
    → main fuel k v3 (arg ∷ []) (joined chunks ++ tail)
      ≡ some (map (λ c. row k v3 (k.decode c)) chunks, end_of tail)
unfolding main
main_lists_all fuel k v3 arg chunks tail named opened ok some_size all lt enough =
    ground (arith, read_loop_chunks fuel 0 k v3 chunks tail ok some_size all lt enough)
