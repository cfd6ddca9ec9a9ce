-- ===== src/OpenFile/Tests.antt =====
-- chapter12/exercise_3.c: three entries of /proc, two of them processes and one of these with the file.
use the_linux_programming_in.Prelude.{◌≡◌, refl, ◌↔◌, true, some, List, [], ◌∷◌, map, Bytes}
use the_linux_programming_in.OpenFile.{
  FdEntry, ProcEntry, starts_with_digit, has_open, row, processes_with_file,
  print_processes_with_file, failure, success, main,
}
use the_linux_programming_in.OpenFile.Laws.{IsOn, is_listed, main_lists}
use the_linux_programming_in.Prelude.{Has, filterb}

abbrev file : Bytes
file = b'/' ∷ b'f' ∷ []

abbrev entry : Bytes → List FdEntry → ProcEntry
entry name fds = record { name = name; fds = some fds; comm = some (some (b's' ∷ b'h' ∷ 10 ∷ [])) }

abbrev fd : Bytes → Bytes → FdEntry
fd name target = record { name = name; target = some target }

abbrev entries : List ProcEntry
entries =
    entry (b'4' ∷ b'2' ∷ []) (fd (b'.' ∷ []) file ∷ fd (b'0' ∷ []) file ∷ fd (b'1' ∷ []) file ∷ [])
    ∷ entry (b'7' ∷ []) (fd (b'.' ∷ []) file ∷ [])
    ∷ entry (b'f' ∷ []) (fd (b'0' ∷ []) file ∷ [])
    ∷ []

lists_one :
    main 2 (some file) (some entries)
    ≡ success (some (record { pid = b'4' ∷ b'2' ∷ []; command = b's' ∷ b'h' ∷ [] } ∷ []))
unfolding main print_processes_with_file processes_with_file has_open
lists_one = refl

no_argument : main 1 (some file) (some entries) ≡ failure
unfolding main
no_argument = refl

main_lists_example :
    (main 2 (some file) (some entries)
      ≡ success (some (map row (filterb (is_listed file) entries))))
    × ((e : ProcEntry)
        → (is_listed file e ≡ true) ↔ (
            (starts_with_digit e.name ≡ true)
            × (fds : List FdEntry) × (e.fds ≡ some fds)
            × (d : FdEntry) × Has d fds
            × IsOn file d))
main_lists_example = main_lists file entries
