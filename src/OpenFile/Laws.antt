-- ===== src/OpenFile/Laws.antt =====
-- chapter12/exercise_3.c: which processes are listed.
use the_linux_programming_in.Prelude.{
  ◌-◌, ◌≡◌, refl, ap, ◌↔◌, inl, inr, Bool, true, false, ◌&&◌, none, some, List, [], ◌∷◌, map, arith,
  Bool-cases, Option-cases, take, Bytes, bytes_eq, bytes_eq_refl, bytes_eq_sound,
}
use the_linux_programming_in.OpenFile.{
  FdEntry, ProcEntry, max_path, starts_with_digit, is_dots, has_open, row, processes_with_file,
  print_processes_with_file, success, main,
}
use the_linux_programming_in.Prelude.{Has, filterb}

-- A descriptor that is on the file, as far as `readlink` has room for its name
abbrev pub IsOn : Bytes → FdEntry → Type 0
IsOn path e =
    (is_dots e.name ≡ false)
    × (target : Bytes) × (e.target ≡ some target)
    × (take (max_path - 1) target ≡ path)

has_open_sound :
    (path : Bytes) (es : List FdEntry)
    → has_open path es ≡ true
    → (e : FdEntry) × Has e es × IsOn path e
unfolding has_open
has_open_sound path [] h = absurd (ground arith)
has_open_sound path (e ∷ es) h = elim (Bool-cases (is_dots e.name)) [
  | inl d ↦ let (x, has, on) = has_open_sound path es (ground arith) in (x, inr has, on)
  | inr d ↦ elim (Option-cases e.target) [
    | inl n ↦ let (x, has, on) = has_open_sound path es (ground arith) in (x, inr has, on)
    | inr (t, n) ↦ elim (Bool-cases (bytes_eq (take (max_path - 1) t) path)) [
      | inl q ↦ (e, inl refl, (d, t, n, bytes_eq_sound _ path q))
      | inr q ↦ let (x, has, on) = has_open_sound path es (ground arith) in (x, inr has, on)
    ]
  ]
]

has_open_later :
    (path : Bytes) (x : FdEntry) (es : List FdEntry)
    → has_open path es ≡ true
    → has_open path (x ∷ es) ≡ true
unfolding has_open
has_open_later path x es rest = elim (Option-cases x.target) [
  | inl n ↦ rw (n, rest) (ground arith)
  | inr (t, n) ↦ rw (n, rest) (ground arith)
]

has_open_complete :
    (path : Bytes) (es : List FdEntry) (e : FdEntry)
    → Has e es
    → IsOn path e
    → has_open path es ≡ true
unfolding has_open
has_open_complete path [] e has on = absurd has
has_open_complete path (x ∷ es) e (inl same) (d, t, n, q) =
    let eq : bytes_eq (take (max_path - 1) t) path ≡ true = rw q (bytes_eq_refl path) in
    ground arith
has_open_complete path (x ∷ es) e (inr has) on =
    has_open_later path x es (has_open_complete path es e has on)

abbrev pub is_listed : Bytes → ProcEntry → Bool
is_listed path e =
    starts_with_digit e.name && elim e.fds [ none ↦ false | some fds ↦ has_open path fds ]

processes_with_file-filterb :
    (path : Bytes) (es : List ProcEntry)
    → processes_with_file path es ≡ map row (filterb (is_listed path) es)
unfolding processes_with_file
processes_with_file-filterb path [] = refl
processes_with_file-filterb path (e ∷ es) =
    let rest = processes_with_file-filterb path es in
    elim (Option-cases e.fds) [ inl n ↦ ground (arith, rest) | inr (fds, n) ↦ ground (arith, rest) ]

-- With one argument that realpath resolves, the program succeeds, and if /proc can be read, it lists
-- some of its entries, each at most once and in order: exactly those whose name starts with a digit
-- and that have a descriptor on the file, as far as the name that readlink gives fits the buffer.
pub main_lists :
    (path : Bytes) (es : List ProcEntry)
    → (main 2 (some path) (some es) ≡ success (some (map row (filterb (is_listed path) es))))
      × ((e : ProcEntry)
          → (is_listed path e ≡ true) ↔ (
              (starts_with_digit e.name ≡ true)
              × (fds : List FdEntry) × (e.fds ≡ some fds)
              × (d : FdEntry) × Has d fds
              × IsOn path d))
unfolding main print_processes_with_file
main_lists path es = (
  ap (λ rows. success (some rows)) (processes_with_file-filterb path es),
  λ e. elim (Option-cases e.fds) [
    | inl n ↦ ((λ h. absurd (ground arith)), (λ h. absurd (ground (arith, h.2))))
    | inr (fds, n) ↦ (
      (λ h.
          let (d, has, on) = has_open_sound path fds (ground arith) in
          (ground arith, fds, n, d, has, on)),
      (λ (s, fs, m, d, has, on).
          let open_fs = has_open_complete path fs d has on in ground (arith, open_fs, m, n)),
    )
  ],
)
