-- ===== src/UserProcesses/Laws.antt =====
-- chapter12/exercise_1.c: which processes are listed, and for which user a process is taken.
use the_linux_programming_in.Prelude.{
  ℕ, ◌≡◌, refl, ◌≢◌, ◌↔◌, inl, inr, true, false, Option, some, List, [], ◌∷◌, ◌++◌, arith,
  Bool-cases, Option-cases, take, Bytes, bytes_eq, bytes_eq_ne,
}
use the_linux_programming_in.UserProcesses.{
  ProcEntry, starts_with_digit, inspect, inspect_entry, list_processes, Row, Found, skipped,
  printed, beyond_end, listed, main, name_key, uid_key, help,
}
use the_linux_programming_in.ProcessTree.{until_nul}
use mathlib.Core.Path.{subst}
use the_linux_programming_in.UserProcesses.Status.{
  IsNumeric, GivesUser, CutsOff, digit_lem, numeric_lem, inspect-GivesUser, GivesUser-inspect,
  inspect-CutsOff, CutsOff-inspect,
}

-- The entry is for a process, its status file can be opened and read and is not empty, and the
-- predicate holds of the first 999 bytes of the file, up to a NUL.
abbrev pub Reads : ProcEntry → (Bytes → Type 0) → Type 0
Reads e P =
    IsNumeric e.name
    × (content : Bytes) × (e.status ≡ some content)
    × (content ≢ [])
    × P (until_nul (take 999 content))

abbrev pub Gives : ℕ → ProcEntry → Bytes → Type 0
Gives uid e command = Reads e (λ text. GivesUser uid text command)

abbrev pub row_of : ProcEntry → Bytes → Row
row_of e command = record { pid = e.name; command = command }

-- The rows for the entries of /proc, in their order: one for each entry that gives the user, with the
-- command, and none for any other. No status file that is read has a `Name:` and ends with its first
-- `Uid:`.
pub data Listing (uid : ℕ) : List ProcEntry → List Row → Type 0 where
  done : Listing uid [] []
  shown :
      {es : List ProcEntry} {rows : List Row} (e : ProcEntry) (command : Bytes)
      → Gives uid e command
      → Listing uid es rows
      → Listing uid (e ∷ es) (row_of e command ∷ rows)
  passed :
      {es : List ProcEntry} {rows : List Row} (e : ProcEntry)
      → ((command : Bytes) → ¬ Gives uid e command)
      → ¬ Reads e CutsOff
      → Listing uid es rows
      → Listing uid (e ∷ es) rows

-- An entry that is not skipped is inspected.
entry-Reads :
    (uid : ℕ) (e : ProcEntry) (found : Found) (P : Bytes → Type 0)
    → inspect_entry uid e ≡ found
    → found ≢ skipped
    → ((text : Bytes) → inspect uid text ≡ found → P text)
    → Reads e P
unfolding inspect_entry
entry-Reads uid e found P i ne h = elim (Bool-cases (starts_with_digit e.name)) [
  | inr d ↦ absurd (ne (ground arith))
  | inl d ↦ elim (Option-cases e.status) [
    | inl o ↦ absurd (ne (ground arith))
    | inr ([], o) ↦ absurd (ne (ground arith))
    | inr (c ∷ s, o) ↦ (
      digit_lem e.name d,
      c ∷ s,
      o,
      λ q. absurd (ground arith),
      h (until_nul (take 999 (c ∷ s))) (ground arith),
    )
  ]
]

Reads-entry :
    (uid : ℕ) (e : ProcEntry) (found : Found) (P : Bytes → Type 0)
    → ((text : Bytes) → P text → inspect uid text ≡ found)
    → Reads e P
    → inspect_entry uid e ≡ found
unfolding inspect_entry
Reads-entry uid e found P h (d, [], o, ne, g) = absurd (ne refl)
Reads-entry uid e found P h (d, c ∷ s, o, ne, g) =
    let yes = numeric_lem e.name d in rw (yes, o) (h (until_nul (take 999 (c ∷ s))) g)

entry-Gives :
    (uid : ℕ) (e : ProcEntry) (command : Bytes)
    → (inspect_entry uid e ≡ printed command) ↔ Gives uid e command
entry-Gives uid e command = (
  λ i.
      entry-Reads uid e (printed command) (λ text. GivesUser uid text command) i
        (λ q. absurd (ground arith)) (λ text. inspect-GivesUser uid text command),
  Reads-entry uid e (printed command) (λ text. GivesUser uid text command)
      (λ text. GivesUser-inspect uid text command),
)

entry-CutsOff : (uid : ℕ) (e : ProcEntry) → (inspect_entry uid e ≡ beyond_end) ↔ Reads e CutsOff
entry-CutsOff uid e = (
  λ i. entry-Reads uid e beyond_end CutsOff i (λ q. absurd (ground arith)) (inspect-CutsOff uid),
  Reads-entry uid e beyond_end CutsOff (CutsOff-inspect uid),
)

passed-skipped :
    (uid : ℕ) (e : ProcEntry) (found : Found)
    → inspect_entry uid e ≡ found
    → ((command : Bytes) → ¬ Gives uid e command)
    → ¬ Reads e CutsOff
    → found ≡ skipped
passed-skipped uid e skipped i no_one whole = refl
passed-skipped uid e (printed command) i no_one whole =
    absurd (no_one command ((entry-Gives uid e command).0 i))
passed-skipped uid e beyond_end i no_one whole = absurd (whole ((entry-CutsOff uid e).0 i))

abbrev Lists : ℕ → List ProcEntry → Type 0
Lists uid es = (rows : List Row) → list_processes uid es ≡ some rows → Listing uid es rows

Lists-cons :
    (uid : ℕ) (e : ProcEntry) (es : List ProcEntry) (found : Found)
    → inspect_entry uid e ≡ found
    → Lists uid es
    → Lists uid (e ∷ es)
unfolding list_processes
Lists-cons uid e es skipped h ih rows g =
    passed e (λ command w. absurd (ground (arith, (entry-Gives uid e command).1 w)))
      (λ w. absurd (ground (arith, (entry-CutsOff uid e).1 w))) (ih rows (ground arith))
Lists-cons uid e es beyond_end h ih rows g = absurd (ground arith)
Lists-cons uid e es (printed command) h ih rows g = elim (Option-cases (list_processes uid es)) [
  | inl n ↦ absurd (ground arith)
  | inr (rest, n) ↦
      let same : row_of e command ∷ rest ≡ rows = ground arith in
      subst (Listing uid (e ∷ es)) same
        (shown e command ((entry-Gives uid e command).0 h) (ih rest n))
]

list_processes-Listing : (uid : ℕ) (es : List ProcEntry) → Lists uid es
unfolding list_processes
list_processes-Listing uid [] rows g =
    let same : [] ≡ rows = ground arith in subst (Listing uid []) same done
list_processes-Listing uid (e ∷ es) rows g =
    Lists-cons uid e es (inspect_entry uid e) refl (list_processes-Listing uid es) rows g

Listing-list_processes :
    (uid : ℕ) (es : List ProcEntry) (rows : List Row)
    → Listing uid es rows
    → list_processes uid es ≡ some rows
unfolding list_processes
Listing-list_processes uid _ _ done = refl
Listing-list_processes uid _ _ (shown {es = es} {rows = rows} e command g l) =
    ground (arith, (entry-Gives uid e command).1 g, Listing-list_processes uid es rows l)
Listing-list_processes uid _ _ (passed {es = es} {rows = rows} e no_one whole l) =
    let skip = passed-skipped uid e (inspect_entry uid e) refl no_one whole in
    ground (arith, skip, Listing-list_processes uid es rows l)

-- Where the user is not `--help` and is known, and readdir comes to the end of /proc, the program
-- succeeds with a list of rows exactly if they are, in the order of the entries, one for each entry
-- whose name starts with a digit, and whose status file can be opened and read and gives the user in
-- its first 999 bytes, up to a NUL, by the number after its first `Uid:`, with the word after its first
-- `Name:` as the command, and none of the status files that are read has a `Name:` in these bytes and
-- ends with its first `Uid:`.
pub main-Listing :
    (user : Bytes) (user_id : Bytes → Option ℕ) (uid : ℕ) (es : List ProcEntry) (rows : List Row)
    → user ≢ help
    → user_id user ≡ some uid
    → (main (user ∷ []) user_id (some (record { entries = es; read_ok = true })) ≡ listed rows)
      ↔ Listing uid es rows
unfolding main
main-Listing user user_id uid es rows ne hu =
    let other : bytes_eq user help ≡ false = bytes_eq_ne user help ne in
    (
      λ h. list_processes-Listing uid es rows (ground arith),
      λ l. rw (other, hu, Listing-list_processes uid es rows l) refl,
    )

abbrev pub named_uid : Bytes
named_uid = name_key ++ 9 ∷ uid_key ++ 9 ∷ b'0' ∷ 10 ∷ []

-- A process with the name `Uid:` and a tabulator and 0 is taken for one of the user 0, whatever the
-- rest of its status file says of its user.
pub inspect-named_uid : (rest : Bytes) → inspect 0 (named_uid ++ rest) ≡ printed uid_key
unfolding inspect
inspect-named_uid rest = ground arith
