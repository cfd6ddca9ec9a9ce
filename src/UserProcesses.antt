-- ===== src/UserProcesses.antt =====
-- chapter12/exercise_1.c: the processes of a user, from the status files in /proc. Here stand the data
-- and the code; Laws holds the proofs.
pub mod Search
pub mod Status
pub mod Laws
mod Tests
use the_linux_programming_in.Prelude.{help}
use the_linux_programming_in.Prelude.{
  ℕ, zero, suc, ◌+◌, ◌-◌, ◌*◌, ◌/◌, ◌%◌, ◌^◌, ◌≤◌, ◌<◌, ◌≡◌, refl, sym, ap, ◌∙◌, ◌≢◌, ◌↔◌, ◌⊎◌, inl,
  inr, Bool, true, false, ◌&&◌, ◌||◌, not, Option, none, some, List, [], ◌∷◌, ◌++◌, map,
  append_assoc, append-nil, arith, ltb, leb, ◌==◌, if◌then◌else◌, ltb→lt, lt→ltb, leb→le, ==_iff,
  Bool-cases, Option-cases, length, get_elem?, set, length-append, length-set, get_elem?-set_self,
  get_elem?-set_ne, get_or, take, drop, replicate, length-map, Bytes, bytes_eq, bytes_eq_refl,
  bytes_eq_sound, bytes_eq_ne,
}
use the_linux_programming_in.Prelude.Int.{ℤ, pos, negsuc}
use the_linux_programming_in.Prelude.Atoi.{isdigit, isspace, skip_spaces, atoi}
use the_linux_programming_in.ProcessTree.{until_nul, chomp}

abbrev pub max_line : ℕ
max_line = 1000

-- An entry of /proc, and the bytes of its file `status`: none where it cannot be opened, and no bytes
-- where nothing can be read
pub record ProcEntry : Type 0 where
  pub name : Bytes
  pub status : Option Bytes

abbrev pub starts_with_digit : Bytes → Bool
starts_with_digit [] = false
starts_with_digit (c ∷ s) = isdigit c

abbrev pub is_prefix : Bytes → Bytes → Bool
is_prefix [] s = true
is_prefix (c ∷ p) [] = false
is_prefix (c ∷ p) (d ∷ s) = c == d && is_prefix p s

-- `strstr`, with the rest of the text from the first occurrence on
abbrev pub strstr : Bytes → Bytes → Option Bytes
strstr [] key = if is_prefix key [] then some [] else none
strstr (c ∷ s) key = let rest = strstr s key in if is_prefix key (c ∷ s) then some (c ∷ s) else rest

abbrev pub name_key : Bytes
name_key = b'N' ∷ b'a' ∷ b'm' ∷ b'e' ∷ b':' ∷ []

abbrev pub uid_key : Bytes
uid_key = b'U' ∷ b'i' ∷ b'd' ∷ b':' ∷ []

-- The value of `strtol` as a uid_t; the saturation of `strtol` is left out.
abbrev pub to_uid : ℤ → ℕ
to_uid (pos n) = n % 2 ^ 32
to_uid (negsuc n) = 2 ^ 32 - 1 - n % 2 ^ 32

-- The word that the text begins with, of at most so many bytes
abbrev pub word : ℕ → Bytes → Bytes
word zero s = []
word (suc n) [] = []
word (suc n) (c ∷ s) = if isspace c then [] else c ∷ word n s

pub record Row : Type 0 where
  pub pid : Bytes
  pub command : Bytes

-- What the program does with a status file
pub data Found : Type 0 where
  skipped : Found
  printed : Bytes → Found
  beyond_end : Found  -- `uidLinePtr + 5` is past the end of the text, and what is there is read

-- The buffer holds the first bytes of the file; `uidStart` is five bytes after the start of `Uid:`,
-- which has four.
unfoldable pub inspect : ℕ → Bytes → Found
unfolding atoi
inspect uid buffer = elim (strstr buffer name_key) [
  | none ↦ skipped
  | some name_line ↦ elim (strstr buffer uid_key) [
    | none ↦ skipped
    | some uid_line ↦
        if leb (length uid_line) 4
        then beyond_end
        else (if to_uid (atoi (skip_spaces (drop 5 uid_line))) == uid
            then printed (word 255 (skip_spaces (drop 5 name_line)))
            else skipped)
  ]
]

-- The rest of an entry of the directory
unfoldable pub inspect_entry : ℕ → ProcEntry → Found
inspect_entry uid e = if not (starts_with_digit e.name) then skipped else elim e.status [
  | none ↦ skipped
  | some content ↦ elim (take (max_line - 1) content) [
    | [] ↦ skipped
    | c ∷ s ↦ inspect uid (until_nul (c ∷ s))
  ]
]

-- The loop over /proc: none where it reads beyond the end of a text
unfoldable pub list_processes : ℕ → List ProcEntry → Option (List Row)
list_processes uid [] = some []
list_processes uid (e ∷ es) =
    let rest = list_processes uid es in
    elim (inspect_entry uid e) [
      | skipped ↦ rest
      | printed command ↦ elim rest [
        | none ↦ none
        | some rows ↦ some (record { pid = e.name; command = command } ∷ rows)
      ]
      | beyond_end ↦ none
    ]

pub data Exit : Type 0 where
  usage_error : Exit
  unknown_user : Exit
  cannot_open : Exit
  read_error : List Row → Exit  -- readdir fails after these rows
  listed : List Row → Exit  -- success
  undefined : Exit  -- a read beyond the end of a text

-- /proc: the entries that readdir returns, and whether it then reports the end and not an error
pub record ProcDir : Type 0 where
  pub entries : List ProcEntry
  pub read_ok : Bool

-- `main`, with the arguments after the name of the program, `userIdFromName`, none for -1, and /proc
unfoldable pub main : List Bytes → (Bytes → Option ℕ) → Option ProcDir → Exit
main [] user_id proc = usage_error
main (user ∷ []) user_id proc = if bytes_eq user help then usage_error else elim (user_id user) [
  | none ↦ unknown_user
  | some uid ↦ elim proc [
    | none ↦ cannot_open
    | some dir ↦ elim (list_processes uid dir.entries) [
      | none ↦ undefined
      | some rows ↦ if dir.read_ok then listed rows else read_error rows
    ]
  ]
]
main (user ∷ b ∷ more) user_id proc = usage_error
