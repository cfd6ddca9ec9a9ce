-- ===== src/SeekIo.antt =====
-- chapter4/seek_io.c: a list of commands that read, write and move in a file. Here stand the data and
-- the code; Laws holds the proofs.
pub mod Laws
mod Tests
use the_linux_programming_in.Prelude.{
  ℕ, zero, suc, ◌+◌, ◌-◌, ◌*◌, ◌/◌, ◌%◌, ◌^◌, ◌≤◌, ◌<◌, ◌≡◌, refl, sym, ap, ◌∙◌, ◌≢◌, ◌↔◌, ◌⊎◌, inl,
  inr, Bool, true, false, ◌&&◌, ◌||◌, not, Option, none, some, List, [], ◌∷◌, ◌++◌, map,
  append_assoc, append-nil, arith, ltb, leb, ◌==◌, if◌then◌else◌, ltb→lt, lt→ltb, leb→le, ==_iff,
  Bool-cases, Option-cases, length, get_elem?, set, length-append, length-set, get_elem?-set_self,
  get_elem?-set_ne, get_or, take, drop, replicate, length-map, Bytes, bytes_eq, bytes_eq_refl,
  bytes_eq_sound, bytes_eq_ne,
}
use the_linux_programming_in.Prelude.Int.{ℤ, pos, negsuc}
use the_linux_programming_in.SparseCopy.{write_at}
use the_linux_programming_in.Prelude.{help}

-- The open file: its bytes and the offset
pub record OpenFile : Type 0 where
  pub content : Bytes
  pub offset : ℕ

-- What the calls return: the file if it is opened, `getLong`, none where it exits, whether `malloc`,
-- `read` and `lseek` succeed, and the count that `write` returns
pub record Calls : Type 0 where
  pub opened : Option OpenFile
  pub get_long : Bytes → Option ℤ
  pub malloc_ok : ℕ → Bool
  pub read_ok : OpenFile → ℕ → Bool
  pub accepts : OpenFile → Bytes → Option ℕ
  pub seek_ok : ℕ → Bool

-- A line of the output, with the command that it is for
pub data Line : Type 0 where
  end_of_file : Bytes → Line
  text : Bytes → Bytes → Line
  hex : Bytes → List ℕ → Line  -- the numbers that are printed with %02x
  wrote : Bytes → ℕ → Line
  seek_succeeded : Bytes → Line

pub data Exit : Type 0 where
  success usage_error open_failed bad_number malloc_failed read_failed write_failed seek_failed
        bad_command :
      Exit

abbrev pub isprint : ℕ → Bool
isprint c = leb 32 c && leb c 126

abbrev pub shown_byte : ℕ → ℕ
shown_byte c = if isprint c then c else b'?'

-- `(unsigned int)buf[j]`, where char is signed
abbrev pub as_unsigned_int : ℕ → ℕ
as_unsigned_int c = if ltb c 128 then c else 2 ^ 32 - 256 + c

-- A long as a size_t
abbrev pub to_size : ℤ → ℕ
to_size (pos n) = n % 2 ^ 64
to_size (negsuc n) = 2 ^ 64 - 1 - n % 2 ^ 64

-- The round of the loop for one command: how it ends, the line that it prints and the file
abbrev pub Round : Type 0
Round = Exit × Option Line × OpenFile

abbrev pub exit_at : Exit → OpenFile → Round
exit_at e file = (e, none, file)

unfoldable pub read_command : Calls → Bytes → ℕ → Bool → OpenFile → Round
read_command k arg len as_text file =
    let got = take len (drop file.offset file.content) in
    let after = record file { offset = file.offset + length got } in
    if not (k.malloc_ok len)
    then exit_at malloc_failed file
    else (if not (k.read_ok file len)
        then exit_at read_failed file
        else (if length got == 0
            then (success, some (end_of_file arg), after)
            else (if as_text
                then (success, some (text arg (map shown_byte got)), after)
                else (success, some (hex arg (map as_unsigned_int got)), after))))

-- The bytes of the file after a write; a write of no bytes leaves it as it is.
abbrev pub written : Bytes → ℕ → Bytes → Bytes
written content offset [] = content
written content offset (c ∷ buf) = write_at content offset (c ∷ buf)

unfoldable pub write_command : Calls → Bytes → Bytes → OpenFile → Round
write_command k arg buf file = elim (k.accepts file buf) [
  | none ↦ exit_at write_failed file
  | some n ↦ (
    success,
    some (wrote arg n),
    record {
      content = written file.content file.offset (take n buf);
      offset = file.offset + length (take n buf);
    },
  )
]

-- `lseek` refuses a negative offset.
unfoldable pub seek_command : Calls → Bytes → ℤ → OpenFile → Round
seek_command k arg (negsuc n) file = exit_at seek_failed file
seek_command k arg (pos n) file =
    if k.seek_ok n
    then (success, some (seek_succeeded arg), record file { offset = n })
    else exit_at seek_failed file

unfoldable pub command : Calls → Bytes → OpenFile → Round
command k [] file = exit_at bad_command file
command k (c ∷ arg) file =
    if c == b'r' || c == b'R'
    then elim (k.get_long arg) [
      | none ↦ exit_at bad_number file
      | some len ↦ read_command k (c ∷ arg) (to_size len) (c == b'r') file
    ]
    else (if c == b'w'
        then write_command k (c ∷ arg) arg file
        else (if c == b's'
            then elim (k.get_long arg) [
              | none ↦ exit_at bad_number file
              | some offset ↦ seek_command k (c ∷ arg) offset file
            ]
            else exit_at bad_command file))

abbrev pub with_line : Option Line → List Line → List Line
with_line none ls = ls
with_line (some l) ls = l ∷ ls

-- The loop over the commands
unfoldable pub run : Calls → List Bytes → OpenFile → Exit × List Line × OpenFile
run k [] file = (success, [], file)
run k (arg ∷ args) file =
    let (e, line, next) = command k arg file in
    let (last, lines, end) = run k args next in
    elim e [
      | success ↦ (last, with_line line lines, end)
      | other ↦ (other, with_line line [], next)
    ]

-- `main`, with the name of the file and the commands, of which there is at least one
unfoldable pub main : Calls → Bytes → List Bytes → Exit × List Line
main k name [] = (usage_error, [])
main k name (arg ∷ args) = if bytes_eq name help then (usage_error, []) else elim k.opened [
  | none ↦ (open_failed, [])
  | some file ↦ let (e, lines, end) = run k (arg ∷ args) file in (e, lines)
]
