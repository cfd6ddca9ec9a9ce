-- ===== src/SeekIo/Laws.antt =====
-- chapter4/seek_io.c: reads after writes at the same offset.
use the_linux_programming_in.Prelude.{
  ℕ, zero, suc, ◌+◌, ◌%◌, ◌^◌, ◌<◌, ◌≡◌, refl, ap, Bool, true, false, some, List, [], ◌∷◌, ◌++◌,
  map, arith, ◌==◌, if◌then◌else◌, length, take, drop, Bytes, bytes_eq,
}
use the_linux_programming_in.Prelude.Int.{pos}
use the_linux_programming_in.SparseCopy.{write_at}
use the_linux_programming_in.Prelude.{help}
use the_linux_programming_in.SeekIo.{
  OpenFile, Calls, Line, text, hex, wrote, seek_succeeded, Exit, success, shown_byte, with_line,
  as_unsigned_int, Round, read_command, write_command, written, seek_command, command, run, main,
}

take-append_all : (b c : Bytes) → take (length b) (b ++ c) ≡ b
take-append_all [] c = ground arith
take-append_all (x ∷ b) c = ap (◌∷◌ x) (take-append_all b c)

write_at-read :
    (content : Bytes) (n : ℕ) (buf : Bytes)
    → take (length buf) (drop n (write_at content n buf)) ≡ buf
unfolding write_at
write_at-read content zero buf = take-append_all buf (drop (length buf) content)
write_at-read [] (suc n) buf = write_at-read [] n buf
write_at-read (c ∷ content) (suc n) buf = write_at-read content n buf

take_all : (b : Bytes) → take (length b) b ≡ b
take_all [] = refl
take_all (x ∷ b) = ap (◌∷◌ x) (take_all b)

-- The rest of the loop after the round for a command
abbrev go_on : Calls → List Bytes → Round → Exit × List Line × OpenFile
go_on k args (e, line, next) =
    let (last, lines, end) = run k args next in
    elim e [
      | success ↦ (last, with_line line lines, end)
      | other ↦ (other, with_line line [], next)
    ]

run-cons :
    (k : Calls) (arg : Bytes) (args : List Bytes) (f g : OpenFile) (l : Line)
    → command k arg f ≡ (success, some l, g)
    → run k (arg ∷ args) f ≡ ((run k args g).0, l ∷ (run k args g).1, (run k args g).2)
unfolding run
run-cons k arg args f g l e = ap (λ x. go_on k args x) e

command_seek :
    (k : Calls) (at : Bytes) (f : OpenFile) (n : ℕ)
    → k.get_long at ≡ some (pos n)
    → k.seek_ok n ≡ true
    → command k (b's' ∷ at) f
      ≡ (success, some (seek_succeeded (b's' ∷ at)), record f { offset = n })
unfolding command seek_command
command_seek k at f n ha hs = rw (ha, hs) refl

abbrev after_write : OpenFile → Bytes → OpenFile
after_write f buf = record {
  content = written f.content f.offset buf;
  offset = f.offset + length buf;
}

command_write :
    (k : Calls) (buf : Bytes) (f : OpenFile)
    → k.accepts f buf ≡ some (length buf)
    → command k (b'w' ∷ buf) f
      ≡ (success, some (wrote (b'w' ∷ buf) (length buf)), after_write f buf)
unfolding command write_command
command_write k buf f hw = rw (write_command, hw, take_all buf) refl

run_four :
    (k : Calls) (a1 a2 a3 a4 : Bytes) (f0 f1 f2 f3 f4 : OpenFile) (l1 l2 l3 l4 : Line)
    → command k a1 f0 ≡ (success, some l1, f1)
    → command k a2 f1 ≡ (success, some l2, f2)
    → command k a3 f2 ≡ (success, some l3, f3)
    → command k a4 f3 ≡ (success, some l4, f4)
    → run k (a1 ∷ a2 ∷ a3 ∷ a4 ∷ []) f0 ≡ (success, l1 ∷ l2 ∷ l3 ∷ l4 ∷ [], f4)
unfolding run
run_four k a1 a2 a3 a4 f0 f1 f2 f3 f4 l1 l2 l3 l4 e1 e2 e3 e4 =
    rw
      (
        run-cons k a1 (a2 ∷ a3 ∷ a4 ∷ []) f0 f1 l1 e1,
        run-cons k a2 (a3 ∷ a4 ∷ []) f1 f2 l2 e2,
        run-cons k a3 (a4 ∷ []) f2 f3 l3 e3,
        run-cons k a4 [] f3 f4 l4 e4,
      )
      refl

-- The line that a read command prints for bytes
abbrev after_read : OpenFile → Bytes → OpenFile
after_read f got = record f { offset = f.offset + length got }

abbrev printed : Bool → Bytes → Bytes → Line
printed as_text arg got =
    if as_text then text arg (map shown_byte got) else hex arg (map as_unsigned_int got)

read_command_lem :
    (k : Calls) (arg : Bytes) (as_text : Bool) (f : OpenFile) (c : ℕ) (cs : Bytes)
    → k.malloc_ok (length (c ∷ cs)) ≡ true
    → k.read_ok f (length (c ∷ cs)) ≡ true
    → take (length (c ∷ cs)) (drop f.offset f.content) ≡ c ∷ cs
    → read_command k arg (length (c ∷ cs)) as_text f
      ≡ (success, some (printed as_text arg (c ∷ cs)), after_read f (c ∷ cs))
unfolding read_command
read_command_lem k arg true f c cs hm hr back =
    let nz : (suc (length cs) == 0) ≡ false = ground arith in rw (hm, hr, back, nz) refl
read_command_lem k arg false f c cs hm hr back =
    let nz : (suc (length cs) == 0) ≡ false = ground arith in rw (hm, hr, back, nz) refl

-- If the file is opened and every call succeeds, each write with all of its bytes, the commands that
-- move to an offset, write a string that is not empty, move back and read as many bytes succeed, and
-- the last prints the string, r with a question mark for each byte that isprint refuses and R with the
-- number of each byte up to 127, and 2 ^ 32 - 256 more for each byte above.
pub main_reads_back :
    (k : Calls) (name at len : Bytes) (file : OpenFile) (n c : ℕ) (cs : Bytes)
    → bytes_eq name help ≡ false
    → k.opened ≡ some file
    → k.get_long at ≡ some (pos n)
    → k.get_long len ≡ some (pos (length (c ∷ cs)))
    → length (c ∷ cs) < 2 ^ 64
    → ((m : ℕ) → k.malloc_ok m ≡ true)
    → ((f : OpenFile) (m : ℕ) → k.read_ok f m ≡ true)
    → ((f : OpenFile) (b : Bytes) → k.accepts f b ≡ some (length b))
    → ((m : ℕ) → k.seek_ok m ≡ true)
    → (lines : List Line) × (main k name
          ((b's' ∷ at) ∷ (b'w' ∷ c ∷ cs) ∷ (b's' ∷ at) ∷ (b'r' ∷ len) ∷ [])
        ≡ (success, lines ++ text (b'r' ∷ len) (map shown_byte (c ∷ cs)) ∷ []))
      × (main k name ((b's' ∷ at) ∷ (b'w' ∷ c ∷ cs) ∷ (b's' ∷ at) ∷ (b'R' ∷ len) ∷ [])
          ≡ (success, lines ++ hex (b'R' ∷ len) (map as_unsigned_int (c ∷ cs)) ∷ []))
unfolding main command
main_reads_back k name at len file n c cs hn ho ha hl lt hm hr hw hs =
    let f1 : OpenFile = record file { offset = n } in
    let f2 = after_write f1 (c ∷ cs) in
    let f3 : OpenFile = record f2 { offset = n } in
    let size : suc (length cs) % 2 ^ 64 ≡ suc (length cs) = omega arith in
    let reads = λ (arg : Bytes) (as_text : Bool).
      read_command_lem k arg as_text f3 c cs (hm _) (hr f3 _)
        (write_at-read file.content n (c ∷ cs)) in
    let runs =
      λ (last : Bytes) (l : Line)
          (e : command k last f3 ≡ (success, some l, after_read f3 (c ∷ cs))).
        run_four k (b's' ∷ at) (b'w' ∷ c ∷ cs) (b's' ∷ at) last file f1 f2 f3 _ _ _ _ l
          (command_seek k at file n ha (hs n)) (command_write k (c ∷ cs) f1 (hw f1 (c ∷ cs)))
          (command_seek k at f2 n ha (hs n)) e in
    (
      seek_succeeded (b's' ∷ at)
          ∷ wrote (b'w' ∷ c ∷ cs) (length (c ∷ cs))
          ∷ seek_succeeded (b's' ∷ at)
          ∷ [],
      rw
          (
            hn,
            ho,
            runs (b'r' ∷ len) (printed true (b'r' ∷ len) (c ∷ cs))
                (rw (hl, size) (reads (b'r' ∷ len) true)),
          )
          refl,
      rw
          (
            hn,
            ho,
            runs (b'R' ∷ len) (printed false (b'R' ∷ len) (c ∷ cs))
                (rw (hl, size) (reads (b'R' ∷ len) false)),
          )
          refl,
    )
