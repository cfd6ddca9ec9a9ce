-- ===== src/SeekIo/Tests.antt =====
-- chapter4/seek_io.c: commands on a file of three bytes.
use the_linux_programming_in.Prelude.{
  ◌-◌, ◌≡◌, refl, true, Option, none, some, List, [], ◌∷◌, ◌++◌, arith, if◌then◌else◌, length,
  Bytes,
}
use the_linux_programming_in.Prelude.Int.{ℤ, pos}
use the_linux_programming_in.SparseCopy.{write_at}
use the_linux_programming_in.Prelude.Atoi.{isdigit}
use the_linux_programming_in.SeekIo.{
  OpenFile, Calls, Line, text, hex, wrote, seek_succeeded, success, bad_command, read_command,
  write_command, seek_command, command, run, main,
}
use the_linux_programming_in.SeekIo.Laws.{main_reads_back}

abbrev digits : Bytes → Option ℤ
digits [] = none
digits (d ∷ s) = if isdigit d then some (pos (d - b'0')) else none

abbrev old : OpenFile
old = record { content = b'a' ∷ b'b' ∷ b'c' ∷ []; offset = 0 }

abbrev calls : Calls
calls = record {
  opened = some old;
  get_long = digits;
  malloc_ok = λ n. true;
  read_ok = λ f n. true;
  accepts = λ f b. some (length b);
  seek_ok = λ n. true;
}

abbrev file_name : Bytes
file_name = b'f' ∷ []

-- A byte above 127 is printed with the sign of char.
high_byte :
    main calls file_name ((b'w' ∷ 200 ∷ []) ∷ (b's' ∷ b'0' ∷ []) ∷ (b'R' ∷ b'2' ∷ []) ∷ []) ≡ (
      success,
      wrote (b'w' ∷ 200 ∷ []) 1
          ∷ seek_succeeded (b's' ∷ b'0' ∷ [])
          ∷ hex (b'R' ∷ b'2' ∷ []) (4294967240 ∷ b'b' ∷ [])
          ∷ [],
    )
unfolding main run command seek_command write_command read_command write_at
high_byte = refl

wrong_command : main calls file_name ((b'x' ∷ []) ∷ []) ≡ (bad_command, [])
unfolding main run command
wrong_command = refl

main_reads_back_example :
    (lines : List Line) × (main calls file_name (
        (b's' ∷ b'5' ∷ []) ∷ (b'w' ∷ b'x' ∷ 10 ∷ []) ∷ (b's' ∷ b'5' ∷ []) ∷ (b'r' ∷ b'2' ∷ []) ∷ [])
      ≡ (success, lines ++ text (b'r' ∷ b'2' ∷ []) (b'x' ∷ b'?' ∷ []) ∷ []))
    × (main calls file_name (
          (b's' ∷ b'5' ∷ [])
          ∷ (b'w' ∷ b'x' ∷ 10 ∷ [])
          ∷ (b's' ∷ b'5' ∷ [])
          ∷ (b'R' ∷ b'2' ∷ [])
          ∷ [])
        ≡ (success, lines ++ hex (b'R' ∷ b'2' ∷ []) (b'x' ∷ 10 ∷ []) ∷ []))
main_reads_back_example =
    main_reads_back calls file_name (b'5' ∷ []) (b'2' ∷ []) old 5 b'x' (10 ∷ []) refl refl refl refl
      (omega arith) (λ m. refl) (λ f m. refl) (λ f b. refl) (λ m. refl)
