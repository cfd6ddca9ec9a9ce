-- ===== src/Inotify/Tests.antt =====
-- chapter19: the layout of the struct on Linux, and a read of two events.
use the_linux_programming_in.Prelude.{
  ℕ, ◌+◌, ◌*◌, ◌/◌, ◌%◌, ◌^◌, ◌≡◌, refl, true, some, List, [], ◌∷◌, ◌++◌, arith, get_or, replicate,
  Bytes,
}
use the_linux_programming_in.Inotify.{Flag, Event, Layout, watching, going, main}
use the_linux_programming_in.Inotify.Encoding.{Occurred, IsWritten, shown_of}
use the_linux_programming_in.Inotify.{
  in_access, in_attrib, in_close_nowrite, in_close_write, in_create, in_delete, in_delete_self,
  in_ignored, in_isdir, in_modify, in_move_self, in_moved_from, in_moved_to, in_open, in_q_overflow,
  in_unmount,
}
use the_linux_programming_in.Inotify.Laws.{reads_of, printed, AllReads, main-reads_of}
use the_linux_programming_in.Prelude.Int.{pos_part}
use the_linux_programming_in.Prelude.Int.{pos}

abbrev uint32 : Bytes → ℕ → ℕ
uint32 p i =
    get_or p i 0
    + 256 * get_or p (i + 1) 0
    + 65536 * get_or p (i + 2) 0
    + 16777216 * get_or p (i + 3) 0

abbrev linux_bit : Flag → ℕ
linux_bit in_access = 0
linux_bit in_modify = 1
linux_bit in_attrib = 2
linux_bit in_close_write = 3
linux_bit in_close_nowrite = 4
linux_bit in_open = 5
linux_bit in_moved_from = 6
linux_bit in_moved_to = 7
linux_bit in_create = 8
linux_bit in_delete = 9
linux_bit in_delete_self = 10
linux_bit in_move_self = 11
linux_bit in_unmount = 13
linux_bit in_q_overflow = 14
linux_bit in_ignored = 15
linux_bit in_isdir = 30

abbrev linux : Layout
linux = record {
  size = 16;
  fields = λ p. record {
    wd = pos (uint32 p 0);
    mask = uint32 p 4;
    cookie = uint32 p 8;
    len = uint32 p 12;
  };
  bit = linux_bit;
}

abbrev bytes_of : ℕ → Bytes
bytes_of n = n % 256 ∷ n / 256 % 256 ∷ n / 65536 % 256 ∷ n / 16777216 % 256 ∷ []

abbrev write_linux : Event → Bytes
write_linux e =
    bytes_of (pos_part e.wd) ++ (bytes_of e.mask ++ (bytes_of e.cookie ++ bytes_of e.len))

-- The file a is made, and the directory itself is opened.
abbrev made : Occurred
made = record { wd = pos 1; mask = 256; cookie = 0; name = b'a' ∷ []; padding = 15 }

abbrev opened : Occurred
opened = record { wd = pos 1; mask = 2 ^ 30 + 32; cookie = 0; name = []; padding = 0 }

made-IsWritten : IsWritten linux write_linux made
made-IsWritten = record {
  whole = refl;
  agreed = refl;
  plain = (omega arith, tt);
  ended = λ h. omega arith;
}

opened-IsWritten : IsWritten linux write_linux opened
opened-IsWritten = record { whole = refl; agreed = refl; plain = tt; ended = λ h. elim h [ ] }

abbrev batches : List (List Occurred)
batches = (made ∷ opened ∷ []) ∷ (made ∷ []) ∷ []

batches-AllReads : AllReads linux write_linux 4 batches
batches-AllReads = (
  omega arith,
  (made-IsWritten, (opened-IsWritten, tt)),
  omega arith,
  (omega arith, (made-IsWritten, tt), omega arith, tt),
)

-- The flags of the two events
opened_flags : (shown_of linux opened).flags ≡ in_isdir ∷ in_open ∷ []
opened_flags = refl

main-reads_of_example :
    main 4 linux
      ((b'd' ∷ []) ∷ [])
      true
      (λ p. some (pos 1))
      (replicate 100 7)
      (reads_of write_linux batches)
    ≡ some (watching (b'd' ∷ []) (pos 1) ∷ printed linux write_linux batches, going)
main-reads_of_example =
    main-reads_of linux write_linux 4 (b'd' ∷ []) [] (λ p. pos 1) (replicate 100 7) batches
      (omega arith) refl batches-AllReads
