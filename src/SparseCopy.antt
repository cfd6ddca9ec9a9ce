-- ===== src/SparseCopy.antt =====
-- chapter4/cp.c: copies a file block by block and leaves holes for blocks of zeros.
-- Here stand the data and the code; the children hold the proofs.
pub mod Content
pub mod Holes
mod Tests
use the_linux_programming_in.Prelude.{
  ℕ, zero, suc, ◌+◌, ◌-◌, ◌*◌, ◌/◌, ◌%◌, ◌^◌, ◌≤◌, ◌<◌, ◌≡◌, refl, sym, ap, ◌∙◌, ◌≢◌, ◌↔◌, ◌⊎◌, inl,
  inr, Bool, true, false, ◌&&◌, ◌||◌, not, Option, none, some, List, [], ◌∷◌, ◌++◌, map,
  append_assoc, append-nil, arith, ltb, leb, ◌==◌, if◌then◌else◌, ltb→lt, lt→ltb, leb→le, ==_iff,
  Bool-cases, Option-cases, length, get_elem?, set, length-append, length-set, get_elem?-set_self,
  get_elem?-set_ne, get_or, take, drop, replicate, length-map, Bytes, bytes_eq, bytes_eq_refl,
  bytes_eq_sound, bytes_eq_ne,
}

-- What the calls of `main` return. A `read` gives bytes or, as none, -1; no bytes are the end of the
-- file, and so is the end of the list.
pub record Kernel : Type 0 where
  pub open_in_ok : Bool
  pub fstat_ok : Bool
  pub open_out_ok : Bool
  pub reads : List (Option Bytes)
  pub tell_ok : ℕ → Bool  -- `lseek(inputFd, 0, SEEK_CUR)` at this offset
  pub seek_ok : ℕ → Bool  -- `lseek(outputFd, currOffset, SEEK_SET)`
  pub accepts : ℕ → Bytes → Option ℕ  -- `write` at this offset: the count, or none for -1
  pub close_in_ok : Bool
  pub close_out_ok : Bool

pub data Exit : Type 0 where
  success usage open_in fstat open_out tell seek short_write read close_in close_out : Exit

-- The output file, empty after O_TRUNC, and its offset
pub record Out : Type 0 where
  pub content : Bytes
  pub offset : ℕ

-- The bytes of a file after a write at an offset; a gap beyond the end reads as zeros.
unfoldable pub write_at : Bytes → ℕ → Bytes → Bytes
write_at content zero buf = buf ++ drop (length buf) content
write_at [] (suc n) buf = 0 ∷ write_at [] n buf
write_at (c ∷ content) (suc n) buf = c ∷ write_at content n buf

-- The loop over the block: `allZeros`
abbrev pub all_zeros : Bytes → Bool
all_zeros [] = true
all_zeros (c ∷ buf) = c == 0 && all_zeros buf

-- `write(outputFd, buf, numRead)`: the file after it, if all of it was written
unfoldable pub write : Kernel → Out → Bytes → Option Out
write k out buf = elim (k.accepts out.offset buf) [
  | none ↦ none
  | some n ↦
      if n == length buf
      then some (record {
        content = write_at out.content out.offset buf;
        offset = out.offset + length buf;
      })
      else none
]

-- One round of the loop: the block has been read, and the offset in the input file is behind it.
unfoldable pub copy_block : Kernel → Bytes → ℕ → Out → Exit × Out
unfolding write
copy_block k buf curr_offset out =
    if k.tell_ok curr_offset
    then (if all_zeros buf
        then (if k.seek_ok curr_offset
            then (success, record out { offset = curr_offset })
            else (seek, out))
        else elim (write k out buf) [ none ↦ (short_write, out) | some out' ↦ (success, out') ])
    else (tell, out)

-- The loop, with the offset in the input file
unfoldable pub copy_loop : Kernel → List (Option Bytes) → ℕ → Out → Exit × Out
copy_loop k [] in_offset out = (success, out)
copy_loop k (none ∷ rs) in_offset out = (read, out)
copy_loop k (some [] ∷ rs) in_offset out = (success, out)
copy_loop k (some (c ∷ cs) ∷ rs) in_offset out =
    let curr_offset = in_offset + length (c ∷ cs) in
    let round = copy_block k (c ∷ cs) curr_offset out in
    let rest = copy_loop k rs curr_offset round.1 in
    elim round.0 [ success ↦ rest | other ↦ (other, round.1) ]

unfoldable pub main : ℕ → Kernel → Exit × Out
main argc k =
    let empty : Out = record { content = []; offset = 0 } in
    if not (argc == 3)
    then (usage, empty)
    else (if not k.open_in_ok
        then (open_in, empty)
        else (if not k.fstat_ok
            then (fstat, empty)
            else (if not k.open_out_ok
                then (open_out, empty)
                else (let end = copy_loop k k.reads 0 empty in
                    elim end.0 [
                      | success ↦
                          if not k.close_in_ok
                          then (close_in, end.1)
                          else (if not k.close_out_ok then (close_out, end.1) else end)
                      | other ↦ (other, end.1)
                    ]))))
