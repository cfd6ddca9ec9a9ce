-- ===== src/SimplePipe.antt =====
-- chapter44/simple_pipe.c: a parent sends its argument to a child through a pipe, and the child copies it
-- to its output. Here stand the states and the steps; the children hold the proofs. A failing call ends the
-- program, and has no step; the progress reports are left out.
pub mod Invariant
pub mod Laws
mod Tests
use the_linux_programming_in.Prelude.{
  ℕ, zero, suc, ◌+◌, ◌-◌, ◌*◌, ◌/◌, ◌%◌, ◌^◌, ◌≤◌, ◌<◌, ◌≡◌, refl, sym, ap, ◌∙◌, ◌≢◌, ◌↔◌, ◌⊎◌, inl,
  inr, Bool, true, false, ◌&&◌, ◌||◌, not, Option, none, some, List, [], ◌∷◌, ◌++◌, map,
  append_assoc, append-nil, arith, ltb, leb, ◌==◌, if◌then◌else◌, ltb→lt, lt→ltb, leb→le, ==_iff,
  Bool-cases, Option-cases, length, get_elem?, set, length-append, length-set, get_elem?-set_self,
  get_elem?-set_ne, get_or, take, drop, replicate, length-map, Bytes, bytes_eq, bytes_eq_refl,
  bytes_eq_sound, bytes_eq_ne,
}

pub data ParentPc : Type 0 where
  at_start : ParentPc
  writing : Bytes → ParentPc  -- in `write`, with the bytes that are not in the pipe yet
  waiting : ParentPc  -- its write end is closed, in `wait`
  ended : ParentPc

pub data ChildPc : Type 0 where
  at_start : ChildPc
  reading : ChildPc
  echoing : ℕ → ChildPc  -- `buf` has been read and not written
  at_newline : ChildPc
  zombie : ChildPc

pub record State : Type 0 where
  pub parent : ParentPc
  pub child : ChildPc
  pub pipe : Bytes
  pub parent_end : Bool  -- whether the parent's write end is open
  pub child_end : Bool
  pub output : Bytes  -- of the child

-- After `fork`
abbrev pub init : State
init = record {
  parent = ParentPc.at_start;
  child = ChildPc.at_start;
  pipe = [];
  parent_end = true;
  child_end = true;
  output = [];
}

-- A step of the parent, with its argument `text`, or of the child. A pipe holds `capacity` bytes; a
-- write waits for room, and a read for a byte or for the end of file.
pub data Step (capacity : ℕ) (text : Bytes) (s : State) : State → Type 0 where
  parent_begins :
      s.parent ≡ ParentPc.at_start → Step capacity text s (record s { parent = writing text })
  transfer :
      (some_bytes rest : Bytes)
      → s.parent ≡ writing (some_bytes ++ rest)
      → 0 < length some_bytes
      → length s.pipe + length some_bytes ≤ capacity
      → Step capacity text s (record s { parent = writing rest; pipe = s.pipe ++ some_bytes })
  write_returns :
      s.parent ≡ writing []
      → Step capacity text s (record s { parent = waiting; parent_end = false })
  wait_returns :
      s.parent ≡ waiting → s.child ≡ zombie → Step capacity text s (record s { parent = ended })
  child_begins :
      s.child ≡ ChildPc.at_start
      → Step capacity text s (record s { child = reading; child_end = false })
  read :
      (c : ℕ) (rest : Bytes)
      → s.child ≡ reading
      → s.pipe ≡ c ∷ rest
      → Step capacity text s (record s { child = echoing c; pipe = rest })
  echo :
      (c : ℕ)
      → s.child ≡ echoing c
      → Step capacity text s (record s { child = reading; output = s.output ++ (c ∷ []) })
  end_of_file :
      s.child ≡ reading
      → s.pipe ≡ []
      → s.parent_end ≡ false
      → s.child_end ≡ false
      → Step capacity text s (record s { child = at_newline })
  newline :
      s.child ≡ at_newline
      → Step capacity text s (record s { child = zombie; output = s.output ++ (10 ∷ []) })
