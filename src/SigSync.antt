-- ===== src/SigSync.antt =====
-- chapter24/fork_sig_sync.c: a parent waits for a signal of its child. Here stand the states and the
-- steps; the children hold the proofs. A failing call ends the program, and has no step; of the
-- signals, SIGUSR1 from the child alone is modelled.
pub mod Laws
mod Tests
use the_linux_programming_in.Prelude.{
  ℕ, zero, suc, ◌+◌, ◌-◌, ◌*◌, ◌/◌, ◌%◌, ◌^◌, ◌≤◌, ◌<◌, ◌≡◌, refl, sym, ap, ◌∙◌, ◌≢◌, ◌↔◌, ◌⊎◌, inl,
  inr, Bool, true, false, ◌&&◌, ◌||◌, not, Option, none, some, List, [], ◌∷◌, ◌++◌, map,
  append_assoc, append-nil, arith, ltb, leb, ◌==◌, if◌then◌else◌, ltb→lt, lt→ltb, leb→le, ==_iff,
  Bool-cases, Option-cases, length, get_elem?, set, length-append, length-set, get_elem?-set_self,
  get_elem?-set_ne, get_or, take, drop, replicate, length-map, Bytes, bytes_eq, bytes_eq_refl,
  bytes_eq_sound, bytes_eq_ne,
}
use the_linux_programming_in.Prelude.{update}

-- Where the parent is in `main`
pub data ParentPc : Type 0 where
  starting : ParentPc  -- before the first `sigprocmask`
  blocking : ParentPc  -- SYNC_SIG is blocked
  handling : ParentPc  -- the handler is installed
  forked : ParentPc  -- in the `default` case, before `sigsuspend`
  suspended : ParentPc  -- in `sigsuspend`
  got_signal : ParentPc  -- `sigsuspend` has returned
  exited : ParentPc  -- the mask is set back
  killed : ParentPc  -- by the default action of the signal

pub data ChildPc : Type 0 where
  absent : ChildPc
  working : ChildPc  -- before `kill`
  signalled : ChildPc  -- after it

pub record State : Type 0 where
  pub parent : ParentPc
  pub child : ChildPc
  pub blocked : Bool  -- whether SYNC_SIG is in the mask of the parent
  pub handler : Bool  -- whether its action is `handler`; the default action ends the process
  pub pending : Bool  -- whether it is pending for the parent
  pub caught : ℕ  -- the calls of `handler`

-- The mask from before is `origMask`, in which SYNC_SIG is as `orig` says.
abbrev pub init : Bool → State
init orig = record {
  parent = starting;
  child = absent;
  blocked = orig;
  handler = false;
  pending = false;
  caught = 0;
}

-- A step of the parent or of the child. A pending signal that is not blocked is delivered: to the
-- handler, or with the default action.
pub data Step (orig : Bool) (s : State) : State → Type 0 where
  block : s.parent ≡ starting → Step orig s (record s { parent = blocking; blocked = true })
  install : s.parent ≡ blocking → Step orig s (record s { parent = handling; handler = true })
  fork : s.parent ≡ handling → Step orig s (record s { parent = forked; child = working })
  suspend : s.parent ≡ forked → Step orig s (record s { parent = suspended; blocked = false })
  kill : s.child ≡ working → Step orig s (record s { child = signalled; pending = true })
  deliver :
      s.pending ≡ true
      → s.blocked ≡ false
      → s.handler ≡ true
      → s.parent ≢ suspended
      → s.parent ≢ exited
      → s.parent ≢ killed
      → Step orig s (record s { pending = false; caught = s.caught + 1 })
  interrupt :
      s.pending ≡ true
      → s.blocked ≡ false
      → s.handler ≡ true
      → s.parent ≡ suspended
      → Step orig s
          (record s { parent = got_signal; pending = false; blocked = true; caught = s.caught + 1 })
  default_action :
      s.pending ≡ true
      → s.blocked ≡ false
      → s.handler ≡ false
      → s.parent ≢ exited
      → Step orig s (record s { parent = killed; pending = false })
  restore : s.parent ≡ got_signal → Step orig s (record s { parent = exited; blocked = orig })
