-- ===== src/SigSync/Laws.antt =====
-- chapter24/fork_sig_sync.c: the signal is not lost, and the parent goes on after it.
use the_linux_programming_in.Prelude.{
  ℕ, ◌+◌, ◌≤◌, ◌<◌, ◌≡◌, refl, ◌≢◌, ◌↔◌, ◌⊎◌, Bool, true, false, arith,
}
use the_linux_programming_in.SigSync.{
  ParentPc, starting, blocking, handling, forked, suspended, got_signal, exited, killed, ChildPc,
  absent, working, signalled, State, init, Step, block, install, fork, suspend, kill, deliver,
  interrupt, default_action, restore,
}
use the_linux_programming_in.Prelude.{Run, Run-keeps, Run-bounded}

-- What holds of a state, by where the parent is
abbrev Fits : Bool → State → ParentPc → Type 0
Fits orig s starting = (s.child ≡ absent) × (s.pending ≡ false) × (s.caught ≡ 0)
Fits orig s blocking =
    (s.child ≡ absent) × (s.pending ≡ false) × (s.caught ≡ 0) × (s.blocked ≡ true)
Fits orig s handling =
    (s.child ≡ absent)
    × (s.pending ≡ false)
    × (s.caught ≡ 0)
    × (s.blocked ≡ true)
    × (s.handler ≡ true)
Fits orig s forked =
    (s.child ≢ absent)
    × (s.child ≡ signalled ↔ s.pending ≡ true)
    × (s.caught ≡ 0)
    × (s.blocked ≡ true)
    × (s.handler ≡ true)
Fits orig s suspended =
    (s.child ≢ absent)
    × (s.child ≡ signalled ↔ s.pending ≡ true)
    × (s.caught ≡ 0)
    × (s.blocked ≡ false)
    × (s.handler ≡ true)
Fits orig s got_signal =
    (s.child ≡ signalled)
    × (s.pending ≡ false)
    × (s.caught ≡ 1)
    × (s.handler ≡ true)
    × (s.blocked ≡ true)
Fits orig s exited =
    (s.child ≡ signalled) × (s.pending ≡ false) × (s.caught ≡ 1) × (s.blocked ≡ orig)
Fits orig s killed = ⊥

init-Fits : (orig : Bool) → Fits orig (init orig) (init orig).parent
init-Fits orig = (refl, refl, refl)

Step-Fits :
    (orig : Bool) (s u : State) → Fits orig s s.parent → Step orig s u → Fits orig u u.parent
Step-Fits orig s u v (block e) = ground arith
Step-Fits orig s u v (install e) = ground arith
Step-Fits orig s u v (fork e) = ground arith
Step-Fits orig s u v (suspend e) = ground arith
Step-Fits orig s u v (kill e) = ground arith
Step-Fits orig s u v (deliver p b h a c d) = ground arith
Step-Fits orig s u v (interrupt p b h e) = ground arith
Step-Fits orig s u v (default_action p b h a) = ground arith
Step-Fits orig s u v (restore e) = ground arith

-- In every run the signal never ends the parent; when the parent has come past sigsuspend, the child has
-- sent the signal and the handler has been called exactly once; and when the parent has come to its
-- end, its mask is the one from before.
pub signal_awaited :
    (orig : Bool) (k : ℕ) (s : State)
    → Run (Step orig) (init orig) k s
    → (s.parent ≢ killed)
      × (s.parent ≡ got_signal ⊎ s.parent ≡ exited → (s.child ≡ signalled) × (s.caught ≡ 1))
      × (s.parent ≡ exited → s.blocked ≡ orig)
signal_awaited orig k s r =
    let v = Run-keeps (λ t. Fits orig t t.parent) (Step-Fits orig) (init-Fits orig) r in
    (ground arith, λ h. ground (arith, h), λ h. ground arith)

abbrev parent_place : ParentPc → ℕ
parent_place starting = 6
parent_place blocking = 5
parent_place handling = 4
parent_place forked = 3
parent_place suspended = 2
parent_place got_signal = 1
parent_place exited = 0
parent_place killed = 0

abbrev child_place : ChildPc → ℕ
child_place signalled = 0
child_place c = 1

abbrev measure : State → ℕ
measure s = parent_place s.parent + child_place s.child

Step-measure :
    (orig : Bool) (s u : State) → Fits orig s s.parent → Step orig s u → measure u < measure s
Step-measure orig s u v (block e) = ground arith
Step-measure orig s u v (install e) = ground arith
Step-measure orig s u v (fork e) = ground arith
Step-measure orig s u v (suspend e) = ground arith
Step-measure orig s u v (kill e) = ground arith
Step-measure orig s u v (deliver p b h a c d) = ground arith
Step-measure orig s u v (interrupt p b h e) = ground arith
Step-measure orig s u v (default_action p b h a) = ground arith
Step-measure orig s u v (restore e) = ground arith

suspended_step :
    (orig : Bool) (s : State) (c : ChildPc)
    → s.child ≡ c
    → s.parent ≡ suspended
    → Fits orig s suspended
    → (u : State) × Step orig s u
suspended_step orig s absent e h v = absurd (ground arith)
suspended_step orig s working e h v = (_, kill e)
suspended_step orig s signalled e h v =
    (_, interrupt (ground arith) (ground arith) (ground arith) h)

exists_step :
    (orig : Bool) (s : State) (p : ParentPc)
    → s.parent ≡ p
    → Fits orig s s.parent
    → p ≢ exited
    → (u : State) × Step orig s u
exists_step orig s starting e v h = (_, block e)
exists_step orig s blocking e v h = (_, install e)
exists_step orig s handling e v h = (_, fork e)
exists_step orig s forked e v h = (_, suspend e)
exists_step orig s suspended e v h = suspended_step orig s s.child refl e (ground arith)
exists_step orig s got_signal e v h = (_, restore e)
exists_step orig s exited e v h = absurd (h refl)
exists_step orig s killed e v h = absurd (ground arith)

-- Every run comes to the end of the parent, whether the child sends the signal before or after the
-- parent begins to wait: until the end some step is possible, and no run has more than 7 steps.
pub parent_goes_on :
    (orig : Bool) (k : ℕ) (s : State)
    → Run (Step orig) (init orig) k s
    → (k ≤ 7) × (s.parent ≢ exited → (u : State) × Step orig s u)
parent_goes_on orig k s r = (
  omega (
    arith,
    Run-bounded (λ t. Fits orig t t.parent) measure (Step-Fits orig) (Step-measure orig)
        (init-Fits orig) r,
  ),
  exists_step orig s s.parent refl
      (Run-keeps (λ t. Fits orig t t.parent) (Step-Fits orig) (init-Fits orig) r),
)

-- Every run comes to the end of the parent, whether the child sends the signal before or after the
-- parent begins to wait: until the end some step is possible, and no run has more than 7 steps. The
-- signal never ends the parent; when the parent has come past sigsuspend, the child has sent the signal
-- and the handler has been called exactly once; and when the parent has come to its end, its mask is the
-- one from before.
pub signal_synchronises :
    (orig : Bool) (k : ℕ) (s : State)
    → Run (Step orig) (init orig) k s
    → ((k ≤ 7) × (s.parent ≢ exited → (u : State) × Step orig s u))
      × (s.parent ≢ killed)
      × (s.parent ≡ got_signal ⊎ s.parent ≡ exited → (s.child ≡ signalled) × (s.caught ≡ 1))
      × (s.parent ≡ exited → s.blocked ≡ orig)
signal_synchronises orig k s r =
    let (alive, caught, mask) = signal_awaited orig k s r in
    (parent_goes_on orig k s r, alive, caught, mask)
