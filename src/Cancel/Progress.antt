-- ===== src/Cancel/Progress.antt =====
-- chapter32/thread_cancel.c: the end of the deferred and of the disabled thread.
use the_linux_programming_in.Prelude.{
  ℕ, ◌+◌, ◌-◌, ◌*◌, ◌≤◌, ◌<◌, ◌≡◌, refl, ◌≢◌, inl, inr, Bool, true, false, some, arith, ltb, ltb→lt,
  Bool-cases,
}
use the_linux_programming_in.Cancel.{
  Kind, asynchronous, deferred, disabled, Pc, starting, ready, allocated, shielded, working,
  sleeping, completed, canceled, State, init, rounds, Step, request, set_state, strdup, push,
  shielded_round, enable, test_cancel, work, wake, pop, cancel, popping, freed, free, finish,
}
use the_linux_programming_in.Cancel.Laws.{IsValid, init-IsValid, Step-IsValid, Ended}
use the_linux_programming_in.Prelude.{Run, Run-keeps, Run-bounded}

abbrev pub bound : Kind → ℕ
bound asynchronous = 0
bound deferred = 20
bound disabled = 10

-- A round that goes on is one of those of the loop.
abbrev pub InRound : Kind → Pc → Type 0
InRound k (sleeping i) = i < bound k
InRound k p = Unit

rounds-bound : (k : Kind) (n : ℕ) → rounds k ≡ some n → n ≡ bound k
rounds-bound asynchronous n e = ground arith
rounds-bound deferred n e = ground arith
rounds-bound disabled n e = ground arith

Step-InRound :
    (k : Kind) (s u : State) → k ≢ asynchronous → InRound k s.pc → Step k s u → InRound k u.pc
Step-InRound k s u h v (request e) = v
Step-InRound asynchronous s u h v (set_state e) = tt
Step-InRound deferred s u h v (set_state e) = tt
Step-InRound disabled s u h v (set_state e) = tt
Step-InRound k s u h v (strdup e) = tt
Step-InRound asynchronous s u h v (push e) = tt
Step-InRound deferred s u h v (push e) = tt
Step-InRound disabled s u h v (push e) = tt
Step-InRound k s u h v (shielded_round i e l) = tt
Step-InRound k s u h v (enable i e l) = tt
Step-InRound k s u h v (test_cancel i n e r l p) = ground (arith, rounds-bound k n r)
Step-InRound asynchronous s u h v (work i e r) = absurd (h refl)
Step-InRound deferred s u h v (work i e r) = absurd (ground arith)
Step-InRound disabled s u h v (work i e r) = absurd (ground arith)
Step-InRound k s u h v (wake i e) = tt
Step-InRound k s u h v (pop i n e r l) = tt
Step-InRound k s u h v (free e) = tt
Step-InRound k s u h v (finish e) = tt
Step-InRound k s u h v (cancel e p c) = tt

abbrev first : Kind → ℕ
first disabled = 6
first k = 0

abbrev place : Kind → Pc → ℕ
place k starting = 6 + first k + 2 * bound k
place k ready = 5 + first k + 2 * bound k
place k allocated = 4 + first k + 2 * bound k
place k (shielded i) = 4 + (5 - i) + 2 * bound k
place k (working i) = 3 + 2 * (bound k - i)
place k (sleeping i) = 2 + 2 * (bound k - i)
place k popping = 2
place k freed = 1
place k completed = 0
place k canceled = 0

abbrev requests : Bool → ℕ
requests true = 0
requests false = 1

abbrev measure : Kind → State → ℕ
measure k s = place k s.pc + requests s.pending

abbrev Both : Kind → State → Type 0
Both k s = IsValid k s × InRound k s.pc

Step-Both : (k : Kind) → k ≢ asynchronous → (s u : State) → Both k s → Step k s u → Both k u
Step-Both k h s u (v, w) x = (Step-IsValid k s u h v x, Step-InRound k s u h w x)

Step-measure :
    (k : Kind)
    → k ≢ asynchronous
    → (s u : State) → Both k s
    → Step k s u
    → measure k u < measure k s
Step-measure k h s u (v, w) (request e) = ground arith
Step-measure asynchronous h s u (v, w) (set_state e) = absurd (h refl)
Step-measure deferred h s u (v, w) (set_state e) = ground arith
Step-measure disabled h s u (v, w) (set_state e) = ground arith
Step-measure k h s u (v, w) (strdup e) = ground arith
Step-measure asynchronous h s u (v, w) (push e) = absurd (h refl)
Step-measure deferred h s u (v, w) (push e) = ground arith
Step-measure disabled h s u (v, w) (push e) = ground arith
Step-measure k h s u (v, w) (shielded_round i e l) = ground arith
Step-measure k h s u (v, w) (enable i e l) = ground arith
Step-measure k h s u (v, w) (test_cancel i n e r l p) = ground (arith, rounds-bound k n r)
Step-measure asynchronous h s u (v, w) (work i e r) = absurd (h refl)
Step-measure deferred h s u (v, w) (work i e r) = absurd (ground arith)
Step-measure disabled h s u (v, w) (work i e r) = absurd (ground arith)
Step-measure k h s u (v, w) (wake i e) = ground arith
Step-measure k h s u (v, w) (pop i n e r l) = ground arith
Step-measure k h s u (v, w) (free e) = ground arith
Step-measure k h s u (v, w) (finish e) = ground arith
Step-measure k h s u (v, w) (cancel e p c) = ground (arith, v.not_async)

init-measure : (k : Kind) → measure k init ≤ 47
init-measure asynchronous = omega arith
init-measure deferred = omega arith
init-measure disabled = omega arith

looping_step :
    (k : Kind) (n i : ℕ) (s : State)
    → rounds k ≡ some n
    → s.pc ≡ working i
    → IsValid k s
    → (u : State) × Step k s u
looping_step k n i s r e v = elim (Bool-cases (ltb i n)) [
  | inl l ↦ elim (Bool-cases s.pending) [
    | inl p ↦ (_, cancel (ground (arith, v.fits)) p (ground arith))
    | inr p ↦ (_, test_cancel i n e r (ltb→lt i n l) p)
  ]
  | inr l ↦ (_, pop i n e r (ground arith))
]

exists_step :
    (k : Kind) (n : ℕ) (s : State) (p : Pc)
    → rounds k ≡ some n
    → s.pc ≡ p
    → IsValid k s
    → ¬ Ended p
    → (u : State) × Step k s u
exists_step k n s starting r e v h = (_, set_state e)
exists_step k n s ready r e v h = (_, strdup e)
exists_step k n s allocated r e v h = (_, push e)
exists_step k n s (shielded i) r e v h = elim (Bool-cases (ltb i 5)) [
  | inl l ↦ (_, shielded_round i e (ltb→lt i 5 l))
  | inr l ↦ (_, enable i e (ground arith))
]
exists_step k n s (working i) r e v h = looping_step k n i s r e v
exists_step k n s (sleeping i) r e v h = (_, wake i e)
exists_step k n s popping r e v h = (_, free e)
exists_step k n s freed r e v h = (_, finish e)
exists_step k n s completed r e v h = absurd (h tt)
exists_step k n s canceled r e v h = absurd (h tt)

-- Every run of the deferred or of the disabled thread comes to its end, whether it is cancelled or not
-- and whenever: until it has ended some step is possible, and no run has more than 47 steps.
pub thread_ends :
    (k : Kind) (n j : ℕ) (s : State)
    → rounds k ≡ some n
    → Run (Step k) init j s
    → (j ≤ 47) × (¬ Ended s.pc → (u : State) × Step k s u)
thread_ends k n j s e r =
    let h : k ≢ asynchronous = λ a. ground arith in
    (
      omega (
        arith,
        init-measure k,
        Run-bounded (Both k) (measure k) (Step-Both k h) (Step-measure k h) (init-IsValid k, tt) r,
      ),
      exists_step k n s s.pc e refl (Run-keeps (Both k) (Step-Both k h) (init-IsValid k, tt) r).0,
    )
