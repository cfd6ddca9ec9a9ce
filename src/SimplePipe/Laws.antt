-- ===== src/SimplePipe/Laws.antt =====
-- chapter44/simple_pipe.c: the output of the child, and the end of the two processes.
use the_linux_programming_in.Prelude.{
  ℕ, ◌+◌, ◌*◌, ◌≤◌, ◌<◌, ◌≡◌, refl, ◌≢◌, ◌⊎◌, inl, inr, true, [], ◌∷◌, ◌++◌, append_assoc,
  append-nil, arith, ltb, Bool-cases, length, length-append, Bytes,
}
use the_linux_programming_in.SimplePipe.{
  ParentPc, writing, waiting, ended, ChildPc, reading, echoing, at_newline, zombie, State, init,
  Step, parent_begins, transfer, write_returns, wait_returns, child_begins, read, echo, end_of_file,
  newline,
}
use the_linux_programming_in.SimplePipe.Invariant.{unsent, IsValid, init-IsValid, Step-IsValid}
use the_linux_programming_in.Prelude.{Run, Run-keeps, Run-bounded}

abbrev parent_place : ParentPc → ℕ
parent_place ParentPc.at_start = 3
parent_place (writing rest) = 2
parent_place waiting = 1
parent_place ended = 0

abbrev child_place : ChildPc → ℕ
child_place ChildPc.at_start = 4
child_place reading = 3
child_place (echoing c) = 4
child_place at_newline = 2
child_place zombie = 0

abbrev measure : Bytes → State → ℕ
measure text s =
    3 * length (unsent text s.parent)
    + 2 * length s.pipe
    + parent_place s.parent
    + child_place s.child

Step-measure :
    (capacity : ℕ) (text : Bytes) (s u : State)
    → IsValid text s
    → Step capacity text s u
    → measure text u < measure text s
Step-measure capacity text s u v (parent_begins e) = ground arith
Step-measure capacity text s u v (transfer a rest e pos room) =
    ground (arith, length-append a rest, length-append s.pipe a)
Step-measure capacity text s u v (write_returns e) = ground arith
Step-measure capacity text s u v (wait_returns e z) = ground arith
Step-measure capacity text s u v (child_begins e) = ground arith
Step-measure capacity text s u v (read c rest e p) = ground arith
Step-measure capacity text s u v (echo c e) = ground arith
Step-measure capacity text s u v (end_of_file e p a b) = ground arith
Step-measure capacity text s u v (newline e) = ground arith

-- The child can go on, but in `read` on an empty pipe that the parent has open.
child_steps :
    (capacity : ℕ) (text : Bytes) (s : State) (c : ChildPc) (p : Bytes)
    → s.child ≡ c
    → s.pipe ≡ p
    → IsValid text s
    → (c ≡ zombie) ⊎ (((p ≡ []) × (s.parent_end ≡ true)) ⊎ ((u : State) × Step capacity text s u))
child_steps capacity text s ChildPc.at_start p e f v = inr (inr (_, child_begins e))
child_steps capacity text s reading [] e f v = elim (Bool-cases s.parent_end) [
  | inl open_end ↦ inr (inl (refl, open_end))
  | inr shut ↦ inr (inr (_, end_of_file e f shut (ground (arith, v.other_end))))
]
child_steps capacity text s reading (c ∷ rest) e f v = inr (inr (_, read c rest e f))
child_steps capacity text s (echoing c) p e f v = inr (inr (_, echo c e))
child_steps capacity text s at_newline p e f v = inr (inr (_, newline e))
child_steps capacity text s zombie p e f v = inl refl

exists_step :
    (capacity : ℕ) (text : Bytes) (s : State) (p : ParentPc)
    → s.parent ≡ p
    → 0 < capacity
    → IsValid text s
    → p ≢ ended
    → (u : State) × Step capacity text s u
exists_step capacity text s ParentPc.at_start e pos v h = (_, parent_begins e)
exists_step capacity text s (writing []) e pos v h = (_, write_returns e)
exists_step capacity text s (writing (c ∷ rest)) e pos v h =
    elim (Bool-cases (ltb (length s.pipe) capacity)) [
      | inl room ↦ (_, transfer (c ∷ []) rest e (omega arith) (ground arith))
      | inr full ↦ elim (child_steps capacity text s s.child s.pipe refl refl v) [
        | inl z ↦ absurd (ground (arith, v.late))
        | inr (inl (none_there, o)) ↦ absurd (ground arith)
        | inr (inr u) ↦ u
      ]
    ]
exists_step capacity text s waiting e pos v h =
    elim (child_steps capacity text s s.child s.pipe refl refl v) [
      | inl z ↦ (_, wait_returns e z)
      | inr (inl (none_there, o)) ↦ absurd (ground (arith, v.own_end))
      | inr (inr u) ↦ u
    ]
exists_step capacity text s ended e pos v h = absurd (h refl)

ended_output :
    (text : Bytes) (s : State) (c : ChildPc)
    → s.child ≡ c
    → IsValid text s
    → s.parent ≡ ended
    → s.output ≡ text ++ (10 ∷ [])
ended_output text s ChildPc.at_start e v h = absurd (ground (arith, v.late))
ended_output text s reading e v h = absurd (ground (arith, v.late))
ended_output text s (echoing c) e v h = absurd (ground (arith, v.late))
ended_output text s at_newline e v h = absurd (ground (arith, v.late))
ended_output text s zombie e v h = ground (arith, v.printed)

in_flight :
    (text : Bytes) (s : State) (h : Bytes)
    → s.output ++ (h ++ (s.pipe ++ unsent text s.parent)) ≡ text
    → (rest : Bytes) × (s.output ++ rest ≡ text ++ (10 ∷ []))
in_flight text s h e = (
  (h ++ (s.pipe ++ unsent text s.parent)) ++ (10 ∷ []),
  ground (arith, e, append_assoc s.output (h ++ (s.pipe ++ unsent text s.parent)) (10 ∷ [])),
)

prefix :
    (text : Bytes) (s : State) (c : ChildPc)
    → s.child ≡ c
    → IsValid text s
    → (rest : Bytes) × (s.output ++ rest ≡ text ++ (10 ∷ []))
prefix text s ChildPc.at_start e v = in_flight text s [] (ground (arith, v.printed))
prefix text s reading e v = in_flight text s [] (ground (arith, v.printed))
prefix text s (echoing c) e v = in_flight text s (c ∷ []) (ground (arith, v.printed))
prefix text s at_newline e v = (10 ∷ [], ground (arith, v.printed))
prefix text s zombie e v = ([], ground (arith, v.printed, append-nil s.output))

-- When the parent has come to its end, the output of the child is the argument of the parent and a
-- newline; before that it is a beginning of the argument, or all of it, or that with a newline.
pub output_exact :
    (capacity k : ℕ) (text : Bytes) (s : State)
    → Run (Step capacity text) init k s
    → (s.parent ≡ ended → s.output ≡ text ++ (10 ∷ []))
      × ((rest : Bytes) × (s.output ++ rest ≡ text ++ (10 ∷ [])))
output_exact capacity k text s r =
    let v = Run-keeps (IsValid text) (Step-IsValid capacity text) (init-IsValid text) r in
    (λ e. ended_output text s s.child refl v e, prefix text s s.child refl v)

-- With a pipe that holds at least one byte, every run comes to the end of the parent: until then some
-- step is possible, and no run has more than 3 * length text + 7 steps.
pub output_reached :
    (capacity k : ℕ) (text : Bytes) (s : State)
    → 0 < capacity
    → Run (Step capacity text) init k s
    → (k ≤ 3 * length text + 7) × (s.parent ≢ ended → (u : State) × Step capacity text s u)
output_reached capacity k text s pos r = (
  omega (
    arith,
    Run-bounded (IsValid text) (measure text) (Step-IsValid capacity text)
        (Step-measure capacity text) (init-IsValid text) r,
  ),
  exists_step capacity text s s.parent refl pos
      (Run-keeps (IsValid text) (Step-IsValid capacity text) (init-IsValid text) r),
)

-- With a pipe that holds at least one byte, every run comes to the end of the parent: until then some
-- step is possible, and no run has more than 3 * length text + 7 steps. Then the output of the child is
-- the argument of the parent and a newline; before that it is a beginning of this.
pub output_complete :
    (capacity k : ℕ) (text : Bytes) (s : State)
    → 0 < capacity
    → Run (Step capacity text) init k s
    → ((k ≤ 3 * length text + 7) × (s.parent ≢ ended → (u : State) × Step capacity text s u))
      × (s.parent ≡ ended → s.output ≡ text ++ (10 ∷ []))
      × ((rest : Bytes) × (s.output ++ rest ≡ text ++ (10 ∷ [])))
output_complete capacity k text s lt r =
    let (whole, part) = output_exact capacity k text s r in
    (output_reached capacity k text s lt r, whole, part)
