-- ===== src/SimplePipe/Invariant.antt =====
-- chapter44/simple_pipe.c: what holds of the bytes and of the ends of the pipe in every state.
use the_linux_programming_in.Prelude.{
  ℕ, ◌≡◌, refl, ◌≢◌, Bool, true, false, not, [], ◌∷◌, ◌++◌, append_assoc, append-nil, arith, Bytes,
}
use the_linux_programming_in.SimplePipe.{
  ParentPc, writing, waiting, ended, ChildPc, echoing, at_newline, zombie, State, init, Step,
  parent_begins, transfer, write_returns, wait_returns, child_begins, read, echo, end_of_file,
  newline,
}

-- The bytes that are still with the parent, and what the child has beside its output
abbrev pub unsent : Bytes → ParentPc → Bytes
unsent text ParentPc.at_start = text
unsent text (writing rest) = rest
unsent text waiting = []
unsent text ended = []

abbrev pub held : ChildPc → Bytes
held (echoing c) = c ∷ []
held _ = []

abbrev pub end_open : ParentPc → Bool
end_open ParentPc.at_start = true
end_open (writing rest) = true
end_open _ = false

abbrev pub begun : ChildPc → Bool
begun ChildPc.at_start = false
begun _ = true

-- The output of the child, by where it is
abbrev pub Printed : Bytes → State → ChildPc → Type 0
Printed text s at_newline = s.output ≡ text
Printed text s zombie = s.output ≡ text ++ (10 ∷ [])
Printed text s c = s.output ++ (held c ++ (s.pipe ++ unsent text s.parent)) ≡ text

abbrev pub Late : State → ChildPc → Type 0
Late s at_newline = (s.pipe ≡ []) × (s.parent_end ≡ false) × (s.parent ≢ ended)
Late s zombie = (s.pipe ≡ []) × (s.parent_end ≡ false)
Late s c = s.parent ≢ ended

pub record IsValid (text : Bytes) (s : State) : Type 0 where
  pub printed : Printed text s s.child
  pub late : Late s s.child
  pub own_end : s.parent_end ≡ end_open s.parent
  pub other_end : s.child_end ≡ not (begun s.child)

pub init-IsValid : (text : Bytes) → IsValid text init
init-IsValid text = record { printed = refl; late = (cc); own_end = refl; other_end = refl }

module _ {capacity : ℕ} {text : Bytes} {s : State} (v : IsValid text s) where
  Step-own_end : {u : State} → Step capacity text s u → u.parent_end ≡ end_open u.parent
  Step-own_end (parent_begins e) = ground (arith, v.own_end)
  Step-own_end (transfer a rest e pos room) = ground (arith, v.own_end)
  Step-own_end (write_returns e) = ground (arith, v.own_end)
  Step-own_end (wait_returns e z) = ground (arith, v.own_end)
  Step-own_end (child_begins e) = ground (arith, v.own_end)
  Step-own_end (read c rest e p) = ground (arith, v.own_end)
  Step-own_end (echo c e) = ground (arith, v.own_end)
  Step-own_end (end_of_file e p a b) = ground (arith, v.own_end)
  Step-own_end (newline e) = ground (arith, v.own_end)

  Step-other_end : {u : State} → Step capacity text s u → u.child_end ≡ not (begun u.child)
  Step-other_end (parent_begins e) = ground (arith, v.other_end)
  Step-other_end (transfer a rest e pos room) = ground (arith, v.other_end)
  Step-other_end (write_returns e) = ground (arith, v.other_end)
  Step-other_end (wait_returns e z) = ground (arith, v.other_end)
  Step-other_end (child_begins e) = ground (arith, v.other_end)
  Step-other_end (read c rest e p) = ground (arith, v.other_end)
  Step-other_end (echo c e) = ground (arith, v.other_end)
  Step-other_end (end_of_file e p a b) = ground (arith, v.other_end)
  Step-other_end (newline e) = ground (arith, v.other_end)

  Step-Late : {u : State} → Step capacity text s u → Late u u.child
  Step-Late (parent_begins e) = ground (arith, v.late, v.own_end)
  Step-Late (transfer a rest e pos room) = ground (arith, v.late, v.own_end)
  Step-Late (write_returns e) = ground (arith, v.late, v.own_end)
  Step-Late (wait_returns e z) = ground (arith, v.late, v.own_end)
  Step-Late (child_begins e) = ground (arith, v.late, v.own_end)
  Step-Late (read c rest e p) = ground (arith, v.late, v.own_end)
  Step-Late (echo c e) = ground (arith, v.late, v.own_end)
  Step-Late (end_of_file e p a b) = ground (arith, v.late, v.own_end)
  Step-Late (newline e) = ground (arith, v.late, v.own_end)

  Step-printed : {u : State} → Step capacity text s u → Printed text u u.child
  Step-printed (parent_begins e) = ground (arith, v.printed, v.late)
  Step-printed (transfer a rest e pos room) =
      ground (arith, v.printed, v.late, v.own_end, append_assoc s.pipe a rest)
  Step-printed (write_returns e) = ground (arith, v.printed, v.late)
  Step-printed (wait_returns e z) = ground (arith, v.printed, v.late)
  Step-printed (child_begins e) = ground (arith, v.printed)
  Step-printed (read c rest e p) = ground (arith, v.printed)
  Step-printed (echo c e) =
      ground (arith, v.printed, append_assoc s.output (c ∷ []) (s.pipe ++ unsent text s.parent))
  Step-printed (end_of_file e p a b) = ground (arith, v.printed, v.own_end, append-nil s.output)
  Step-printed (newline e) = ground (arith, v.printed)

pub Step-IsValid :
    (capacity : ℕ) (text : Bytes) (s u : State)
    → IsValid text s
    → Step capacity text s u
    → IsValid text u
Step-IsValid capacity text s u v x = record {
  printed = Step-printed v x;
  late = Step-Late v x;
  own_end = Step-own_end v x;
  other_end = Step-other_end v x;
}
