-- ===== src/ProcessTree/Views.antt =====
-- chapter12/exercise_2.c: the processes without their children, and the parent that is found for each.
use the_linux_programming_in.Prelude.{
  ℕ, zero, suc, ◌<◌, ◌≡◌, refl, sym, ap, ◌∙◌, inl, inr, Bool, false, Option, none, some, List, [],
  ◌∷◌, arith, ◌==◌, Option-cases, length, get_elem?,
}
use the_linux_programming_in.Prelude.Int.{ℤ}
use the_linux_programming_in.ProcessTree.{Process, add_child, find_process, parent_of}

-- Everything of the processes but the children.
abbrev pub strip : Process → Process
strip p = record p { children = [] }

abbrev pub bare : List Process → List Process
bare [] = []
bare (p ∷ ps) = strip p ∷ bare ps

abbrev pub children_at : List Process → ℕ → List ℕ
children_at [] i = []
children_at (p ∷ ps) zero = p.children
children_at (p ∷ ps) (suc i) = children_at ps i

-- The parent that is found for process `i`
abbrev pub parent_at : List Process → ℕ → Option ℕ
parent_at ps i = elim (get_elem? ps i) [ none ↦ none | some p ↦ parent_of ps p ]

abbrev pub is_child : List Process → ℕ → ℕ → Bool
is_child ps parent j = elim (parent_at ps j) [ none ↦ false | some q ↦ q == parent ]

abbrev pub range_from : ℕ → ℕ → List ℕ
range_from i zero = []
range_from i (suc n) = i ∷ range_from (suc i) n

pub bare-add_child : (q c : ℕ) (ps : List Process) → bare (add_child q c ps) ≡ bare ps
unfolding add_child
bare-add_child q c [] = refl
bare-add_child zero c (p ∷ ps) = ground arith
bare-add_child (suc q) c (p ∷ ps) = ap (λ r. strip p ∷ r) (bare-add_child q c ps)

pub length-bare : (ps : List Process) → length (bare ps) ≡ length ps
length-bare [] = refl
length-bare (p ∷ ps) = ap suc (length-bare ps)

pub find_process-bare :
    (pid : ℤ) (ps : List Process) → find_process pid (bare ps) ≡ find_process pid ps
unfolding find_process
find_process-bare pid [] = refl
find_process-bare pid (p ∷ ps) = ground (arith, find_process-bare pid ps)

pub get_elem?-bare :
    (ps : List Process) (i : ℕ)
    → get_elem? (bare ps) i ≡ elim (get_elem? ps i) [ none ↦ none | some p ↦ some (strip p) ]
get_elem?-bare [] i = refl
get_elem?-bare (p ∷ ps) zero = refl
get_elem?-bare (p ∷ ps) (suc i) = get_elem?-bare ps i

pub parent_at-bare : (ps : List Process) (i : ℕ) → parent_at (bare ps) i ≡ parent_at ps i
unfolding parent_of
parent_at-bare ps i = elim (Option-cases (get_elem? ps i)) [
  | inl e ↦ ground (arith, get_elem?-bare ps i)
  | inr (p, e) ↦ ground (arith, get_elem?-bare ps i, find_process-bare p.ppid ps)
]

pub parent_at-eq :
    (ps qs : List Process) (i : ℕ) → bare ps ≡ bare qs → parent_at ps i ≡ parent_at qs i
parent_at-eq ps qs i e = sym (parent_at-bare ps i) ∙ ap (λ r. parent_at r i) e ∙ parent_at-bare qs i

pub find_process-lt :
    (pid : ℤ) (ps : List Process) (i : ℕ) → find_process pid ps ≡ some i → i < length ps
unfolding find_process
find_process-lt pid [] i e = cc
find_process-lt pid (p ∷ ps) i e = elim (Option-cases (find_process pid ps)) [
  | inl h ↦ ground arith
  | inr (k, h) ↦ ground (arith, find_process-lt pid ps k)
]

pub parent_at-lt : (ps : List Process) (j q : ℕ) → parent_at ps j ≡ some q → q < length ps
unfolding parent_of
parent_at-lt ps j q e = elim (Option-cases (get_elem? ps j)) [
  | inl h ↦ ground arith
  | inr (p, h) ↦ ground (arith, find_process-lt p.ppid ps q)
]
