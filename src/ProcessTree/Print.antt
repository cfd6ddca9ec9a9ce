-- ===== src/ProcessTree/Print.antt =====
-- chapter12/exercise_2.c: the lines of `print_process_tree` against the descendants of a process.
use the_linux_programming_in.Prelude.{
  ℕ, zero, suc, ◌+◌, ◌<◌, ◌≡◌, refl, sym, ap, ◌∙◌, ◌≢◌, ◌⊎◌, inl, inr, Option, none, some, List, [],
  ◌∷◌, ◌++◌, arith, Option-cases, get_elem?,
}
use the_linux_programming_in.Prelude.{Has, Has-append, Has-append_left, Has-append_right}
use the_linux_programming_in.ProcessTree.{Process, Line, print_all, print_process_tree}
use the_linux_programming_in.ProcessTree.Preorder.{line_of, Preorder, print_process_tree-Preorder}
use mathlib.Core.Path.{subst}
use mathlib.Core.Option.{some-injective}
use the_linux_programming_in.ProcessTree.Views.{children_at}

-- Process `j` is reached from process `i` by `d` links from a parent to a child.
pub data Descends (ps : List Process) : ℕ → ℕ → ℕ → Type 0 where
  self : {i : ℕ} → Descends ps i 0 i
  child : {i k d j : ℕ} → Has k (children_at ps i) → Descends ps k d j → Descends ps i (suc d) j

-- Links lead to processes of lower rank, so that no process descends from itself.
abbrev pub IsAcyclic : List Process → (ℕ → ℕ) → Type 0
IsAcyclic ps rank = (i k : ℕ) → Has k (children_at ps i) → rank k < rank i

-- A line that is owed to a descendant of one of the processes `js`, printed from `level` on
abbrev pub Owed : List Process → List ℕ → ℕ → Line → Type 0
Owed ps js level l =
    (k : ℕ) × (d : ℕ) × (j : ℕ) × (p : Process) × Has k js
    × Descends ps k d j
    × (get_elem? ps j ≡ some p)
    × (l ≡ line_of (level + d) p)

-- The lines of a run are exactly those that are owed.
abbrev pub Exact : List Process → List ℕ → ℕ → List Line → Type 0
Exact ps js level ls =
    (l : Line) → (Has l ls → Owed ps js level l) × (Owed ps js level l → Has l ls)

Owed-weaken :
    (ps : List Process) (j : ℕ) (js : List ℕ) (level : ℕ) (l : Line)
    → Owed ps js level l
    → Owed ps (j ∷ js) level l
Owed-weaken ps j js level l (k, d, i, p, h, r, e, q) = (k, d, i, p, inr h, r, e, q)

print_all-Exact :
    (ps : List Process) (level : ℕ) (print : ℕ → Option (List Line)) (js : List ℕ)
    → ((j : ℕ) → Has j js → (ls : List Line) × (print j ≡ some ls) × Exact ps (j ∷ []) level ls)
    → (ls : List Line) × (print_all print js ≡ some ls) × Exact ps js level ls
print_all-Exact ps level print [] h = ([], refl, λ l. (λ a. absurd a, λ o. absurd o.4))
print_all-Exact ps level print (j ∷ js) h =
    let (ls, e, x) = h j (inl refl) in
    let (rest, f, y) = print_all-Exact ps level print js (λ k m. h k (inr m)) in
    (
      ls ++ rest,
      rw (e, print_all, f),
      λ l. (
        λ m. elim (Has-append l ls rest m) [
          | inl a ↦ widen l ((x l).0 a)
          | inr b ↦ Owed-weaken ps j js level l ((y l).0 b)
        ],
        λ o. split l ls rest (x l).1 (y l).1 o,
      ),
    )
  where
    widen : (l : Line) → Owed ps (j ∷ []) level l → Owed ps (j ∷ js) level l
    widen l (k, d, i, p, inl m, r, e, q) = (k, d, i, p, inl m, r, e, q)
    widen l (k, d, i, p, inr m, r, e, q) = absurd m

    split :
        (l : Line) (ls rest : List Line)
        → (Owed ps (j ∷ []) level l → Has l ls)
        → (Owed ps js level l → Has l rest)
        → Owed ps (j ∷ js) level l
        → Has l (ls ++ rest)
    split l ls rest a b (k, d, i, p, inl m, r, e, q) =
        Has-append_left l ls rest (a (k, d, i, p, inl m, r, e, q))
    split l ls rest a b (k, d, i, p, inr m, r, e, q) =
        Has-append_right l ls rest (b (k, d, i, p, m, r, e, q))

get_elem?-children_at :
    (ps : List Process) (i : ℕ) (p : Process)
    → get_elem? ps i ≡ some p
    → children_at ps i ≡ p.children
get_elem?-children_at [] i p e = cc
get_elem?-children_at (q ∷ ps) zero p e = ap (λ (r : Process). r.children) (some-injective _ _ e)
get_elem?-children_at (q ∷ ps) (suc i) p e = get_elem?-children_at ps i p e

children_at-none : (ps : List Process) (i : ℕ) → get_elem? ps i ≡ none → children_at ps i ≡ []
children_at-none [] i e = refl
children_at-none (q ∷ ps) zero e = cc
children_at-none (q ∷ ps) (suc i) e = children_at-none ps i e

module _ (ps : List Process) (level : ℕ) where
  line_shift : (d : ℕ) (p : Process) → line_of (level + 1 + d) p ≡ line_of (level + suc d) p
  line_shift d p = ap (λ n. line_of n p) (omega arith)

  -- What is owed to a process: its own line, or one that is owed to its children.
  Owed-inversion :
      {k d j : ℕ} (p q : Process) (l : Line)
      → Descends ps k d j
      → get_elem? ps k ≡ some p
      → get_elem? ps j ≡ some q
      → l ≡ line_of (level + d) q
      → (line_of level p ≡ l) ⊎ Owed ps p.children (level + 1) l
  Owed-inversion p q l self e f g = inl (ground arith)
  Owed-inversion {k} {d = suc d} {j} p q l (child {k = c} h r) e f g =
      inr (
        c,
        d,
        j,
        q,
        subst (Has c) (get_elem?-children_at ps k p e) h,
        r,
        f,
        g ∙ sym (line_shift d q),
      )

  nothing_Owed :
      {k d j : ℕ} (q : Process)
      → Descends ps k d j
      → get_elem? ps k ≡ none
      → get_elem? ps j ≢ some q
  nothing_Owed q self e f = ground arith
  nothing_Owed {k} q (child {k = c} h r) e f = absurd (subst (Has c) (children_at-none ps k e) h)

  Exact-none : (i : ℕ) → get_elem? ps i ≡ none → Exact ps (i ∷ []) level []
  Exact-none i e l = (λ m. absurd m, refute)
    where
      refute : Owed ps (i ∷ []) level l → ⊥
      refute (k, d, j, q, inl m, r, f, g) = nothing_Owed q r (ground arith) f
      refute (k, d, j, q, inr m, r, f, g) = absurd m

  Exact-node :
      (i : ℕ) (p : Process) (ls : List Line)
      → get_elem? ps i ≡ some p
      → Exact ps p.children (level + 1) ls
      → Exact ps (i ∷ []) level (line_of level p ∷ ls)
  Exact-node i p ls e x l = (there, back)
    where
      under : Owed ps p.children (level + 1) l → Owed ps (i ∷ []) level l
      under (k, d, j, q, h, r, f, g) = (
        i,
        suc d,
        j,
        q,
        inl refl,
        child (subst (Has k) (sym (get_elem?-children_at ps i p e)) h) r,
        f,
        g ∙ line_shift d q,
      )

      there : Has l (line_of level p ∷ ls) → Owed ps (i ∷ []) level l
      there (inl m) = (i, 0, i, p, inl refl, self, e, ground arith)
      there (inr m) = under ((x l).0 m)

      back : Owed ps (i ∷ []) level l → Has l (line_of level p ∷ ls)
      back (k, d, j, q, inl m, r, f, g) = elim (Owed-inversion p q l r (ground arith) f g) [
        | inl here ↦ inl here
        | inr below ↦ inr ((x l).1 below)
      ]
      back (k, d, j, q, inr m, r, f, g) = absurd m

print_process_tree-Lines :
    (fuel : ℕ) (ps : List Process) (rank : ℕ → ℕ) (i level : ℕ)
    → IsAcyclic ps rank
    → rank i < fuel
    → (ls : List Line) × (print_process_tree fuel ps i level ≡ some ls) × Exact ps (i ∷ []) level ls
unfolding print_process_tree
print_process_tree-Lines zero ps rank i level acyclic lt = absurd (omega arith)
print_process_tree-Lines (suc fuel) ps rank i level acyclic lt =
    elim (Option-cases (get_elem? ps i)) [
      | inl e ↦ ([], rw (e, print_process_tree), Exact-none ps level i e)
      | inr (p, e) ↦
          let (ls, f, x) =
            print_all-Exact ps (level + 1) (λ j. print_process_tree fuel ps j (level + 1))
              p.children
              (λ j m. print_process_tree-Lines fuel ps rank j (level + 1) acyclic (
                omega
                  (arith, acyclic i j (subst (Has j) (sym (get_elem?-children_at ps i p e)) m)))) in
          (line_of level p ∷ ls, rw (e, print_process_tree, f), Exact-node ps level i p ls e x)
    ]

-- On a tree without cycles, and with fuel above the rank of the process that it starts from,
-- `print_process_tree` ends, and its lines are exactly those of the process and its descendants,
-- each at the level of the start plus the number of links between them. They stand in preorder: the
-- line of a process, then the lines of each of its children in turn, once for each time that it stands
-- in a list of children.
pub print_process_tree-Exact :
    (fuel : ℕ) (ps : List Process) (rank : ℕ → ℕ) (i level : ℕ)
    → IsAcyclic ps rank
    → rank i < fuel
    → (ls : List Line) × (print_process_tree fuel ps i level ≡ some ls)
      × Exact ps (i ∷ []) level ls
      × Preorder ps level (i ∷ []) ls
print_process_tree-Exact fuel ps rank i level acyclic lt =
    let (ls, e, x) = print_process_tree-Lines fuel ps rank i level acyclic lt in
    (ls, e, x, print_process_tree-Preorder fuel ps i level ls e)
