-- ===== src/ProcessTree/Preorder.antt =====
-- chapter12/exercise_2.c: the order of the lines of `print_process_tree`.
use the_linux_programming_in.Prelude.{
  ℕ, zero, suc, ◌+◌, ◌≡◌, refl, sym, ap, ◌∙◌, inl, inr, Option, none, some, List, [], ◌∷◌, ◌++◌,
  append-nil, arith, Option-cases, get_elem?,
}
use the_linux_programming_in.ProcessTree.{Process, Line, print_all, print_process_tree}
use mathlib.Core.Path.{subst}
use mathlib.Core.Option.{some-injective}

abbrev pub line_of : ℕ → Process → Line
line_of level p = record { level = level; pid = p.pid; cmd = p.cmd }

-- The lines of processes and their descendants in preorder: for each of them its own line, then those
-- of its children one level deeper, then those of the processes after it. An index beyond the array has
-- no line.
pub data Preorder (ps : List Process) : ℕ → List ℕ → List Line → Type 0 where
  done : {level : ℕ} → Preorder ps level [] []
  visit :
      {level j : ℕ} {js : List ℕ} {below after : List Line} (p : Process)
      → get_elem? ps j ≡ some p
      → Preorder ps (level + 1) p.children below
      → Preorder ps level js after
      → Preorder ps level (j ∷ js) (line_of level p ∷ below ++ after)
  pass :
      {level j : ℕ} {js : List ℕ} {after : List Line}
      → get_elem? ps j ≡ none
      → Preorder ps level js after
      → Preorder ps level (j ∷ js) after

Preorder-append :
    (ps : List Process) (level j : ℕ) (js : List ℕ) (ls rest : List Line)
    → Preorder ps level (j ∷ []) ls
    → Preorder ps level js rest
    → Preorder ps level (j ∷ js) (ls ++ rest)
Preorder-append ps level j js _ rest (visit {below = below} p e x done) y =
    subst (λ t. Preorder ps level (j ∷ js) (line_of level p ∷ t ++ rest)) (sym (append-nil below))
      (visit p e x y)
Preorder-append ps level j js _ rest (pass e done) y = pass e y

print_all-Preorder :
    (ps : List Process) (level : ℕ) (print : ℕ → Option (List Line)) (js : List ℕ) (ls : List Line)
    → ((j : ℕ) (l : List Line) → print j ≡ some l → Preorder ps level (j ∷ []) l)
    → print_all print js ≡ some ls
    → Preorder ps level js ls
print_all-Preorder ps level print [] ls h e =
    subst (Preorder ps level []) (some-injective _ _ e) done
print_all-Preorder ps level print (j ∷ js) ls h e = elim (Option-cases (print j)) [
  | inl a ↦ absurd (ground arith)
  | inr (first, a) ↦ elim (Option-cases (print_all print js)) [
    | inl b ↦ absurd (ground arith)
    | inr (rest, b) ↦
        let same : first ++ rest ≡ ls = ground arith in
        subst (Preorder ps level (j ∷ js)) same (
          Preorder-append ps level j js first rest (h j first a)
            (print_all-Preorder ps level print js rest h b))
  ]
]

-- What `print_process_tree` gives is in preorder.
pub print_process_tree-Preorder :
    (fuel : ℕ) (ps : List Process) (i level : ℕ) (ls : List Line)
    → print_process_tree fuel ps i level ≡ some ls
    → Preorder ps level (i ∷ []) ls
unfolding print_process_tree
print_process_tree-Preorder zero ps i level ls e = absurd (ground arith)
print_process_tree-Preorder (suc fuel) ps i level ls e = elim (Option-cases (get_elem? ps i)) [
  | inl a ↦
      let same : [] ≡ ls = ground arith in subst (Preorder ps level (i ∷ [])) same (pass a done)
  | inr (p, a) ↦
      let print : ℕ → Option (List Line) = λ j. print_process_tree fuel ps j (level + 1) in
      elim (Option-cases (print_all print p.children)) [
        | inl b ↦ absurd (ground arith)
        | inr (below, b) ↦
            let whole : print_process_tree (suc fuel) ps i level ≡ some (line_of level p ∷ below) =
              rw (a, print_process_tree, b) refl in
            let same : line_of level p ∷ below ++ [] ≡ ls =
              ap (λ t. line_of level p ∷ t) (append-nil below)
              ∙ some-injective _ _ (sym whole ∙ e) in
            subst (Preorder ps level (i ∷ [])) same (
              visit p a
                (print_all-Preorder ps (level + 1) print p.children below
                  (λ j l f. print_process_tree-Preorder fuel ps j (level + 1) l f) b)
                done)
      ]
]
