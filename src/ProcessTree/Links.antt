-- ===== src/ProcessTree/Links.antt =====
-- chapter12/exercise_2.c: the lists of children that `build_process_tree` makes.
use the_linux_programming_in.Prelude.{
  ℕ, zero, suc, ◌+◌, ◌≤◌, ◌<◌, ◌≡◌, refl, sym, ap, ◌∙◌, inl, inr, Bool, true, false, ◌&&◌, not,
  some, List, [], ◌∷◌, ◌++◌, append_assoc, append-nil, arith, ltb, ◌==◌, if◌then◌else◌, Bool-cases,
  Option-cases, length, get_elem?, length-append,
}
use the_linux_programming_in.Prelude.Int.{negsuc}
use the_linux_programming_in.Prelude.Atoi.{atoi}
use the_linux_programming_in.Prelude.{filterb}
use the_linux_programming_in.ProcessTree.{
  max_processes, Process, ProcFs, create_process, add_child, eq_ℤ, parent_of, link, build_from,
  build_process_tree, DirEntry, all_digits, scan_proc,
}
use mathlib.Core.Path.{ap₂}
use mathlib.Core.Path.{subst}
use mathlib.Core.Option.{some-injective}
use the_linux_programming_in.ProcessTree.Views.{
  bare, children_at, is_child, range_from, bare-add_child, parent_at-eq, parent_at-lt,
}

children_at-add_child :
    (q c p : ℕ) (ps : List Process)
    → q < length ps
    → length (children_at ps q) < max_processes
    → children_at (add_child q c ps) p
      ≡ (if q == p then children_at ps p ++ (c ∷ []) else children_at ps p)
unfolding add_child
children_at-add_child q c p [] lt room = absurd (omega arith)
children_at-add_child zero c zero (r ∷ ps) lt room = ground arith
children_at-add_child zero c (suc p) (r ∷ ps) lt room = ground arith
children_at-add_child (suc q) c zero (r ∷ ps) lt room = ground arith
children_at-add_child (suc q) c (suc p) (r ∷ ps) lt room =
    ground (arith, children_at-add_child q c p ps)

bare-link : (i : ℕ) (ps : List Process) → bare (link i ps) ≡ bare ps
unfolding link
bare-link i ps = elim (Option-cases (get_elem? ps i)) [
  | inl e ↦ ground arith
  | inr (p, e) ↦ elim (Option-cases (parent_of ps p)) [
    | inl f ↦ ground arith
    | inr (q, f) ↦ ground (arith, bare-add_child q i ps)
  ]
]

children_at-link :
    (i p : ℕ) (ps : List Process)
    → ((r : ℕ) → length (children_at ps r) < max_processes)
    → children_at (link i ps) p
      ≡ (if is_child ps p i then children_at ps p ++ (i ∷ []) else children_at ps p)
unfolding link
children_at-link i p ps room = elim (Option-cases (get_elem? ps i)) [
  | inl e ↦ ground arith
  | inr (r, e) ↦ elim (Option-cases (parent_of ps r)) [
    | inl f ↦ ground arith
    | inr (q, f) ↦
        ground (arith, children_at-add_child q i p ps (parent_at-lt ps i q (ground arith)) (room q))
  ]
]

length-children_at-link :
    (i p k : ℕ) (ps : List Process)
    → ((r : ℕ) → length (children_at ps r) < max_processes)
    → length (children_at ps p) ≤ k
    → length (children_at (link i ps) p) ≤ suc k
length-children_at-link i p k ps room h =
    ground (arith, children_at-link i p ps room, length-append (children_at ps p) (i ∷ []))

-- From round `i` on, with at most `i` children for each process so far.
build_from_lem :
    (n i p : ℕ) (ps : List Process)
    → ((r : ℕ) → length (children_at ps r) ≤ i)
    → i + n ≤ max_processes
    → (children_at (build_from n i ps) p
        ≡ children_at ps p ++ filterb (is_child ps p) (range_from i n))
      × (bare (build_from n i ps) ≡ bare ps)
unfolding build_from
build_from_lem zero i p ps few small = (sym (append-nil (children_at ps p)), refl)
build_from_lem (suc n) i p ps few small =
    let room : (r : ℕ) → length (children_at ps r) < max_processes = λ r. omega (arith, few r) in
    let (here, same) =
      build_from_lem n (suc i) p (link i ps) (λ r. length-children_at-link i r i ps room (few r))
        (omega arith) in
    (
      here
          ∙ ap₂ ◌++◌ (children_at-link i p ps room) (
              filterb_ext (is_child (link i ps) p) (is_child ps p) (range_from (suc i) n)
                (λ j. is_child-link i p j ps))
          ∙ regroup (is_child ps p i) (children_at ps p) i
              (filterb (is_child ps p) (range_from (suc i) n)),
      same ∙ bare-link i ps,
    )
  where
    is_child-link : (i p j : ℕ) (ps : List Process) → is_child (link i ps) p j ≡ is_child ps p j
    is_child-link i p j ps = ground (arith, parent_at-eq (link i ps) ps j (bare-link i ps))

    filterb_ext :
        (f g : ℕ → Bool) (xs : List ℕ) → ((j : ℕ) → f j ≡ g j) → filterb f xs ≡ filterb g xs
    filterb_ext f g [] h = refl
    filterb_ext f g (x ∷ xs) h = ground (arith, h x, filterb_ext f g xs h)

    regroup :
        (b : Bool) (xs : List ℕ) (i : ℕ) (ys : List ℕ)
        → (if b then xs ++ (i ∷ []) else xs) ++ ys ≡ xs ++ (if b then i ∷ ys else ys)
    regroup true xs i ys = append_assoc xs (i ∷ []) ys
    regroup false xs i ys = refl

-- What `main` collects: processes without children, no more than the array holds.
abbrev pub IsFresh : List Process → Type 0
IsFresh ps = (length ps ≤ max_processes) × ((i : ℕ) → children_at ps i ≡ [])

children_at-snoc :
    (ps : List Process) (q : Process) (i : ℕ)
    → ((j : ℕ) → children_at ps j ≡ [])
    → q.children ≡ []
    → children_at (ps ++ (q ∷ [])) i ≡ []
children_at-snoc [] q zero h e = e
children_at-snoc [] q (suc i) h e = refl
children_at-snoc (p ∷ ps) q zero h e = h 0
children_at-snoc (p ∷ ps) q (suc i) h e = children_at-snoc ps q i (λ j. h (suc j)) e

scan_proc-IsFresh :
    (fs : ProcFs) (es : List DirEntry) (ps : List Process) {qs : List Process}
    → IsFresh ps
    → scan_proc fs es ps ≡ some qs
    → IsFresh qs
unfolding scan_proc
scan_proc-IsFresh fs [] ps {qs} h e = subst IsFresh (some-injective _ _ e) h
scan_proc-IsFresh fs (x ∷ es) ps {qs} h e =
    let proc = create_process fs (atoi x.name) in
    elim (Bool-cases (x.is_dir && all_digits x.name && not (eq_ℤ proc.ppid (negsuc 0)))) [
      | inr skip ↦ scan_proc-IsFresh fs es ps h (ground arith)
      | inl keep ↦ elim (Bool-cases (ltb (length ps) max_processes)) [
        | inr full ↦ absurd (ground arith)
        | inl room ↦
            scan_proc-IsFresh fs es (ps ++ (proc ∷ []))
              (
                ground (arith, length-append ps (proc ∷ [])),
                λ i. children_at-snoc ps proc i h.1 refl,
              )
              (ground arith)
      ]
    ]

-- Of the processes that `main` collects, `build_process_tree` gives each the list of exactly those
-- whose `ppid` is positive and finds it first by its pid, in the order of the array; nothing else of
-- a process changes.
pub children_exact :
    (fs : ProcFs) (es : List DirEntry) (ps : List Process)
    → scan_proc fs es [] ≡ some ps
    → ((p : ℕ)
        → children_at (build_process_tree ps) p
          ≡ filterb (is_child ps p) (range_from 0 (length ps)))
      × (bare (build_process_tree ps) ≡ bare ps)
unfolding build_process_tree
children_exact fs es ps e =
    let (small, none_yet) = scan_proc-IsFresh fs es [] (omega arith, λ i. refl) e in
    (
      λ p.
          (build_from_lem (length ps) 0 p ps (λ r. ground (arith, none_yet r)) (omega arith)).0
          ∙ ap (λ xs. xs ++ filterb (is_child ps p) (range_from 0 (length ps))) (none_yet p),
      (build_from_lem (length ps) 0 0 ps (λ r. ground (arith, none_yet r)) (omega arith)).1,
    )
