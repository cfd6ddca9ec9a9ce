-- ===== src/SparseCopy/Holes.antt =====
-- chapter4/cp.c: holes at the end of a file, and runs whose calls succeed.
use native.Mathlib.Nat.{zero-add}
use the_linux_programming_in.Prelude.{
  ℕ, zero, suc, ◌+◌, ◌<◌, ◌≡◌, refl, sym, ap, ◌∙◌, inl, inr, Bool, true, false, ◌&&◌, Option, none,
  some, List, [], ◌∷◌, ◌++◌, append_assoc, append-nil, arith, Bool-cases, length, length-append,
  replicate, Bytes,
}
use the_linux_programming_in.SparseCopy.{
  Kernel, success, Out, all_zeros, copy_block, copy_loop, main,
}
use the_linux_programming_in.SparseCopy.Content.{blocks, concat, all_holes, kept, main-kept}

zeros-replicate : (b : Bytes) → all_zeros b ≡ true → b ≡ replicate (length b) 0
zeros-replicate [] z = refl
zeros-replicate (c ∷ b) z = ground (arith, zeros-replicate b)

replicate-append : (m n : ℕ) → replicate {A = ℕ} m 0 ++ replicate n 0 ≡ replicate (m + n) 0
replicate-append zero n = rw zero-add
replicate-append (suc m) n =
    let e : suc m + n ≡ suc (m + n) = omega arith in rw e (ap (λ r. 0 ∷ r) (replicate-append m n))

holes-replicate :
    (bs : List Bytes) → all_holes bs ≡ true → concat bs ≡ replicate (length (concat bs)) 0
holes-replicate [] h = refl
holes-replicate (b ∷ bs) h = ground (
  arith,
  zeros-replicate b,
  holes-replicate bs,
  replicate-append (length b) (length (concat bs)),
  length-append b (concat bs),
)

kept-concat : (bs : List Bytes) → (n : ℕ) × (kept bs ++ replicate n 0 ≡ concat bs)
kept-concat [] = (0, refl)
kept-concat (b ∷ bs) = elim (Bool-cases (all_holes (b ∷ bs))) [
  | inl h ↦ (length (concat (b ∷ bs)), rw h (sym (holes-replicate (b ∷ bs) h)))
  | inr h ↦
      let (n, e) = kept-concat bs in
      (n, rw h (append_assoc b (kept bs) (replicate n 0) ∙ ap (λ r. b ++ r) e))
]

-- When the program reports success, the output file is the input file but for zeros at the end.
pub main-concat :
    (argc : ℕ) (k : Kernel)
    → (main argc k).0 ≡ success
    → (n : ℕ) × ((main argc k).1.content ++ replicate n 0 ≡ concat (blocks k.reads))
main-concat argc k h =
    let (n, e) = kept-concat (blocks k.reads) in
    (n, ap (λ r. r ++ replicate n 0) (main-kept argc k h) ∙ e)

kept_cut :
    (bs : List Bytes) (b : Bytes)
    → all_zeros b ≡ true
    → 0 < length b
    → length (kept (bs ++ (b ∷ []))) < length (concat (bs ++ (b ∷ [])))
kept_cut [] b z p = ground (arith, append-nil b)
kept_cut (a ∷ bs) b z p = ground (
  arith,
  kept_cut bs b z p,
  length-append a (kept (bs ++ (b ∷ []))),
  length-append a (concat (bs ++ (b ∷ []))),
)

-- If the last block that is read is not empty and all zeros, a run that reports success leaves an
-- output file that is shorter than the input file.
pub main_cut :
    (argc : ℕ) (k : Kernel) (bs : List Bytes) (b : Bytes)
    → (main argc k).0 ≡ success
    → blocks k.reads ≡ bs ++ (b ∷ [])
    → all_zeros b ≡ true
    → 0 < length b
    → length (main argc k).1.content < length (concat (blocks k.reads))
main_cut argc k bs b h e z p = rw (main-kept argc k h, e) (kept_cut bs b z p)

-- No read fails.
abbrev pub all_read : List (Option Bytes) → Bool
all_read [] = true
all_read (none ∷ rs) = false
all_read (some b ∷ rs) = all_read rs

-- Every call succeeds, and every write takes all of its bytes.
pub record Succeeds (k : Kernel) : Type 0 where
  pub opened : (k.open_in_ok && k.fstat_ok && k.open_out_ok) ≡ true
  pub all_told : (n : ℕ) → k.tell_ok n ≡ true
  pub all_sought : (n : ℕ) → k.seek_ok n ≡ true
  pub all_written : (n : ℕ) (b : Bytes) → k.accepts n b ≡ some (length b)
  pub no_error : all_read k.reads ≡ true
  pub closed : (k.close_in_ok && k.close_out_ok) ≡ true

copy_block-Succeeds :
    (k : Kernel) (b : Bytes) (n : ℕ) (out : Out) → Succeeds k → (copy_block k b n out).0 ≡ success
unfolding copy_block
copy_block-Succeeds k b n out s =
    ground (arith, s.all_told n, s.all_sought n, s.all_written out.offset b)

copy_loop-Succeeds :
    (k : Kernel) (rs : List (Option Bytes)) (n : ℕ) (out : Out)
    → Succeeds k
    → all_read rs ≡ true
    → (copy_loop k rs n out).0 ≡ success
unfolding copy_loop
copy_loop-Succeeds k [] n out s h = refl
copy_loop-Succeeds k (none ∷ rs) n out s h = cc
copy_loop-Succeeds k (some [] ∷ rs) n out s h = refl
copy_loop-Succeeds k (some (c ∷ cs) ∷ rs) n out s h =
    let round = copy_block k (c ∷ cs) (n + length (c ∷ cs)) out in
    ground (
      arith,
      copy_block-Succeeds k (c ∷ cs) (n + length (c ∷ cs)) out s,
      copy_loop-Succeeds k rs (n + length (c ∷ cs)) round.1 s h,
    )

-- With two file names, and calls that all succeed, the program reports success.
pub cp-Succeeds : (k : Kernel) → Succeeds k → (main 3 k).0 ≡ success
unfolding main
cp-Succeeds k s = ground (
  arith,
  s.opened,
  s.closed,
  copy_loop-Succeeds k k.reads 0 (record { content = []; offset = 0 }) s s.no_error,
)
