-- ===== src/SparseCopy/Content.antt =====
-- chapter4/cp.c: the bytes of the output file, against those of the input file.
use the_linux_programming_in.Prelude.{
  ℕ, zero, suc, ◌+◌, ◌≤◌, ◌≡◌, refl, ap, ◌≢◌, ◌⊎◌, inl, inr, Bool, true, false, ◌&&◌, Option, none,
  some, List, [], ◌∷◌, ◌++◌, append_assoc, append-nil, arith, if◌then◌else◌, Bool-cases, length,
  length-append, drop, replicate, Bytes,
}
use the_linux_programming_in.SparseCopy.{
  Kernel, Exit, success, Out, write_at, all_zeros, copy_block, copy_loop, main,
}

-- The blocks before the end of the input file
abbrev pub blocks : List (Option Bytes) → List Bytes
blocks [] = []
blocks (none ∷ rs) = []
blocks (some [] ∷ rs) = []
blocks (some (c ∷ cs) ∷ rs) = (c ∷ cs) ∷ blocks rs

abbrev pub concat : List Bytes → Bytes
concat [] = []
concat (b ∷ bs) = b ++ concat bs

abbrev pub all_holes : List Bytes → Bool
all_holes [] = true
all_holes (b ∷ bs) = all_zeros b && all_holes bs

-- The input without the blocks of zeros at its end
abbrev pub kept : List Bytes → Bytes
kept [] = []
kept (b ∷ bs) = if all_holes (b ∷ bs) then [] else b ++ kept bs

-- A file filled up with zeros to a length
abbrev pub pad : Bytes → ℕ → Bytes
pad [] n = replicate n 0
pad (c ∷ cs) zero = c ∷ cs
pad (c ∷ cs) (suc n) = c ∷ pad cs n

drop-nil : (n : ℕ) → drop {A = ℕ} n [] ≡ []
drop-nil zero = refl
drop-nil (suc n) = refl

write_at-pad : (c : Bytes) (n : ℕ) (buf : Bytes) → length c ≤ n → write_at c n buf ≡ pad c n ++ buf
unfolding write_at
write_at-pad [] zero buf h = ground (arith, append-nil buf, drop-nil (length buf))
write_at-pad [] (suc n) buf h = ap (λ r. 0 ∷ r) (write_at-pad [] n buf (omega arith))
write_at-pad (c ∷ cs) zero buf h = absurd (omega arith)
write_at-pad (c ∷ cs) (suc n) buf h = ap (λ r. c ∷ r) (write_at-pad cs n buf (omega arith))

length-pad : (c : Bytes) (n : ℕ) → length c ≤ n → length (pad c n) ≡ n
length-pad [] zero h = refl
length-pad [] (suc n) h = ap suc (length-pad [] n (omega arith))
length-pad (c ∷ cs) zero h = absurd (omega arith)
length-pad (c ∷ cs) (suc n) h = ap suc (length-pad cs n (omega arith))

pad_self : (c : Bytes) → pad c (length c) ≡ c
pad_self [] = refl
pad_self (c ∷ cs) = ap (λ r. c ∷ r) (pad_self cs)

pad_zeros :
    (c : Bytes) (n : ℕ) (buf : Bytes)
    → length c ≤ n
    → all_zeros buf ≡ true
    → pad c (n + length buf) ≡ pad c n ++ buf
pad_zeros [] zero [] h z = refl
pad_zeros [] zero (b ∷ buf) h z = ground (arith, pad_zeros [] 0 buf)
pad_zeros [] (suc n) buf h z =
    let e : suc n + length buf ≡ suc (n + length buf) = omega arith in
    rw e (ap (λ r. 0 ∷ r) (pad_zeros [] n buf (omega arith) z))
pad_zeros (c ∷ cs) zero buf h z = absurd (omega arith)
pad_zeros (c ∷ cs) (suc n) buf h z =
    let e : suc n + length buf ≡ suc (n + length buf) = omega arith in
    rw e (ap (λ r. c ∷ r) (pad_zeros cs n buf (omega arith) z))

all_holes-kept : (bs : List Bytes) → all_holes bs ≡ true → kept bs ≡ []
all_holes-kept [] h = refl
all_holes-kept (b ∷ bs) h = rw h

-- What the loop leaves: the file as it was, if only holes follow, and else the file filled up to the
-- offset and what is kept of the rest.
abbrev pub final : Bytes → ℕ → List Bytes → Bytes
final c n bs = if all_holes bs then c else pad c n ++ kept bs

final_hole :
    (c b : Bytes) (n : ℕ) (bs : List Bytes)
    → length c ≤ n
    → all_zeros b ≡ true
    → final c (n + length b) bs ≡ final c n (b ∷ bs)
final_hole c b n bs le z = elim (Bool-cases (all_holes bs)) [
  | inl h ↦ ground arith
  | inr h ↦ ground (arith, pad_zeros c n b le z, append_assoc (pad c n) b (kept bs))
]

final_data :
    (c b : Bytes) (n : ℕ) (bs : List Bytes)
    → length c ≤ n
    → all_zeros b ≡ false
    → final (write_at c n b) (n + length b) bs ≡ final c n (b ∷ bs)
final_data c b n bs le z = elim (Bool-cases (all_holes bs)) [
  | inl h ↦ ground (arith, write_at-pad c n b le, all_holes-kept bs h, append-nil b)
  | inr h ↦ ground (
    arith,
    write_at-pad c n b le,
    length-append (pad c n) b,
    length-pad c n le,
    append_assoc (pad c n) b (kept bs),
    pad_self (pad c n ++ b),
  )
]

length-write_at :
    (c : Bytes) (n : ℕ) (buf : Bytes) → length c ≤ n → length (write_at c n buf) ≡ n + length buf
length-write_at c n buf le =
    ground (arith, write_at-pad c n buf le, length-append (pad c n) buf, length-pad c n le)

-- A round that goes on puts both offsets behind the block and leaves the same final file.
copy_block-final :
    (k : Kernel) (b : Bytes) (n : ℕ) (out : Out) (bs : List Bytes)
    → out.offset ≡ n
    → length out.content ≤ n
    → (copy_block k b (n + length b) out).0 ≡ success
    → ((copy_block k b (n + length b) out).1.offset ≡ n + length b)
      × (length (copy_block k b (n + length b) out).1.content ≤ n + length b)
      × (final (copy_block k b (n + length b) out).1.content (n + length b) bs
          ≡ final out.content n (b ∷ bs))
unfolding copy_block
copy_block-final k b n out bs e le h = elim (Bool-cases (all_zeros b)) [
  | inl z ↦ ground (arith, final_hole out.content b n bs le z)
  | inr z ↦ ground (arith, final_data out.content b n bs le z, length-write_at out.content n b le)
]

Exit-cases : (e : Exit) → (e ≡ success) ⊎ (e ≢ success)
Exit-cases success = inl refl
Exit-cases e = inr (λ h. cc)

-- The two offsets are equal before each round.
copy_loop-final :
    (k : Kernel) (rs : List (Option Bytes)) (n : ℕ) (out : Out)
    → out.offset ≡ n
    → length out.content ≤ n
    → (copy_loop k rs n out).0 ≡ success
    → (copy_loop k rs n out).1.content ≡ final out.content n (blocks rs)
unfolding copy_loop
copy_loop-final k [] n out e le h = refl
copy_loop-final k (none ∷ rs) n out e le h = cc
copy_loop-final k (some [] ∷ rs) n out e le h = refl
copy_loop-final k (some (c ∷ cs) ∷ rs) n out e le h =
    let round = copy_block k (c ∷ cs) (n + length (c ∷ cs)) out in
    elim (Exit-cases round.0) [
      | inr stop ↦ absurd (ground arith)
      | inl go ↦
          let (at, fits, same) = copy_block-final k (c ∷ cs) n out (blocks rs) e le go in
          ground (arith, same, copy_loop-final k rs (n + length (c ∷ cs)) round.1 at fits)
    ]

-- When the program reports success, the output file holds the blocks of the input file up to the
-- last one that is not all zeros, each block of zeros before that included.
pub main-kept :
    (argc : ℕ) (k : Kernel)
    → (main argc k).0 ≡ success
    → (main argc k).1.content ≡ kept (blocks k.reads)
unfolding main
main-kept argc k h =
    let empty : Out = record { content = []; offset = 0 } in
    ground
      (arith, copy_loop-final k k.reads 0 empty refl (omega arith), all_holes-kept (blocks k.reads))
