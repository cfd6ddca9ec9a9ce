-- ===== src/Acct/Compt.antt =====
-- chapter28/acct_view.c: the numbers that a comp_t stands for.
use the_linux_programming_in.Prelude.{
  ℕ, zero, suc, ◌+◌, ◌-◌, ◌*◌, ◌/◌, ◌%◌, ◌^◌, ◌≤◌, ◌<◌, ◌≡◌, refl, sym, ap, ◌∙◌, ◌⊎◌, inl, inr,
  arith, ltb, if◌then◌else◌, ltb→lt, Bool-cases,
}
use the_linux_programming_in.Acct.{compt_to_ll}
use native.Mathlib.Nat.{mul-le-mul_left, pow-succ', one-le-pow}
use mathlib.Core.Path.{subst}

power_of : (e m : ℕ) → e < 8 → m < 8192 → (m * 2 ^ (e * 3) ≡ m * 8 ^ e) × (m * 8 ^ e < 2 ^ 34)
power_of zero m le lt = (omega arith, omega arith)
power_of (suc zero) m le lt = (omega arith, omega arith)
power_of (suc (suc zero)) m le lt = (omega arith, omega arith)
power_of (suc (suc (suc zero))) m le lt = (omega arith, omega arith)
power_of (suc (suc (suc (suc zero)))) m le lt = (omega arith, omega arith)
power_of (suc (suc (suc (suc (suc zero))))) m le lt = (omega arith, omega arith)
power_of (suc (suc (suc (suc (suc (suc zero)))))) m le lt = (omega arith, omega arith)
power_of (suc (suc (suc (suc (suc (suc (suc zero))))))) m le lt = (omega arith, omega arith)
power_of (suc (suc (suc (suc (suc (suc (suc (suc e)))))))) m le lt = absurd (omega arith)

-- A number of three bits and one of 13 bits are put together, and taken apart.
exponent_of :
    (e m : ℕ) → e < 8 → m < 8192 → ((e * 8192 + m) / 8192 % 8 ≡ e) × ((e * 8192 + m) % 8192 ≡ m)
exponent_of e m le lt = (omega arith, omega arith)

pub compt_to_ll_at : (e m : ℕ) → e < 8 → m < 8192 → compt_to_ll (e * 8192 + m) ≡ m * 8 ^ e
unfolding compt_to_ll
compt_to_ll_at e m le lt =
    let (a, b) = exponent_of e m le lt in
    let (c, d) = power_of e m le lt in
    let value : m * 2 ^ (e * 3) % 2 ^ 64 ≡ m * 8 ^ e = omega arith in
    ap (λ x. (e * 8192 + m) % 8192 * 2 ^ (x * 3) % 2 ^ 64) a
    ∙ ap (λ x. x * 2 ^ (e * 3) % 2 ^ 64) b
    ∙ value

compt_parts :
    (c : ℕ)
    → c < 2 ^ 16
    → (compt_to_ll c ≡ c % 2 ^ 13 * 8 ^ (c / 2 ^ 13)) × (compt_to_ll c < 2 ^ 34)
compt_parts c lt =
    let e = c / 8192 in
    let m = c % 8192 in
    let same : c ≡ e * 8192 + m = omega arith in
    let at = compt_to_ll_at e m (omega arith) (omega arith) in
    let (a, b) = power_of e m (omega arith) (omega arith) in
    let value : compt_to_ll c ≡ m * 8 ^ e = ap compt_to_ll same ∙ at in (value, omega arith)

-- A comp_t of 16 bits stands for its lower 13 bits times 8 to the power of its upper three, without an
-- overflow of long long, and the sum of two has none either.
pub compt_to_ll_exact :
    (c d : ℕ)
    → c < 2 ^ 16
    → d < 2 ^ 16
    → (compt_to_ll c ≡ c % 2 ^ 13 * 8 ^ (c / 2 ^ 13)) × (compt_to_ll c + compt_to_ll d < 2 ^ 63)
compt_to_ll_exact c d lc ld =
    let (a, b) = compt_parts c lc in let (a', b') = compt_parts d ld in (a, omega arith)

-- The comp_t for a number: it is divided by 8 until it fits 13 bits.
abbrev pub comp_of : ℕ → ℕ → ℕ → ℕ
comp_of zero e m = e * 8192 + m
comp_of (suc k) e m =
    let more = comp_of k (suc e) (m / 8) in if ltb m 8192 then e * 8192 + m else more

-- What divisions of n by 8, e times, have left
abbrev Scaled : ℕ → ℕ → ℕ → Type 0
Scaled n e m = (m * 8 ^ e ≤ n) × (n < (m + 1) * 8 ^ e) × (e ≡ 0 ⊎ 1024 ≤ m)

scaled_down :
    (n p m : ℕ) → m * p ≤ n → n < (m + 1) * p → (m / 8 * (8 * p) ≤ n) × (n < (m / 8 + 1) * (8 * p))
scaled_down n p m low high =
    let below : p * (m / 8 * 8) ≤ p * m = mul-le-mul_left p (omega arith) in
    let above : p * (m + 1) ≤ p * ((m / 8 + 1) * 8) = mul-le-mul_left p (omega arith) in
    (omega arith, omega arith)

Scaled-next : (n e m : ℕ) → 8192 ≤ m → Scaled n e m → Scaled n (suc e) (m / 8)
Scaled-next n e m big (low, high, far) =
    let (a, b) = scaled_down n (8 ^ e) m low high in
    let step : 8 ^ suc e ≡ 8 * 8 ^ e = pow-succ' 8 e in
    (
      subst (λ p. m / 8 * p ≤ n) (sym step) a,
      subst (λ p. n < (m / 8 + 1) * p) (sym step) b,
      inr (omega arith),
    )

-- A number between m * p and (m + 1) * p, for a large m
near :
    (n p m : ℕ) → m * p ≤ n → n < (m + 1) * p → 1024 ≤ m → (1024 * (n - m * p) ≤ n) × (1024 * p ≤ n)
near n p m low high far =
    let large : p * 1024 ≤ p * m = mul-le-mul_left p far in (omega arith, omega arith)

Scaled-close :
    (n e m : ℕ) → Scaled n e m → (1024 * (n - m * 8 ^ e) ≤ n) × (n < 8192 → n ≡ m * 8 ^ e)
Scaled-close n zero m (low, high, far) = (omega arith, λ l. omega arith)
Scaled-close n (suc e) m (low, high, inl z) = absurd (omega arith)
Scaled-close n (suc e) m (low, high, inr far) =
    let (a, b) = near n (8 ^ suc e) m low high far in
    let step : 8 ^ suc e ≡ 8 * 8 ^ e = pow-succ' 8 e in
    (a, λ l. absurd (omega (arith, one-le-pow e 8 (omega arith))))

comp_of-Scaled :
    (k e n m : ℕ)
    → e + k ≡ 7
    → n < 8192 * 8 ^ 7
    → Scaled n e m
    → (i : ℕ) × (r : ℕ) × (comp_of k e m ≡ i * 8192 + r) × (i < 8) × (r < 8192) × Scaled n i r
comp_of-Scaled zero e n m eq lt v =
    let seven : e ≡ 7 = omega arith in
    let low : m * 8 ^ 7 ≤ n = subst (λ x. m * 8 ^ x ≤ n) seven v.0 in
    (e, m, refl, omega arith, omega arith, v)
comp_of-Scaled (suc k) e n m eq lt v = elim (Bool-cases (ltb m 8192)) [
  | inl l ↦ (e, m, rw l refl, omega arith, ltb→lt m 8192 l, v)
  | inr l ↦
      let (i, r, same, a, b, w) =
        comp_of-Scaled k (suc e) n (m / 8) (omega arith) lt (Scaled-next n e m (ground arith) v) in
      (i, r, rw l same, a, b, w)
]

-- Each number below 2 ^ 34 has a comp_t of 16 bits, found by divisions by 8, that comptToLL takes to it
-- if the number is below 8192, and else to a number that is below it by one part in 1024 at most.
pub compt_to_ll-comp_of :
    (n : ℕ)
    → n < 2 ^ 34
    → (comp_of 7 0 n < 2 ^ 16)
      × (n < 8192 → compt_to_ll (comp_of 7 0 n) ≡ n)
      × (compt_to_ll (comp_of 7 0 n) ≤ n)
      × (1024 * (n - compt_to_ll (comp_of 7 0 n)) ≤ n)
compt_to_ll-comp_of n lt =
    let start : Scaled n 0 n = (omega arith, omega arith, inl refl) in
    let (e, m, same, a, b, v) = comp_of-Scaled 7 0 n n (omega arith) lt start in
    let value : compt_to_ll (comp_of 7 0 n) ≡ m * 8 ^ e =
      ap compt_to_ll same ∙ compt_to_ll_at e m a b in
    let (close, small) = Scaled-close n e m v in
    (
      omega arith,
      λ l. value ∙ sym (small l),
      omega (arith, v.0),
      subst (λ x. 1024 * (n - x) ≤ n) (sym value) close,
    )
