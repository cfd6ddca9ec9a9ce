-- ===== src/UserProcesses/Search.antt =====
-- chapter12/exercise_1.c: `strstr` against the first occurrence of a text.
use the_linux_programming_in.Prelude.{
  ℕ, ◌≡◌, refl, sym, ap, ◌∙◌, ◌≢◌, inl, inr, true, false, some, [], ◌∷◌, ◌++◌, arith, Bool-cases,
  Bytes,
}
use the_linux_programming_in.UserProcesses.{is_prefix, strstr}
use mathlib.Core.Path.{subst, ap₂}

-- The text has its first occurrence of the key right before `rest`.
pub data First (key : Bytes) : Bytes → Bytes → Type 0 where
  here : {s rest : Bytes} → s ≡ key ++ rest → First key s rest
  later :
      {s rest : Bytes} (c : ℕ) (t : Bytes)
      → s ≡ c ∷ t
      → ((r : Bytes) → s ≢ key ++ r)
      → First key t rest
      → First key s rest

is_prefix_sound : (p s : Bytes) → is_prefix p s ≡ true → (r : Bytes) × (s ≡ p ++ r)
is_prefix_sound [] s h = (s, refl)
is_prefix_sound (c ∷ p) [] h = absurd (ground arith)
is_prefix_sound (c ∷ p) (d ∷ s) h =
    let (r, e) = is_prefix_sound p s (ground arith) in
    let same : d ≡ c = ground arith in (r, ap₂ ◌∷◌ same e)

is_prefix-append : (p r : Bytes) → is_prefix p (p ++ r) ≡ true
is_prefix-append [] r = refl
is_prefix-append (c ∷ p) r = ground (arith, is_prefix-append p r)

append-cancel : (p r t : Bytes) → p ++ r ≡ p ++ t → r ≡ t
append-cancel [] r t e = e
append-cancel (c ∷ p) r t e = append-cancel p r t (ground arith)

-- A text that begins with the key
strstr_at : (key s rest : Bytes) → s ≡ key ++ rest → strstr s key ≡ some s
strstr_at key [] rest e = ground (arith, is_prefix-append key rest)
strstr_at key (c ∷ s) rest e = ground (arith, is_prefix-append key rest)

-- The first occurrence is what `strstr` finds.
pub strstr-First : (key s rest : Bytes) → First key s rest → strstr s key ≡ some (key ++ rest)
strstr-First key s rest (here e) = strstr_at key s rest e ∙ ap some e
strstr-First key [] rest (later c t e ne f) = absurd (ground arith)
strstr-First key (d ∷ s) rest (later c t e ne f) =
    let same : t ≡ s = ground arith in
    let found = strstr-First key s rest (subst (λ x. First key x rest) same f) in
    elim (Bool-cases (is_prefix key (d ∷ s))) [
      | inl y ↦ let (r, g) = is_prefix_sound key (d ∷ s) y in absurd (ne r g)
      | inr y ↦ ground arith
    ]

-- What `strstr` finds is the first occurrence.
pub First-strstr :
    (key s t : Bytes)
    → strstr s key ≡ some t
    → (rest : Bytes) × (t ≡ key ++ rest) × First key s rest
First-strstr key [] t h = elim (Bool-cases (is_prefix key [])) [
  | inl y ↦
      let (r, g) = is_prefix_sound key [] y in
      let same : [] ≡ t = ground arith in (r, sym same ∙ g, here g)
  | inr y ↦ absurd (ground arith)
]
First-strstr key (c ∷ s) t h = elim (Bool-cases (is_prefix key (c ∷ s))) [
  | inl y ↦
      let (r, g) = is_prefix_sound key (c ∷ s) y in
      let same : c ∷ s ≡ t = ground arith in (r, sym same ∙ g, here g)
  | inr y ↦
      let (r, g, f) = First-strstr key s t (ground arith) in
      (r, g, later c s refl (λ x e. no_prefix x e y) f)
]
  where
    no_prefix : (x : Bytes) → c ∷ s ≡ key ++ x → is_prefix key (c ∷ s) ≢ false
    no_prefix x e y =
        let yes : is_prefix key (c ∷ s) ≡ true = ap (is_prefix key) e ∙ is_prefix-append key x in
        ground arith
