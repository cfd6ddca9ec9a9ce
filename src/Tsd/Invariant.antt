-- ===== src/Tsd/Invariant.antt =====
-- chapter31/tsd.c: what holds of the buffers in every state.
use the_linux_programming_in.Prelude.{
  ℕ, ◌≡◌, refl, ◌≢◌, inl, inr, Bool, true, false, Option, none, some, List, [], ◌∷◌, arith, ◌==◌,
  Bool-cases, Bytes,
}
use the_linux_programming_in.Tsd.{
  Pc, allocated, formatting, returned, ended, Printed, State, init, Step, create_key, key_there,
  malloc, set_specific, get_specific, write_part, write_all, print, end_clean, destructor,
}

-- The buffer of a thread: the one that it has as its data, or is about to
abbrev pub owned : Pc → Option ℕ → Option ℕ
owned (allocated err b rest) sp = some b
owned p sp = sp

abbrev pub own : State → ℕ → Option ℕ
own s t = owned (s.pc t) (s.specific t)

abbrev pub At : (ℕ → Bytes) → State → ℕ → Pc → Type 0
At text s t (allocated err b rest) = s.specific t ≡ none
At text s t (formatting err b rest) = s.specific t ≡ some b
At text s t (returned err b rest) = (s.specific t ≡ some b) × (s.heap b ≡ some (text err))
At text s t ended = s.specific t ≡ none
At text s t p = Unit

abbrev pub AllRight : (ℕ → Bytes) → List Printed → Type 0
AllRight text [] = Unit
AllRight text (l ∷ ls) = (l.text ≡ text l.err) × AllRight text ls

abbrev pub Keyed : State → Bool → Type 0
Keyed s true = s.keys ≡ 1
Keyed s false = s.keys ≡ 0

pub record IsValid (text : ℕ → Bytes) (s : State) : Type 0 where
  pub places : (t : ℕ) → At text s t (s.pc t)
  pub live : (t b : ℕ) → own s t ≡ some b → s.heap b ≢ none
  pub apart : (t u b : ℕ) → t ≢ u → own s t ≡ some b → own s u ≢ some b
  pub used : (b : ℕ) → s.heap b ≢ none → (t : ℕ) × (own s t ≡ some b)
  pub keyed : Keyed s s.once
  pub printed : AllRight text s.output

pub init-IsValid : (text : ℕ → Bytes) (n : ℕ) (codes : ℕ → List ℕ) → IsValid text (init n codes)
init-IsValid text n codes = record {
  places = λ t. ground arith;
  live = λ t b e. ground arith;
  apart = λ t u b ne e. ground arith;
  used = λ b h. absurd (h refl);
  keyed = refl;
  printed = tt;
}

module _ {text : ℕ → Bytes} {s : State} (v : IsValid text s) where
  Step-Keyed : {u : State} → Step text s u → Keyed u u.once
  Step-Keyed (create_key t err rest e o) = ground (arith, v.keyed)
  Step-Keyed (key_there t err rest e o) = v.keyed
  Step-Keyed (malloc t err b rest bytes e o f) = v.keyed
  Step-Keyed (set_specific t err b rest e) = v.keyed
  Step-Keyed (get_specific t err b rest e o) = v.keyed
  Step-Keyed (write_part t err b rest bytes e) = v.keyed
  Step-Keyed (write_all t err b rest e) = v.keyed
  Step-Keyed (print t err b rest bytes e o) = v.keyed
  Step-Keyed (end_clean t ne e o) = v.keyed
  Step-Keyed (destructor t b ne e o) = v.keyed

  Step-AllRight : {u : State} → Step text s u → AllRight text u.output
  Step-AllRight (create_key t err rest e o) = v.printed
  Step-AllRight (key_there t err rest e o) = v.printed
  Step-AllRight (malloc t err b rest bytes e o f) = v.printed
  Step-AllRight (set_specific t err b rest e) = v.printed
  Step-AllRight (get_specific t err b rest e o) = v.printed
  Step-AllRight (write_part t err b rest bytes e) = v.printed
  Step-AllRight (write_all t err b rest e) = v.printed
  Step-AllRight (print t err b rest bytes e o) = ground (arith, v.printed, v.places t)
  Step-AllRight (end_clean t ne e o) = v.printed
  Step-AllRight (destructor t b ne e o) = v.printed

  Step-At : {u : State} → Step text s u → (j : ℕ) → At text u j (u.pc j)
  Step-At (create_key t err rest e o) j = ground (arith, v.places j)
  Step-At (key_there t err rest e o) j = ground (arith, v.places j)
  Step-At (malloc t err b rest bytes e o f) j = ground (arith, v.places j)
  Step-At (set_specific t err b rest e) j = ground (arith, v.places j)
  Step-At (get_specific t err b rest e o) j = ground (arith, v.places j)
  Step-At (write_part t err b rest bytes e) j =
      ground (arith, v.places j, v.places t, v.apart t j b)
  Step-At (write_all t err b rest e) j = ground (arith, v.places j, v.places t, v.apart t j b)
  Step-At (print t err b rest bytes e o) j = ground (arith, v.places j)
  Step-At (end_clean t ne e o) j = ground (arith, v.places j)
  Step-At (destructor t b ne e o) j = ground (arith, v.places j, v.places t, v.apart t j b)

  Step-live : {u : State} → Step text s u → (j c : ℕ) → own u j ≡ some c → u.heap c ≢ none
  Step-live (create_key t err rest e o) j c h = ground (arith, h, v.live j c)
  Step-live (key_there t err rest e o) j c h = ground (arith, h, v.live j c)
  Step-live (malloc t err b rest bytes e o f) j c h = ground (arith, h, v.live j c)
  Step-live (set_specific t err b rest e) j c h = ground (arith, h, v.live j c)
  Step-live (get_specific t err b rest e o) j c h = ground (arith, h, v.live j c)
  Step-live (write_part t err b rest bytes e) j c h = ground (arith, h, v.live j c)
  Step-live (write_all t err b rest e) j c h = ground (arith, h, v.live j c)
  Step-live (print t err b rest bytes e o) j c h = ground (arith, h, v.live j c)
  Step-live (end_clean t ne e o) j c h = ground (arith, h, v.live j c)
  Step-live (destructor t b ne e o) j c h = ground (arith, h, v.live j c, v.apart t j b)

  Step-apart :
      {u : State} → Step text s u → (j k c : ℕ) → j ≢ k → own u j ≡ some c → own u k ≢ some c
  Step-apart (create_key t err rest e o) j k c ne h = ground (arith, h, v.apart j k c)
  Step-apart (key_there t err rest e o) j k c ne h = ground (arith, h, v.apart j k c)
  Step-apart (malloc t err b rest bytes e o f) j k c ne h =
      ground (arith, h, v.apart j k c, v.live j b, v.live k b)
  Step-apart (set_specific t err b rest e) j k c ne h = ground (arith, h, v.apart j k c)
  Step-apart (get_specific t err b rest e o) j k c ne h = ground (arith, h, v.apart j k c)
  Step-apart (write_part t err b rest bytes e) j k c ne h = ground (arith, h, v.apart j k c)
  Step-apart (write_all t err b rest e) j k c ne h = ground (arith, h, v.apart j k c)
  Step-apart (print t err b rest bytes e o) j k c ne h = ground (arith, h, v.apart j k c)
  Step-apart (end_clean t ne e o) j k c ne' h = ground (arith, h, v.apart j k c)
  Step-apart (destructor t b ne e o) j k c ne' h = ground (arith, h, v.apart j k c)

  Step-used : {u : State} → Step text s u → (c : ℕ) → u.heap c ≢ none → (j : ℕ) × (own u j ≡ some c)
  Step-used (create_key t err rest e o) c h =
      let (j, w) = v.used c (ground (arith, h)) in (j, ground arith)
  Step-used (key_there t err rest e o) c h =
      let (j, w) = v.used c (ground (arith, h)) in (j, ground arith)
  Step-used (malloc t err b rest bytes e o f) c h = elim (Bool-cases (b == c)) [
    | inl y ↦ (t, ground arith)
    | inr n ↦ let (j, w) = v.used c (ground arith) in (j, ground arith)
  ]
  Step-used (set_specific t err b rest e) c h =
      let (j, w) = v.used c (ground (arith, h)) in (j, ground arith)
  Step-used (get_specific t err b rest e o) c h =
      let (j, w) = v.used c (ground (arith, h)) in (j, ground arith)
  Step-used (write_part t err b rest bytes e) c h = elim (Bool-cases (b == c)) [
    | inl y ↦ (t, ground (arith, v.places t))
    | inr n ↦ let (j, w) = v.used c (ground arith) in (j, ground arith)
  ]
  Step-used (write_all t err b rest e) c h = elim (Bool-cases (b == c)) [
    | inl y ↦ (t, ground (arith, v.places t))
    | inr n ↦ let (j, w) = v.used c (ground arith) in (j, ground arith)
  ]
  Step-used (print t err b rest bytes e o) c h =
      let (j, w) = v.used c (ground (arith, h)) in (j, ground arith)
  Step-used (end_clean t ne e o) c h =
      let (j, w) = v.used c (ground (arith, h)) in (j, ground arith)
  Step-used (destructor t b ne e o) c h =
      let (j, w) = v.used c (ground (arith, h)) in (j, ground arith)

pub Step-IsValid :
    (text : ℕ → Bytes) (s u : State) → IsValid text s → Step text s u → IsValid text u
Step-IsValid text s u v x = record {
  places = Step-At v x;
  live = Step-live v x;
  apart = Step-apart v x;
  used = Step-used v x;
  keyed = Step-Keyed v x;
  printed = Step-AllRight v x;
}
