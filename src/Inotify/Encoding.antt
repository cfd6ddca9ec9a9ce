-- ===== src/Inotify/Encoding.antt =====
-- chapter19/demo_inotify.c and exercise_1.c: the events that the kernel writes are those that are
-- read back. Here stand the bytes of an event and what one event shows.
use the_linux_programming_in.Prelude.{
  ℕ, zero, suc, ◌+◌, ◌<◌, ◌≡◌, refl, sym, ◌≢◌, inl, inr, none, some, List, [], ◌∷◌, ◌++◌,
  append_assoc, arith, ltb, if◌then◌else◌, Bool-cases, length, length-append, take, drop, replicate,
  Bytes,
}
use the_linux_programming_in.Inotify.{
  Flag, tested, Event, Layout, Shown, to_int, is_set, flags_of, c_string, display_inotify_event,
}
use the_linux_programming_in.Prelude.Int.{ℤ}
use the_linux_programming_in.Prelude.{length-replicate}
use the_linux_programming_in.Prelude.{filterb}

-- An event as the kernel writes it: the name is followed by `padding` bytes of 0.
pub record Occurred : Type 0 where
  pub wd : ℤ
  pub mask : ℕ
  pub cookie : ℕ
  pub name : Bytes
  pub padding : ℕ

abbrev pub header_of : Occurred → Event
header_of o = record {
  wd = o.wd;
  mask = o.mask;
  cookie = o.cookie;
  len = length o.name + o.padding;
}

abbrev pub encode : (Event → Bytes) → Occurred → Bytes
encode write o = write (header_of o) ++ (o.name ++ replicate o.padding 0)

abbrev pub encode_all : (Event → Bytes) → List Occurred → Bytes
encode_all write [] = []
encode_all write (o ∷ os) = encode write o ++ encode_all write os

abbrev pub NoZero : Bytes → Type 0
NoZero [] = Unit
NoZero (c ∷ cs) = (c ≢ 0) × NoZero cs

-- The kernel writes the fields that the program reads, and a name ends in a byte of 0.
pub record IsWritten (layout : Layout) (write : Event → Bytes) (o : Occurred) : Type 0 where
  pub whole : length (write (header_of o)) ≡ layout.size
  pub agreed : layout.fields (write (header_of o)) ≡ header_of o
  pub plain : NoZero o.name
  pub ended : 0 < length o.name → 0 < o.padding

abbrev pub AllWritten : Layout → (Event → Bytes) → List Occurred → Type 0
AllWritten layout write [] = Unit
AllWritten layout write (o ∷ os) = IsWritten layout write o × AllWritten layout write os

-- What is to be printed of an event
abbrev pub shown_of : Layout → Occurred → Shown
shown_of layout o = record {
  wd = o.wd;
  cookie = if ltb 0 o.cookie then some (to_int o.cookie) else none;
  flags = filterb (λ f. is_set o.mask (layout.bit f)) tested;
  name = if ltb 0 (length o.name + o.padding) then some o.name else none;
}

flags_of-filterb :
    (layout : Layout) (mask : ℕ) (fs : List Flag)
    → flags_of layout mask fs ≡ filterb (λ f. is_set mask (layout.bit f)) fs
flags_of-filterb layout mask [] = refl
flags_of-filterb layout mask (f ∷ fs) = ground (arith, flags_of-filterb layout mask fs)

pub take-append : (a b : Bytes) → take (length a) (a ++ b) ≡ a
take-append [] b = refl
take-append (x ∷ a) b = rw (take-append a b)

pub drop-append : (a b : Bytes) → drop (length a) (a ++ b) ≡ b
drop-append [] b = refl
drop-append (x ∷ a) b = drop-append a b

drop_nil : (n : ℕ) → drop {A = ℕ} n [] ≡ []
drop_nil zero = refl
drop_nil (suc n) = refl

pub drop-drop : (m n : ℕ) (xs : Bytes) → drop (m + n) xs ≡ drop n (drop m xs)
drop-drop zero n xs = ground arith
drop-drop (suc m) n [] = ground (arith, drop_nil (suc m + n), drop_nil n)
drop-drop (suc m) n (x ∷ xs) =
    let e : suc m + n ≡ suc (m + n) = omega arith in rw e (drop-drop m n xs)

c_string-name :
    (name : Bytes) (k : ℕ) (rest : Bytes)
    → NoZero name
    → 0 < k
    → c_string (name ++ (replicate k 0 ++ rest)) ≡ name
c_string-name [] zero rest h p = elim p [ ]
c_string-name [] (suc k) rest h p = refl
c_string-name (c ∷ cs) k rest (h, hs) q = ground (arith, c_string-name cs k rest hs q)

module _ (layout : Layout) (write : Event → Bytes) (o : Occurred)
    (w : IsWritten layout write o) where
  abbrev after : Bytes → Bytes
  after rest = o.name ++ (replicate o.padding 0 ++ rest)

  encode-append : (rest : Bytes) → encode write o ++ rest ≡ write (header_of o) ++ after rest
  encode-append rest = ground (
    arith,
    append_assoc (write (header_of o)) (o.name ++ replicate o.padding 0) rest,
    append_assoc o.name (replicate o.padding 0) rest,
  )

  take-encode : (rest : Bytes) → take layout.size (encode write o ++ rest) ≡ write (header_of o)
  take-encode rest =
      rw (sym w.whole, encode-append rest) (take-append (write (header_of o)) (after rest))

  drop-encode : (rest : Bytes) → drop layout.size (encode write o ++ rest) ≡ after rest
  drop-encode rest =
      rw (sym w.whole, encode-append rest) (drop-append (write (header_of o)) (after rest))

  pub length-encode : length (encode write o) ≡ layout.size + (length o.name + o.padding)
  length-encode = ground (
    arith,
    w.whole,
    length-append (write (header_of o)) (o.name ++ replicate o.padding 0),
    length-append o.name (replicate o.padding 0),
    length-replicate {A = ℕ} o.padding 0,
  )

  pub fields-encode :
      (rest : Bytes) → layout.fields (take layout.size (encode write o ++ rest)) ≡ header_of o
  fields-encode rest = rw (take-encode rest) w.agreed

  named :
      (rest : Bytes)
      → (if ltb 0 (length o.name + o.padding) then some (c_string (after rest)) else none)
        ≡ (if ltb 0 (length o.name + o.padding) then some o.name else none)
  named rest = elim (Bool-cases (ltb 0 (length o.name + o.padding))) [
    | inl h ↦ ground (arith, c_string-name o.name o.padding rest w.plain (ground (arith, w.ended)))
    | inr h ↦ ground arith
  ]

  pub display-encode :
      (rest : Bytes) → display_inotify_event layout (encode write o ++ rest) ≡ shown_of layout o
  unfolding display_inotify_event
  display-encode rest =
      rw (fields-encode rest, drop-encode rest, named rest, flags_of-filterb layout o.mask tested)
        refl
