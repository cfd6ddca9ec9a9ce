-- ===== src/UserProcesses/Status.antt =====
-- chapter12/exercise_1.c: for which user a status file is taken, and with which command.
use the_linux_programming_in.Prelude.{
  ℕ, ◌≤◌, ◌≡◌, refl, sym, ap, ◌∙◌, ◌≢◌, inl, inr, true, false, some, [], ◌∷◌, ◌++◌, arith, leb,
  ◌==◌, if◌then◌else◌, ==_iff, Bool-cases, Option-cases, length, drop, Bytes,
}
use the_linux_programming_in.UserProcesses.{
  starts_with_digit, strstr, to_uid, word, inspect, Found, skipped, printed, beyond_end, name_key,
  uid_key,
}
use the_linux_programming_in.UserProcesses.Search.{First, strstr-First, First-strstr}
use mathlib.Core.Path.{subst}
use the_linux_programming_in.Prelude.Atoi.{skip_spaces, atoi}

abbrev pub IsNumeric : Bytes → Type 0
IsNumeric name = (d : ℕ) × (rest : Bytes) × (name ≡ d ∷ rest) × (b'0' ≤ d) × (d ≤ b'9')

-- The text has `Name:` and `Uid:`. The number after the byte that follows the first `Uid:`, and spaces,
-- is the user, and the word after the first `Name:`, and spaces, is the command.
abbrev pub GivesUser : ℕ → Bytes → Bytes → Type 0
GivesUser uid text command =
    (after_name : Bytes) × (after_uid : Bytes) × First name_key text after_name
    × First uid_key text after_uid
    × (after_uid ≢ [])
    × (to_uid (atoi (skip_spaces (drop 1 after_uid))) ≡ uid)
    × (command ≡ word 255 (skip_spaces after_name))

pub digit_lem : (name : Bytes) → starts_with_digit name ≡ true → IsNumeric name
digit_lem [] h = absurd (ground arith)
digit_lem (d ∷ rest) h = (d, rest, refl, ground arith, ground arith)

pub numeric_lem : (name : Bytes) → IsNumeric name → starts_with_digit name ≡ true
numeric_lem [] (d, rest, e, l, u) = absurd (ground arith)
numeric_lem (c ∷ cs) (d, rest, e, l, u) = ground arith

-- What is done for what stands after `Name:` and `Uid:`
abbrev judged : ℕ → Bytes → Bytes → Found
judged uid after_name [] = beyond_end
judged uid after_name (c ∷ s) =
    if to_uid (atoi (skip_spaces s)) == uid
    then printed (word 255 (skip_spaces after_name))
    else skipped

inspect-judged :
    (uid : ℕ) (text after_name after_uid : Bytes)
    → strstr text name_key ≡ some (name_key ++ after_name)
    → strstr text uid_key ≡ some (uid_key ++ after_uid)
    → inspect uid text ≡ judged uid after_name after_uid
unfolding inspect
inspect-judged uid text after_name [] a b = ground (arith, a, b)
inspect-judged uid text after_name (c ∷ s) a b =
    rw (inspect, a) (rw b (ap (λ t. if t then beyond_end else judged uid after_name (c ∷ s)) long))
  where
    long : leb (length (uid_key ++ c ∷ s)) 4 ≡ false
    long = ground arith

judged-cases :
    (uid : ℕ) (after_name after_uid command : Bytes)
    → judged uid after_name after_uid ≡ printed command
    → (after_uid ≢ [])
      × (to_uid (atoi (skip_spaces (drop 1 after_uid))) ≡ uid)
      × (command ≡ word 255 (skip_spaces after_name))
judged-cases uid after_name [] command h = absurd (ground arith)
judged-cases uid after_name (c ∷ s) command h =
    elim (Bool-cases (to_uid (atoi (skip_spaces s)) == uid)) [
      | inl y ↦ (λ e. absurd (ground arith), (==_iff _ uid).0 y, ground arith)
      | inr n ↦ absurd (ground arith)
    ]

pub inspect-GivesUser :
    (uid : ℕ) (text command : Bytes)
    → inspect uid text ≡ printed command
    → GivesUser uid text command
unfolding inspect
inspect-GivesUser uid text command h = elim (Option-cases (strstr text name_key)) [
  | inl a ↦ absurd (ground arith)
  | inr (name_line, a) ↦ elim (Option-cases (strstr text uid_key)) [
    | inl b ↦ absurd (ground arith)
    | inr (uid_line, b) ↦
        let (after_name, en, fn) = First-strstr name_key text name_line a in
        let (after_uid, eu, fu) = First-strstr uid_key text uid_line b in
        let same = inspect-judged uid text after_name after_uid (a ∙ ap some en) (b ∙ ap some eu) in
        let (ne, ei, ec) = judged-cases uid after_name after_uid command (sym same ∙ h) in
        (after_name, after_uid, fn, fu, ne, ei, ec)
  ]
]

pub GivesUser-inspect :
    (uid : ℕ) (text command : Bytes)
    → GivesUser uid text command
    → inspect uid text ≡ printed command
GivesUser-inspect uid text command (after_name, [], fn, fu, ne, eu, ec) = absurd (ne refl)
GivesUser-inspect uid text command (after_name, c ∷ after_uid, fn, fu, ne, eu, ec) =
    inspect-judged uid text after_name (c ∷ after_uid) (strstr-First name_key text after_name fn)
      (strstr-First uid_key text (c ∷ after_uid) fu)
    ∙ ap (λ b. if b then printed (word 255 (skip_spaces after_name)) else skipped)
        ((==_iff _ uid).1 eu)
    ∙ ap printed (sym ec)

-- The text ends with its first `Uid:`.
abbrev pub CutsOff : Bytes → Type 0
CutsOff text = (after_name : Bytes) × First name_key text after_name × First uid_key text []

judged-beyond_end :
    (uid : ℕ) (after_name after_uid : Bytes)
    → judged uid after_name after_uid ≡ beyond_end
    → after_uid ≡ []
judged-beyond_end uid after_name [] h = refl
judged-beyond_end uid after_name (c ∷ s) h = absurd (ground arith)

pub inspect-CutsOff : (uid : ℕ) (text : Bytes) → inspect uid text ≡ beyond_end → CutsOff text
unfolding inspect
inspect-CutsOff uid text h = elim (Option-cases (strstr text name_key)) [
  | inl a ↦ absurd (ground arith)
  | inr (name_line, a) ↦ elim (Option-cases (strstr text uid_key)) [
    | inl b ↦ absurd (ground arith)
    | inr (uid_line, b) ↦
        let (after_name, en, fn) = First-strstr name_key text name_line a in
        let (after_uid, eu, fu) = First-strstr uid_key text uid_line b in
        let same = inspect-judged uid text after_name after_uid (a ∙ ap some en) (b ∙ ap some eu) in
        let at_end = judged-beyond_end uid after_name after_uid (sym same ∙ h) in
        (after_name, fn, subst (First uid_key text) at_end fu)
  ]
]

pub CutsOff-inspect : (uid : ℕ) (text : Bytes) → CutsOff text → inspect uid text ≡ beyond_end
CutsOff-inspect uid text (after_name, fn, fu) =
    inspect-judged uid text after_name [] (strstr-First name_key text after_name fn)
      (strstr-First uid_key text [] fu)
