-- ===== src/Getlogin/Terminal.antt =====
-- chapter40/getlogin.c: which record of the utmp file is shown for the terminal.
use the_linux_programming_in.Prelude.{
  ◌≡◌, refl, ap, ◌∙◌, ◌≢◌, inl, inr, ◌&&◌, none, some, List, [], ◌∷◌, ◌++◌, arith, Option-cases,
  Bytes, bytes_eq, bytes_eq_sound,
}
use the_linux_programming_in.Utmp.{Utmpx, is_user}
use the_linux_programming_in.Getlogin.{
  Calls, Line, searching, matching, no_match, after_slash, tty_base, utmp_loop, show_utmp_info,
}
use the_linux_programming_in.Prelude.{filterb}

abbrev pub NoSlash : Bytes → Type 0
NoSlash [] = Unit
NoSlash (c ∷ cs) = (c ≢ b'/') × NoSlash cs

after_slash-none : (tty : Bytes) → after_slash tty ≡ none → NoSlash tty
after_slash-none [] e = tt
after_slash-none (c ∷ cs) e = elim (Option-cases (after_slash cs)) [
  | inl n ↦ (ground arith, after_slash-none cs n)
  | inr (rest, f) ↦ absurd (ground arith)
]

after_slash-some : (tty base : Bytes) → after_slash tty ≡ some base → NoSlash base
after_slash-some [] base e = absurd (ground arith)
after_slash-some (c ∷ cs) base e = elim (Option-cases (after_slash cs)) [
  | inl n ↦ ground (arith, after_slash-none cs n)
  | inr (rest, f) ↦ after_slash-some cs base (ground arith)
]

tty_base-NoSlash : (tty : Bytes) → NoSlash (tty_base tty)
tty_base-NoSlash tty = elim (Option-cases (after_slash tty)) [
  | inl n ↦ ground (arith, after_slash-none tty n)
  | inr (base, f) ↦ ground (arith, after_slash-some tty base f)
]

-- The report on the first of the records that match
abbrev pub first_match : List Utmpx → List Line
first_match [] = no_match ∷ []
first_match (u ∷ us) = matching u ∷ []

utmp_loop-filterb :
    (base : Bytes) (us : List Utmpx)
    → utmp_loop base us
      ≡ first_match (filterb (λ u. is_user u.ut_type && bytes_eq u.ut_line base) us)
unfolding utmp_loop
utmp_loop-filterb base [] = refl
utmp_loop-filterb base (u ∷ us) = ground (arith, utmp_loop-filterb base us)

NoSlash-after_slash : (base : Bytes) → NoSlash base → after_slash base ≡ none
NoSlash-after_slash [] h = refl
NoSlash-after_slash (c ∷ cs) (h, hs) = ground (arith, NoSlash-after_slash cs hs)

after_slash-append :
    (dir base : Bytes) → NoSlash base → after_slash (dir ++ (b'/' ∷ base)) ≡ some base
after_slash-append [] base h = ground (arith, NoSlash-after_slash base h)
after_slash-append (c ∷ cs) base h = ground (arith, after_slash-append cs base h)

-- If the standard input has a terminal whose name is `base` after its last slash, the report on the
-- utmp file shows the first record of USER_PROCESS whose line is `base`, or says that there is none.
pub show_utmp_info_lem :
    (k : Calls) (dir base : Bytes)
    → k.ttyname ≡ some (dir ++ (b'/' ∷ base))
    → NoSlash base
    → show_utmp_info k
      ≡ searching base
        ∷ first_match (filterb (λ u. is_user u.ut_type && bytes_eq u.ut_line base) k.utmp)
unfolding show_utmp_info
show_utmp_info_lem k dir base e h =
    let b : tty_base (dir ++ (b'/' ∷ base)) ≡ base =
      ground (arith, after_slash-append dir base h) in
    rw e (
      ap (λ q. searching q ∷ utmp_loop q k.utmp) b
      ∙ ap (λ ls. searching base ∷ ls) (utmp_loop-filterb base k.utmp))

-- Every line of a record has a slash in it, as those of pseudoterminals have.
abbrev pub AllSlashed : List Utmpx → Type 0
AllSlashed [] = Unit
AllSlashed (u ∷ us) = ¬ NoSlash u.ut_line × AllSlashed us

utmp_loop-AllSlashed :
    (base : Bytes) (us : List Utmpx)
    → NoSlash base
    → AllSlashed us
    → utmp_loop base us ≡ no_match ∷ []
unfolding utmp_loop
utmp_loop-AllSlashed base [] h a = refl
utmp_loop-AllSlashed base (u ∷ us) h (n, a) =
    ground (arith, bytes_eq_sound u.ut_line base, utmp_loop-AllSlashed base us h a)

-- If every record of the utmp file has a slash in its line, as `pts/0` has, the report finds no record
-- for any terminal.
pub pts_not_found :
    (k : Calls) (tty : Bytes)
    → k.ttyname ≡ some tty
    → AllSlashed k.utmp
    → show_utmp_info k ≡ searching (tty_base tty) ∷ no_match ∷ []
unfolding show_utmp_info
pts_not_found k tty e a = rw e (
    ap (λ ls. searching (tty_base tty) ∷ ls)
      (utmp_loop-AllSlashed (tty_base tty) k.utmp (tty_base-NoSlash tty) a))
