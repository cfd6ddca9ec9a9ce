-- ===== src/Getlogin/Laws.antt =====
-- chapter40/getlogin.c: which sections the options choose.
use the_linux_programming_in.Prelude.{
  ◌≡◌, refl, ap, inl, inr, Bool, true, false, ◌||◌, none, some, List, [], ◌∷◌, ◌++◌, arith,
  if◌then◌else◌, Bool-cases,
}
use the_linux_programming_in.Getlogin.{
  Calls, Section, terminal, by_getlogin, by_getlogin_r, small_buffer, compare, utmp_info, Line,
  banner, notes, heading, demonstrate_getlogin, demonstrate_getlogin_r, demonstrate_small_buffer,
  compare_with_other_methods, show_current_terminal, show_utmp_info, Opt, opt_a, opt_l, opt_r,
  opt_s, opt_c, opt_u, opt_t, opt_h, invalid, Flags, no_flags, parse_options, section, main,
}
use the_linux_programming_in.Prelude.{filterb}

-- Whether an option asks for a section, and for help or nothing that there is
abbrev pub asks : Section → Opt → Bool
asks terminal opt_t = true
asks by_getlogin opt_l = true
asks by_getlogin_r opt_r = true
asks small_buffer opt_s = true
asks compare opt_c = true
asks utmp_info opt_u = true
asks x o = false

abbrev pub asked : Section → List Opt → Bool
asked x [] = false
asked x (o ∷ os) = asks x o || asked x os

abbrev pub is_a : Opt → Bool
is_a opt_a = true
is_a o = false

-- Whether the last of the options is -a, and what it is without options
abbrev pub last_is_a : Bool → List Opt → Bool
last_is_a b [] = b
last_is_a b (o ∷ os) = last_is_a (is_a o) os

abbrev pub allowed : List Opt → Bool
allowed [] = true
allowed (opt_h ∷ os) = false
allowed (invalid ∷ os) = false
allowed (o ∷ os) = allowed os

parse_options_lem :
    (os : List Opt) (f : Flags)
    → parse_options os f ≡ (
        if allowed os
        then some (record {
          all = last_is_a f.all os;
          getlogin = f.getlogin || asked by_getlogin os;
          getlogin_r = f.getlogin_r || asked by_getlogin_r os;
          small_buf = f.small_buf || asked small_buffer os;
          compare = f.compare || asked compare os;
          terminal = f.terminal || asked terminal os;
          utmp = f.utmp || asked utmp_info os;
        })
        else none)
unfolding parse_options
parse_options_lem [] f = ground arith
parse_options_lem (opt_a ∷ os) f = ground (arith, parse_options_lem os (record f { all = true }))
parse_options_lem (opt_l ∷ os) f =
    ground (arith, parse_options_lem os (record f { getlogin = true; all = false }))
parse_options_lem (opt_r ∷ os) f =
    ground (arith, parse_options_lem os (record f { getlogin_r = true; all = false }))
parse_options_lem (opt_s ∷ os) f =
    ground (arith, parse_options_lem os (record f { small_buf = true; all = false }))
parse_options_lem (opt_c ∷ os) f =
    ground (arith, parse_options_lem os (record f { compare = true; all = false }))
parse_options_lem (opt_t ∷ os) f =
    ground (arith, parse_options_lem os (record f { terminal = true; all = false }))
parse_options_lem (opt_u ∷ os) f =
    ground (arith, parse_options_lem os (record f { utmp = true; all = false }))
parse_options_lem (opt_h ∷ os) f = refl
parse_options_lem (invalid ∷ os) f = refl

abbrev pub sections : List Section
sections = terminal ∷ by_getlogin ∷ by_getlogin_r ∷ small_buffer ∷ compare ∷ utmp_info ∷ []

-- The lines of a section
abbrev pub lines_of : Calls → Section → List Line
lines_of k terminal = show_current_terminal k
lines_of k by_getlogin = demonstrate_getlogin k
lines_of k by_getlogin_r = demonstrate_getlogin_r k
lines_of k small_buffer = demonstrate_small_buffer k
lines_of k compare = compare_with_other_methods k
lines_of k utmp_info = show_utmp_info k

abbrev pub chosen : List Opt → Section → Bool
chosen os x = last_is_a true os || asked x os

abbrev pub printed_of : Calls → List Section → List Line
printed_of k [] = notes ∷ []
printed_of k (x ∷ xs) = heading x ∷ (lines_of k x ++ printed_of k xs)

filterb-section :
    (k : Calls) (p : Section → Bool) (x : Section) (xs : List Section) (rest : List Line)
    → rest ≡ printed_of k (filterb p xs)
    → section (p x) x (lines_of k x) ++ rest ≡ printed_of k (filterb p (x ∷ xs))
filterb-section k p x xs rest e = ground (arith, e)

all_sections :
    (k : Calls) (os : List Opt)
    → section (chosen os terminal) terminal (show_current_terminal k)
        ++ (section (chosen os by_getlogin) by_getlogin (demonstrate_getlogin k)
            ++ (section (chosen os by_getlogin_r) by_getlogin_r (demonstrate_getlogin_r k)
                ++ (section (chosen os small_buffer) small_buffer (demonstrate_small_buffer k)
                    ++ (section (chosen os compare) compare (compare_with_other_methods k)
                        ++ (section (chosen os utmp_info) utmp_info (show_utmp_info k)
                            ++ (notes ∷ []))))))
      ≡ printed_of k (filterb (chosen os) sections)
all_sections k os =
    let p = chosen os in
    let add = filterb-section k p in
    add terminal (by_getlogin ∷ by_getlogin_r ∷ small_buffer ∷ compare ∷ utmp_info ∷ []) _ (
      add by_getlogin (by_getlogin_r ∷ small_buffer ∷ compare ∷ utmp_info ∷ []) _ (
        add by_getlogin_r (small_buffer ∷ compare ∷ utmp_info ∷ []) _ (
          add small_buffer (compare ∷ utmp_info ∷ []) _
            (add compare (utmp_info ∷ []) _ (add utmp_info [] _ refl)))))

-- With -h or an option that there is not, the program prints its usage; otherwise it prints, in their
-- order, exactly the sections that an option asks for, or all of them if the last option is -a or there
-- is none.
pub main-chosen :
    (k : Calls) (os : List Opt)
    → main k os
      ≡ (if allowed os then some (banner ∷ printed_of k (filterb (chosen os) sections)) else none)
unfolding main
main-chosen k os = elim (Bool-cases (allowed os)) [
  | inl h ↦
      rw (parse_options_lem os no_flags, h) (ap (λ ls. some (banner ∷ ls)) (all_sections k os))
  | inr h ↦ rw (parse_options_lem os no_flags, h) refl
]
