-- ===== src/Getlogin.antt =====
-- chapter40/getlogin.c: the login name and the terminal, by several calls. Here stand the data and the
-- code; the children hold the proofs.
pub mod Laws
pub mod Terminal
mod Tests
use the_linux_programming_in.Prelude.{
  ℕ, zero, suc, ◌+◌, ◌-◌, ◌*◌, ◌/◌, ◌%◌, ◌^◌, ◌≤◌, ◌<◌, ◌≡◌, refl, sym, ap, ◌∙◌, ◌≢◌, ◌↔◌, ◌⊎◌, inl,
  inr, Bool, true, false, ◌&&◌, ◌||◌, not, Option, none, some, List, [], ◌∷◌, ◌++◌, map,
  append_assoc, append-nil, arith, ltb, leb, ◌==◌, if◌then◌else◌, ltb→lt, lt→ltb, leb→le, ==_iff,
  Bool-cases, Option-cases, length, get_elem?, set, length-append, length-set, get_elem?-set_self,
  get_elem?-set_ne, get_or, take, drop, replicate, length-map, Bytes, bytes_eq, bytes_eq_refl,
  bytes_eq_sound, bytes_eq_ne,
}
use the_linux_programming_in.Utmp.{Utmpx, is_user}
use the_linux_programming_in.Prelude.{◌>>=◌}

-- The error numbers that the code tests for
pub data Error : Type 0 where
  enotty enxio erange : Error
  other_error : ℕ → Error

-- What getlogin_r does: it stores a name, or returns an error number.
pub data Stored : Type 0 where
  name : Bytes → Stored
  failed : Error → Stored

-- What the calls return: `getlogin`, and errno after it; `getlogin_r` for a buffer of so many bytes;
-- the environment, the user IDs and the name of a user; the terminal of the standard input; and the
-- records of the utmp file, as <utmpx.h> has them
pub record Calls : Type 0 where
  pub getlogin : Option Bytes
  pub errno : ℕ
  pub getlogin_r : ℕ → Stored
  pub getenv : Bytes → Option Bytes
  pub uid : ℕ
  pub euid : ℕ
  pub getpwuid : ℕ → Option Bytes
  pub ttyname : Option Bytes
  pub isatty : Bool
  pub utmp : List Utmpx

pub data Section : Type 0 where
  terminal by_getlogin by_getlogin_r small_buffer compare utmp_info : Section

-- A line of the output, by what it shows
pub data Line : Type 0 where
  banner notes : Line
  heading : Section → Line
  login_name : Bytes → Line
  undetermined err_msg : Line
  no_terminal no_controlling_terminal buffer_too_small : Line
  buffer_size : ℕ → Line
  expected_error unexpected_success : Line
  by_call : Option Bytes → Line
  variable : Bytes → Option Bytes → Line
  real_user : ℕ → Option Bytes → Line
  effective_user : ℕ → Option Bytes → Line
  terminal_name : Bytes → Line
  no_terminal_device : Line
  is_tty : Bool → Line
  searching : Bytes → Line
  matching : Utmpx → Line
  no_match unknown_terminal : Line

unfoldable pub demonstrate_getlogin : Calls → List Line
demonstrate_getlogin k = elim k.getlogin [
  | none ↦ (if k.errno == 0 then undetermined ∷ [] else err_msg ∷ [])
  | some login ↦ login_name login ∷ []
]

unfoldable pub demonstrate_getlogin_r : Calls → List Line
demonstrate_getlogin_r k = elim (k.getlogin_r 256) [
  | name login ↦ login_name login ∷ []
  | failed enotty ↦ no_terminal ∷ []
  | failed enxio ↦ no_controlling_terminal ∷ []
  | failed erange ↦ buffer_too_small ∷ []
  | failed (other_error e) ↦ err_msg ∷ []
]

unfoldable pub demonstrate_small_buffer : Calls → List Line
demonstrate_small_buffer k = elim (k.getlogin_r 4) [
  | name login ↦ buffer_size 4 ∷ unexpected_success ∷ []
  | failed erange ↦ buffer_size 4 ∷ expected_error ∷ []
  | failed _ ↦ buffer_size 4 ∷ err_msg ∷ []
]

abbrev pub user_variable : Bytes
user_variable = b'U' ∷ b'S' ∷ b'E' ∷ b'R' ∷ []

abbrev pub logname_variable : Bytes
logname_variable = b'L' ∷ b'O' ∷ b'G' ∷ b'N' ∷ b'A' ∷ b'M' ∷ b'E' ∷ []

unfoldable pub compare_with_other_methods : Calls → List Line
compare_with_other_methods k =
    by_call k.getlogin
    ∷ variable user_variable (k.getenv user_variable)
    ∷ variable logname_variable (k.getenv logname_variable)
    ∷ real_user k.uid (k.getpwuid k.uid)
    ∷ effective_user k.euid (k.getpwuid k.euid)
    ∷ []

unfoldable pub show_current_terminal : Calls → List Line
show_current_terminal k = elim k.ttyname [
  | some tty ↦ terminal_name tty ∷ is_tty k.isatty ∷ []
  | none ↦ no_terminal_device ∷ is_tty k.isatty ∷ []
]

-- `strrchr(tty, '/')`, and one further
abbrev pub after_slash : Bytes → Option Bytes
after_slash [] = none
after_slash (c ∷ cs) = elim (after_slash cs) [
  | some rest ↦ some rest
  | none ↦ (if c == b'/' then some cs else none)
]

abbrev pub tty_base : Bytes → Bytes
tty_base tty = elim (after_slash tty) [ some base ↦ base | none ↦ tty ]

-- The loop over the records, which ends at the first that matches
unfoldable pub utmp_loop : Bytes → List Utmpx → List Line
utmp_loop base [] = no_match ∷ []
utmp_loop base (ut ∷ uts) =
    if is_user ut.ut_type && bytes_eq ut.ut_line base then matching ut ∷ [] else utmp_loop base uts

unfoldable pub show_utmp_info : Calls → List Line
show_utmp_info k = elim k.ttyname [
  | some tty ↦ searching (tty_base tty) ∷ utmp_loop (tty_base tty) k.utmp
  | none ↦ unknown_terminal ∷ []
]

-- The options, as getopt gives them; `invalid` is its '?'.
pub data Opt : Type 0 where
  opt_a opt_l opt_r opt_s opt_c opt_u opt_t opt_h invalid : Opt

pub record Flags : Type 0 where
  pub all : Bool
  pub getlogin : Bool
  pub getlogin_r : Bool
  pub small_buf : Bool
  pub compare : Bool
  pub terminal : Bool
  pub utmp : Bool

abbrev pub no_flags : Flags
no_flags = record {
  all = true;
  getlogin = false;
  getlogin_r = false;
  small_buf = false;
  compare = false;
  terminal = false;
  utmp = false;
}

-- The loop of getopt, none where the usage is printed
unfoldable pub parse_options : List Opt → Flags → Option Flags
parse_options [] f = some f
parse_options (opt_a ∷ os) f = parse_options os (record f { all = true })
parse_options (opt_l ∷ os) f = parse_options os (record f { getlogin = true; all = false })
parse_options (opt_r ∷ os) f = parse_options os (record f { getlogin_r = true; all = false })
parse_options (opt_s ∷ os) f = parse_options os (record f { small_buf = true; all = false })
parse_options (opt_c ∷ os) f = parse_options os (record f { compare = true; all = false })
parse_options (opt_t ∷ os) f = parse_options os (record f { terminal = true; all = false })
parse_options (opt_u ∷ os) f = parse_options os (record f { utmp = true; all = false })
parse_options (opt_h ∷ os) f = none
parse_options (invalid ∷ os) f = none

-- A section, with its heading, if its flag or that for all is set
abbrev pub section : Bool → Section → List Line → List Line
section shown x lines = if shown then heading x ∷ lines else []

unfoldable pub main : Calls → List Opt → Option (List Line)
main k os = do
  f ← parse_options os no_flags
  some (
      banner
      ∷ (section (f.all || f.terminal) terminal (show_current_terminal k)
          ++ (section (f.all || f.getlogin) by_getlogin (demonstrate_getlogin k)
              ++ (section (f.all || f.getlogin_r) by_getlogin_r (demonstrate_getlogin_r k)
                  ++ (section (f.all || f.small_buf) small_buffer (demonstrate_small_buffer k)
                      ++ (section (f.all || f.compare) compare (compare_with_other_methods k)
                          ++ (section (f.all || f.utmp) utmp_info (show_utmp_info k)
                              ++ (notes ∷ []))))))))
