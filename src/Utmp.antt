-- ===== src/Utmp.antt =====
-- chapter40/utmpx.c: the tool that prints the records of the utmp and wtmp files. Here stand the data
-- and the code; the children hold the proofs.
pub mod Reports
mod Tests
use the_linux_programming_in.Prelude.Int.{ℤ, pos, negsuc, ltb_ℤ}
use the_linux_programming_in.Prelude.{
  ℕ, zero, suc, ◌+◌, ◌-◌, ◌*◌, ◌/◌, ◌%◌, ◌^◌, ◌≤◌, ◌<◌, ◌≡◌, refl, sym, ap, ◌∙◌, ◌≢◌, ◌↔◌, ◌⊎◌, inl,
  inr, Bool, true, false, ◌&&◌, ◌||◌, not, Option, none, some, List, [], ◌∷◌, ◌++◌, map,
  append_assoc, append-nil, arith, ltb, leb, ◌==◌, if◌then◌else◌, ltb→lt, lt→ltb, leb→le, ==_iff,
  Bool-cases, Option-cases, length, get_elem?, set, length-append, length-set, get_elem?-set_self,
  get_elem?-set_ne, get_or, take, drop, replicate, length-map, Bytes, bytes_eq, bytes_eq_refl,
  bytes_eq_sound, bytes_eq_ne,
}

-- `ut_type`, with the names that <utmpx.h> has for its values
pub data UtType : Type 0 where
  empty run_lvl boot_time new_time old_time init_process login_process user_process dead_process :
      UtType
  unknown : ℤ → UtType

abbrev pub is_user : UtType → Bool
is_user user_process = true
is_user _ = false

abbrev pub is_dead : UtType → Bool
is_dead dead_process = true
is_dead _ = false

abbrev pub is_boot : UtType → Bool
is_boot boot_time = true
is_boot _ = false

abbrev pub is_shown : UtType → Bool
is_shown user_process = true
is_shown dead_process = true
is_shown boot_time = true
is_shown run_lvl = true
is_shown login_process = true
is_shown _ = false

pub record Utmpx : Type 0 where
  pub ut_type : UtType
  pub ut_user : Bytes
  pub ut_line : Bytes
  pub ut_host : Bytes
  pub tv_sec : ℤ
  pub ut_pid : ℤ

-- The headings of the reports
pub data Title : Type 0 where
  records_of : Bytes → Title
  search_for : Bytes → Bytes → Title
  current_users : Title
  logins_of : Bytes → Title
  last_boot : Title

-- A line of the output, by what it shows; the layout of the columns is left out.
pub data Line : Type 0 where
  banner : Line
  title : Title → Line
  columns : Line
  entry : Utmpx → Line
  user_row : Utmpx → Line
  logged_in : Utmpx → Line
  logged_out : Utmpx → Line
  shown : ℕ → Line
  logged_in_users : ℕ → Line
  not_found : Bytes → Line
  boot_at : ℤ → Line
  no_boot : Line
  default_file : Line
  utmpxname_failed : Line

-- The files, whether `utmpxname` takes a name, and the names that the C library has for its files
pub record Utmp : Type 0 where
  pub records : Bytes → List Utmpx
  pub utmpxname : Bytes → Bool
  pub utmpx_file : Bytes
  pub wtmpx_file : Bytes

unfoldable pub display_loop : List Utmpx → ℕ → List Line
display_loop [] count = shown count ∷ []
display_loop (u ∷ us) count =
    if is_shown u.ut_type then entry u ∷ display_loop us (suc count) else display_loop us count

-- A report takes the file that the C library has open, and returns its lines and that file.
abbrev pub Report : Type 0
Report = List Line × Bytes

-- `utmpxname`, and the lines of the file if the name is taken
unfoldable pub report_on : Utmp → Title → Bytes → (List Utmpx → List Line) → Bytes → Report
report_on t heading filename lines opened =
    if t.utmpxname filename
    then (title heading ∷ lines (t.records filename), filename)
    else (title heading ∷ utmpxname_failed ∷ [], opened)

-- The source prints the names of the columns ahead of `utmpxname` here.
unfoldable pub display_utmp_file : Utmp → Bytes → Bytes → Report
display_utmp_file t filename opened =
    let heading = title (records_of filename) in
    if t.utmpxname filename
    then (heading ∷ columns ∷ display_loop (t.records filename) 0, filename)
    else (heading ∷ columns ∷ utmpxname_failed ∷ [], opened)

unfoldable pub search_loop : Bytes → List Utmpx → Bool → List Line
search_loop name [] found = if found then [] else not_found name ∷ []
search_loop name (u ∷ us) found =
    if bytes_eq u.ut_user name
    then (if found
        then entry u ∷ search_loop name us true
        else columns ∷ entry u ∷ search_loop name us true)
    else search_loop name us found

unfoldable pub search_user : Utmp → Bytes → Bytes → Bytes → Report
unfolding report_on
search_user t filename username =
    report_on t (search_for username filename) filename λ us. search_loop username us false

unfoldable pub users_loop : List Utmpx → ℕ → List Line
users_loop [] count = logged_in_users count ∷ []
users_loop (u ∷ us) count =
    if is_user u.ut_type then user_row u ∷ users_loop us (suc count) else users_loop us count

-- Reads the file that is open
unfoldable pub display_current_users : Utmp → Bytes → Report
display_current_users t opened =
    (title current_users ∷ columns ∷ users_loop (t.records opened) 0, opened)

unfoldable pub login_loop : Bytes → List Utmpx → List Line
login_loop name [] = []
login_loop name (u ∷ us) =
    let rest = login_loop name us in
    if bytes_eq u.ut_user name && (is_user u.ut_type || is_dead u.ut_type)
    then (if is_user u.ut_type then logged_in u ∷ rest else logged_out u ∷ rest)
    else rest

unfoldable pub find_login_logout : Utmp → Bytes → Bytes → Bytes → Report
unfolding report_on
find_login_logout t filename username =
    report_on t (logins_of username) filename λ us. login_loop username us

unfoldable pub boot_loop : List Utmpx → ℤ → ℤ
boot_loop [] last = last
boot_loop (u ∷ us) last =
    if is_boot u.ut_type && ltb_ℤ last u.tv_sec then boot_loop us u.tv_sec else boot_loop us last

abbrev pub boot_line : ℤ → List Line
boot_line last = if ltb_ℤ (pos 0) last then boot_at last ∷ [] else no_boot ∷ []

unfoldable pub display_last_boot : Utmp → Bytes → Bytes → Report
unfolding report_on
display_last_boot t filename = report_on t last_boot filename λ us. boot_line (boot_loop us (pos 0))

-- What `getopt` returns, with `optarg`
pub data Opt : Type 0 where
  opt_f opt_u opt_l : Bytes → Opt
  opt_c opt_b opt_h : Opt
  invalid : Opt

pub record Options : Type 0 where
  pub filename : Option Bytes
  pub username : Option Bytes
  pub login_user : Option Bytes
  pub show_current : Bool
  pub show_boot : Bool

abbrev pub no_options : Options
no_options = record {
  filename = none;
  username = none;
  login_user = none;
  show_current = false;
  show_boot = false;
}

-- The loop over the options: none where it ends in `usageError`
unfoldable pub parse_options : List Opt → Options → Option Options
parse_options [] o = some o
parse_options (opt_f name ∷ os) o = parse_options os (record o { filename = some name })
parse_options (opt_u name ∷ os) o = parse_options os (record o { username = some name })
parse_options (opt_c ∷ os) o = parse_options os (record o { show_current = true })
parse_options (opt_l name ∷ os) o = parse_options os (record o { login_user = some name })
parse_options (opt_b ∷ os) o = parse_options os (record o { show_boot = true })
parse_options (opt_h ∷ os) o = none
parse_options (invalid ∷ os) o = none

abbrev pub with_default : Options → Options
with_default o = elim o.filename [
  | some _ ↦ o
  | none ↦ elim o.username [
    | some _ ↦ o
    | none ↦ elim o.login_user [
      | some _ ↦ o
      | none ↦ if o.show_current || o.show_boot then o else record o { show_current = true }
    ]
  ]
]

-- One report after the other
abbrev pub in_turn : (Bytes → Report) → (Bytes → Report) → Bytes → Report
in_turn p q opened =
    let first = p opened in let second = q first.1 in (first.0 ++ second.0, second.1)

abbrev pub nothing : Bytes → Report
nothing opened = ([], opened)

-- A report for an option that has an argument, and `line` ahead of it
abbrev pub when_given : Option Bytes → (Bytes → Bytes → Report) → Bytes → Report
when_given none p opened = nothing opened
when_given (some name) p opened = p name opened

abbrev pub ahead : (Bytes → Report) → Bytes → Report
ahead p opened = let r = p opened in (default_file ∷ r.0, r.1)

-- The reports that the options ask for
unfoldable pub reports : Utmp → Options → Bytes → Report
reports t o =
    in_turn (λ opened. if o.show_current then display_current_users t opened else nothing opened)
      (elim o.filename [
        | some filename ↦ in_turn (display_utmp_file t filename) (
            in_turn (when_given o.username (search_user t filename)) (
              in_turn (when_given o.login_user (find_login_logout t filename)) λ opened.
                if o.show_boot then display_last_boot t filename opened else nothing opened))
        | none ↦ in_turn (when_given o.username (λ name. ahead (search_user t t.utmpx_file name))) (
            in_turn
              (when_given o.login_user (λ name. ahead (find_login_logout t t.wtmpx_file name)))
              λ opened.
                if o.show_boot
                then ahead (display_last_boot t t.wtmpx_file) opened
                else nothing opened)
      ])

-- `main`: none where it exits with a failure; the C library starts with its own utmp file.
unfoldable pub main : Utmp → List Opt → Option (List Line)
main t opts = elim (parse_options opts no_options) [
  | none ↦ none
  | some o ↦ some (banner ∷ (reports t (with_default o) t.utmpx_file).0)
]
