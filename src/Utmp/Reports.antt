-- ===== src/Utmp/Reports.antt =====
-- chapter40/utmpx.c: the reports of the tool as selections from the records of the file.
use the_linux_programming_in.Prelude.{
  ℕ, suc, ◌+◌, ◌≡◌, refl, sym, ◌⊎◌, inl, inr, true, false, List, [], ◌∷◌, ◌++◌, map, arith,
  Bool-cases, length, Bytes, bytes_eq,
}
use the_linux_programming_in.Prelude.Int.{ℤ, pos, ◌≤ℤ◌, ltb_ℤ}
use the_linux_programming_in.Prelude.{Has, filterb}
use the_linux_programming_in.Utmp.{
  is_user, is_boot, is_shown, Utmpx, records_of, search_for, current_users, last_boot, Line, title,
  columns, entry, user_row, shown, logged_in_users, not_found, Utmp, display_loop, report_on,
  display_utmp_file, search_loop, search_user, users_loop, display_current_users, boot_loop,
  boot_line, display_last_boot,
}

abbrev pub shown_records : List Utmpx → List Utmpx
shown_records us = filterb (λ r. is_shown r.ut_type) us

abbrev pub users : List Utmpx → List Utmpx
users us = filterb (λ r. is_user r.ut_type) us

abbrev pub records_with : Bytes → List Utmpx → List Utmpx
records_with name us = filterb (λ r. bytes_eq r.ut_user name) us

display_loop_lem :
    (us : List Utmpx) (n : ℕ)
    → display_loop us n ≡ map entry (shown_records us) ++ shown (n + length (shown_records us)) ∷ []
unfolding display_loop
display_loop_lem [] n = ground arith
display_loop_lem (r ∷ us) n = ground (arith, display_loop_lem us n, display_loop_lem us (suc n))

users_loop_lem :
    (us : List Utmpx) (n : ℕ)
    → users_loop us n ≡ map user_row (users us) ++ logged_in_users (n + length (users us)) ∷ []
unfolding users_loop
users_loop_lem [] n = ground arith
users_loop_lem (r ∷ us) n = ground (arith, users_loop_lem us n, users_loop_lem us (suc n))

-- If utmpxname takes the file, the report on it shows exactly the records of the types that are
-- shown, in the order of the file, and their number; the report on the current users does this with
-- the records of USER_PROCESS of the file that is open. If utmpxname fails, the file that is open
-- stays.
pub display_utmp_file_lem :
    (t : Utmp) (filename opened : Bytes)
    → (t.utmpxname filename ≡ true
        → display_utmp_file t filename opened ≡ (
          title (records_of filename) ∷ columns ∷ map entry (shown_records (t.records filename))
              ++ shown (length (shown_records (t.records filename))) ∷ [],
          filename,
        ))
      × (display_current_users t opened ≡ (
        title current_users ∷ columns ∷ map user_row (users (t.records opened))
            ++ logged_in_users (length (users (t.records opened))) ∷ [],
        opened,
      ))
      × (t.utmpxname filename ≡ false → (display_utmp_file t filename opened).1 ≡ opened)
unfolding display_utmp_file display_current_users
display_utmp_file_lem t filename opened = (
  λ e. ground (arith, display_loop_lem (t.records filename) 0),
  ground (arith, users_loop_lem (t.records opened) 0),
  λ e. ground arith,
)

search_loop_found :
    (name : Bytes) (us : List Utmpx) → search_loop name us true ≡ map entry (records_with name us)
unfolding search_loop
search_loop_found name [] = refl
search_loop_found name (r ∷ us) = ground (arith, search_loop_found name us)

abbrev pub found_lines : Bytes → List Utmpx → List Line
found_lines name [] = not_found name ∷ []
found_lines name (r ∷ us) = columns ∷ entry r ∷ map entry us

search_loop_lem :
    (name : Bytes) (us : List Utmpx)
    → search_loop name us false ≡ found_lines name (records_with name us)
unfolding search_loop
search_loop_lem name [] = refl
search_loop_lem name (r ∷ us) = elim (Bool-cases (bytes_eq r.ut_user name)) [
  | inl e ↦ ground (arith, search_loop_found name us)
  | inr e ↦ ground (arith, search_loop_lem name us)
]

-- Of a file that utmpxname takes, the search shows exactly the records of the user, in the order of
-- the file, under one line with the names of the columns, or says that there are none.
pub search_user_lem :
    (t : Utmp) (filename username opened : Bytes)
    → t.utmpxname filename ≡ true
    → search_user t filename username opened ≡ (
      title (search_for username filename)
          ∷ found_lines username (records_with username (t.records filename)),
      filename,
    )
unfolding search_user report_on
search_user_lem t filename username opened e =
    ground (arith, search_loop_lem username (t.records filename))

abbrev pub boots : List Utmpx → List Utmpx
boots us = filterb (λ r. is_boot r.ut_type) us

-- A time that no record of the list is after, and that is `first` or that of a record
abbrev pub IsLatest : List Utmpx → ℤ → ℤ → Type 0
IsLatest us first n =
    (first ≤ℤ n)
    × ((r : Utmpx) → Has r us → r.tv_sec ≤ℤ n)
    × ((n ≡ first) ⊎ ((r : Utmpx) × Has r us × (r.tv_sec ≡ n)))

boot_loop-above : (us : List Utmpx) (last : ℤ) → last ≤ℤ boot_loop us last
unfolding boot_loop
boot_loop-above [] last = omega arith
boot_loop-above (x ∷ us) last = ground (arith, boot_loop-above us last, boot_loop-above us x.tv_sec)

boot_loop-max :
    (us : List Utmpx) (last : ℤ) (r : Utmpx) → Has r (boots us) → r.tv_sec ≤ℤ boot_loop us last
unfolding boot_loop
boot_loop-max [] last r has = absurd has
boot_loop-max (x ∷ us) last r has = ground (
  arith,
  boot_loop-max us last r,
  boot_loop-max us x.tv_sec r,
  boot_loop-above us last,
  boot_loop-above us x.tv_sec,
)

abbrev Reached : List Utmpx → ℤ → ℤ → Type 0
Reached us first n = (n ≡ first) ⊎ ((r : Utmpx) × Has r us × (r.tv_sec ≡ n))

step_back :
    (x : Utmpx) (us : List Utmpx) {last n : ℤ}
    → Reached (boots us) x.tv_sec n
    → Reached (x ∷ boots us) last n
step_back x us (inl h) = inr (x, inl refl, sym h)
step_back x us (inr (r, has, h)) = inr (r, inr has, h)

keep_back :
    (x : Utmpx) (us : List Utmpx) (last : ℤ) {n : ℤ}
    → Reached (boots us) last n
    → Reached (x ∷ boots us) last n
keep_back x us last (inl h) = inl h
keep_back x us last (inr (r, has, h)) = inr (r, inr has, h)

boot_loop-Reached : (us : List Utmpx) (last : ℤ) → Reached (boots us) last (boot_loop us last)
unfolding boot_loop
boot_loop-Reached [] last = inl refl
boot_loop-Reached (x ∷ us) last = elim (Bool-cases (is_boot x.ut_type)) [
  | inl e ↦ elim (Bool-cases (ltb_ℤ last x.tv_sec)) [
    | inl l ↦ rw (e, l) (step_back x us (boot_loop-Reached us x.tv_sec))
    | inr l ↦ rw (e, l) (keep_back x us last (boot_loop-Reached us last))
  ]
  | inr e ↦ rw e (boot_loop-Reached us last)
]

boot_loop-IsLatest : (us : List Utmpx) (last : ℤ) → IsLatest (boots us) last (boot_loop us last)
boot_loop-IsLatest us last =
    (boot_loop-above us last, boot_loop-max us last, boot_loop-Reached us last)

-- Of a file that utmpxname takes, the report shows the latest time of a record of BOOT_TIME if one
-- has a time above 0; otherwise it says that there is no boot.
pub display_last_boot_lem :
    (t : Utmp) (filename opened : Bytes)
    → t.utmpxname filename ≡ true
    → (n : ℤ) × IsLatest (boots (t.records filename)) (pos 0) n
      × (display_last_boot t filename opened ≡ (title last_boot ∷ boot_line n, filename))
unfolding display_last_boot report_on
display_last_boot_lem t filename opened e = (
  boot_loop (t.records filename) (pos 0),
  boot_loop-IsLatest (t.records filename) (pos 0),
  ground arith,
)
