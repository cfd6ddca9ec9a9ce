-- ===== src/Utmp/Tests.antt =====
-- chapter40/utmpx.c: a file with a boot, a login, a logout and a record that is not shown.
use the_linux_programming_in.Prelude.{
  ℕ, ◌≡◌, refl, true, none, some, List, [], ◌∷◌, if◌then◌else◌, Bytes, bytes_eq,
}
use the_linux_programming_in.Prelude.Int.{pos}
use the_linux_programming_in.Utmp.{
  UtType, boot_time, new_time, user_process, dead_process, Utmpx, search_for, current_users,
  logins_of, last_boot, banner, title, columns, logged_in, logged_out, logged_in_users, boot_at,
  default_file, Utmp, report_on, search_user, users_loop, display_current_users, login_loop,
  find_login_logout, boot_loop, display_last_boot, opt_l, opt_c, opt_b, opt_h, parse_options,
  reports, main,
}
use the_linux_programming_in.Utmp.Reports.{records_with, found_lines, search_user_lem}

abbrev record_at : UtType → Bytes → ℕ → Utmpx
record_at kind name time = record {
  ut_type = kind;
  ut_user = name;
  ut_line = b't' ∷ b'1' ∷ [];
  ut_host = [];
  tv_sec = pos time;
  ut_pid = pos 9;
}

abbrev ann : Bytes
ann = b'a' ∷ b'n' ∷ b'n' ∷ []

abbrev file : List Utmpx
file =
    record_at boot_time (b'r' ∷ []) 100
    ∷ record_at user_process ann 110
    ∷ record_at new_time [] 111
    ∷ record_at dead_process ann 120
    ∷ record_at boot_time (b'r' ∷ []) 90
    ∷ []

abbrev wtmp : Bytes
wtmp = b'w' ∷ []

abbrev utmp : Utmp
utmp = record {
  records = λ name. if bytes_eq name wtmp then file else [];
  utmpxname = λ name. true;
  utmpx_file = b'u' ∷ [];
  wtmpx_file = wtmp;
}

-- Without an option the current users of the utmp file are shown; -b reads the wtmp file.
no_arguments : main utmp [] ≡ some (banner ∷ title current_users ∷ columns ∷ logged_in_users 0 ∷ [])
unfolding main parse_options reports display_current_users users_loop
no_arguments = refl

boot_option :
    main utmp (opt_b ∷ []) ≡ some (banner ∷ default_file ∷ title last_boot ∷ boot_at (pos 100) ∷ [])
unfolding main parse_options reports display_last_boot report_on boot_loop
boot_option = refl

login_option :
    main utmp (opt_l ann ∷ [])
    ≡ some (
        banner
        ∷ default_file
        ∷ title (logins_of ann)
        ∷ logged_in (record_at user_process ann 110)
        ∷ logged_out (record_at dead_process ann 120)
        ∷ [])
unfolding main parse_options reports find_login_logout report_on login_loop
login_option = refl

help_option : main utmp (opt_c ∷ opt_h ∷ []) ≡ none
unfolding main parse_options
help_option = refl

search_user_lem_example :
    search_user utmp wtmp ann []
    ≡ (title (search_for ann wtmp) ∷ found_lines ann (records_with ann file), wtmp)
search_user_lem_example = search_user_lem utmp wtmp ann [] refl
