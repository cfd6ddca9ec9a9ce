-- ===== src/Getlogin/Tests.antt =====
-- chapter40/getlogin.c: a user on a pseudoterminal, and one on a console.
use the_linux_programming_in.Prelude.{
  ◌≡◌, refl, true, none, some, [], ◌∷◌, arith, ltb, if◌then◌else◌, Bytes,
}
use the_linux_programming_in.Utmp.{Utmpx}
use the_linux_programming_in.Getlogin.{
  erange, name, failed, Calls, searching, matching, show_utmp_info,
}
use the_linux_programming_in.Getlogin.Terminal.{show_utmp_info_lem}
use the_linux_programming_in.Utmp.{user_process}
use the_linux_programming_in.Prelude.Int.{pos}

abbrev user : Bytes
user = b'u' ∷ []

abbrev on_pts : Utmpx
on_pts = record {
  ut_type = user_process;
  ut_user = user;
  ut_line = b'p' ∷ b't' ∷ b's' ∷ b'/' ∷ b'0' ∷ [];
  ut_host = [];
  tv_sec = pos 5;
  ut_pid = pos 9;
}

abbrev on_tty : Utmpx
on_tty = record on_pts { ut_line = b't' ∷ b't' ∷ b'y' ∷ b'1' ∷ [] }

abbrev pts_calls : Calls
pts_calls = record {
  getlogin = some user;
  errno = 0;
  getlogin_r = λ size. if ltb 4 size then name user else failed erange;
  getenv = λ v. none;
  uid = 1000;
  euid = 1000;
  getpwuid = λ u. some user;
  ttyname = some (b'/' ∷ b'd' ∷ b'/' ∷ b'p' ∷ b't' ∷ b's' ∷ b'/' ∷ b'0' ∷ []);
  isatty = true;
  utmp = on_pts ∷ [];
}

abbrev tty_calls : Calls
tty_calls = record pts_calls {
  ttyname = some (b'/' ∷ b'd' ∷ b'/' ∷ b't' ∷ b't' ∷ b'y' ∷ b'1' ∷ []);
  utmp = on_pts ∷ on_tty ∷ [];
}

show_utmp_info_lem_example :
    show_utmp_info tty_calls ≡ searching (b't' ∷ b't' ∷ b'y' ∷ b'1' ∷ []) ∷ matching on_tty ∷ []
show_utmp_info_lem_example =
    show_utmp_info_lem tty_calls (b'/' ∷ b'd' ∷ []) (b't' ∷ b't' ∷ b'y' ∷ b'1' ∷ []) refl
      (omega arith, (omega arith, (omega arith, (omega arith, tt))))
