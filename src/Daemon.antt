-- ===== src/Daemon.antt =====
-- chapter37/become_daemon.c and become_daemon.h: `becomeDaemon` turns the calling process into a daemon.
-- Here stand the data and the code; the children hold the proofs.
pub mod Laws
mod Tests
use the_linux_programming_in.Prelude.{
  ℕ, zero, suc, ◌+◌, ◌-◌, ◌*◌, ◌/◌, ◌%◌, ◌^◌, ◌≤◌, ◌<◌, ◌≡◌, refl, sym, ap, ◌∙◌, ◌≢◌, ◌↔◌, ◌⊎◌, inl,
  inr, Bool, true, false, ◌&&◌, ◌||◌, not, Option, none, some, List, [], ◌∷◌, ◌++◌, map,
  append_assoc, append-nil, arith, ltb, leb, ◌==◌, if◌then◌else◌, ltb→lt, lt→ltb, leb→le, ==_iff,
  Bool-cases, Option-cases, length, get_elem?, set, length-append, length-set, get_elem?-set_self,
  get_elem?-set_ne, get_or, take, drop, replicate, length-map, Bytes, bytes_eq, bytes_eq_refl,
  bytes_eq_sound, bytes_eq_ne,
}
use the_linux_programming_in.Prelude.{update}
use the_linux_programming_in.Prelude.Int.{ℤ, pos, negsuc}

-- What a descriptor refers to: /dev/null as `becomeDaemon` opens it, or another open file.
pub data File : Type 0 where
  dev_null : File
  other : ℕ → File

abbrev pub Table : Type 0
Table = ℕ → Option File

-- The attributes of a process that the code changes
pub record Process : Type 0 where
  pub umask : ℕ
  pub cwd : Bytes
  pub is_leader : Bool  -- of its session
  pub in_new_session : Bool
  pub table : Table

-- What fork(2) returns: -1, or a pid in the parent, or 0 in the child
pub data Fork : Type 0 where
  failed in_parent in_child : Fork

-- What the calls return. `open_null` is `open("/dev/null", O_RDWR)` on a table; none stands for -1.
pub record Kernel : Type 0 where
  pub first_fork : Fork
  pub second_fork : Fork
  pub setsid_ok : Bool
  pub chdir_ok : Bool
  pub open_max : Option ℕ
  pub open_null : Table → Option ℕ
  pub dup2_ok : ℕ → Bool

-- The calling process returns from `becomeDaemon`, or it is a parent and has left by `_exit`.
pub data Outcome : Type 0 where
  returned : ℤ → Process → Outcome
  left : Outcome

-- BD_NO_CHDIR, BD_NO_CLOSE_FILES, BD_NO_REOPEN_STD_FDS and BD_NO_UMASK0
abbrev pub bd_no_chdir : ℕ → Bool
bd_no_chdir flags = flags % 2 == 1

abbrev pub bd_no_close_files : ℕ → Bool
bd_no_close_files flags = flags / 2 % 2 == 1

abbrev pub bd_no_reopen_std_fds : ℕ → Bool
bd_no_reopen_std_fds flags = flags / 4 % 2 == 1

abbrev pub bd_no_umask0 : ℕ → Bool
bd_no_umask0 flags = flags / 8 % 2 == 1

abbrev pub bd_max_close : ℕ
bd_max_close = 8192

-- "/"
abbrev pub root : Bytes
root = b'/' ∷ []

-- The loop `for (fd = 0; fd < maxfd; fd++) close(fd);`, with `n` rounds left; a `close` of a
-- descriptor that is not open changes nothing.
unfoldable pub close_from : ℕ → ℕ → Table → Table
close_from zero fd t = t
close_from (suc n) fd t = close_from n (suc fd) (update t fd none)

abbrev pub max_fd : Kernel → ℕ
max_fd k = elim k.open_max [ none ↦ bd_max_close | some n ↦ n ]

unfoldable pub set_umask : ℕ → Process → Process
set_umask flags p = if not (bd_no_umask0 flags) then record p { umask = 0 } else p

-- The result of `chdir` is not looked at.
unfoldable pub change_dir : Kernel → ℕ → Process → Process
change_dir k flags p = if not (bd_no_chdir flags) && k.chdir_ok then record p { cwd = root } else p

unfoldable pub close_files : Kernel → ℕ → Process → Process
close_files k flags p =
    if not (bd_no_close_files flags)
    then record p { table = close_from (max_fd k) 0 p.table }
    else p

-- The last part: descriptors 0, 1 and 2 on /dev/null
unfoldable pub reopen : Kernel → ℕ → Process → Outcome
reopen k flags p =
    if not (bd_no_reopen_std_fds flags)
    then (let t = update p.table 0 none in
        elim (k.open_null t) [
          | none ↦ returned (negsuc 0) (record p { table = t })
          | some fd ↦
              let t0 = update t fd (some dev_null) in
              if not (fd == 0)
              then returned (negsuc 0) (record p { table = t0 })
              else (let t1 = update t0 1 (t0 fd) in
                  if not (k.dup2_ok 1)
                  then returned (negsuc 0) (record p { table = t0 })
                  else (if not (k.dup2_ok 2)
                      then returned (negsuc 0) (record p { table = t1 })
                      else returned (pos 0) (record p { table = update t1 2 (t1 fd) })))
        ])
    else returned (pos 0) p

-- What follows the second fork, in the child
unfoldable pub configure : Kernel → ℕ → Process → Outcome
configure k flags p = reopen k flags (close_files k flags (change_dir k flags (set_umask flags p)))

-- A child of `fork` leads no session.
unfoldable pub become_daemon : Kernel → ℕ → Process → Outcome
become_daemon k flags p = elim k.first_fork [
  | failed ↦ returned (negsuc 0) p
  | in_parent ↦ left
  | in_child ↦
      let child = record p { is_leader = false } in
      let leader = record p { is_leader = true; in_new_session = true } in
      if not k.setsid_ok then returned (negsuc 0) child else elim k.second_fork [
        | failed ↦ returned (negsuc 0) leader
        | in_parent ↦ left
        | in_child ↦ configure k flags (record leader { is_leader = false })
      ]
]
