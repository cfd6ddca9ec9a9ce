-- ===== src/Daemon/Tests.antt =====
-- chapter37/become_daemon.c: runs, and the theorems at a process with four open descriptors.
use the_linux_programming_in.Prelude.{
  ℕ, ◌≡◌, refl, true, false, Option, none, some, [], ◌∷◌, ltb, if◌then◌else◌,
}
use the_linux_programming_in.Prelude.Int.{pos, negsuc}
use the_linux_programming_in.Daemon.{
  File, other, Process, failed, in_child, Kernel, returned, set_umask, change_dir, close_files,
  reopen, configure, become_daemon,
}
use the_linux_programming_in.Daemon.Laws.{daemon_table, become_daemon_lem}

abbrev shell : Process
shell = record {
  umask = 18;
  cwd = b'/' ∷ b'h' ∷ [];
  is_leader = true;
  in_new_session = false;
  table = λ j. if ltb j 4 then some (other j) else none;
}

-- Descriptor 0 if it is free, else 4: enough for the tables of `shell`.
abbrev free_of : Option File → Option ℕ
free_of none = some 0
free_of (some f) = none

abbrev kernel : Kernel
kernel = record {
  first_fork = in_child;
  second_fork = in_child;
  setsid_ok = true;
  chdir_ok = true;
  open_max = some 16;
  open_null = λ t. free_of (t 0);
  dup2_ok = λ n. true;
}

-- With all four flags nothing but the session changes.
all_flags :
    become_daemon kernel 15 shell
    ≡ returned (pos 0) (record shell { is_leader = false; in_new_session = true })
unfolding become_daemon configure reopen close_files change_dir set_umask
all_flags = refl

no_fork : become_daemon (record kernel { first_fork = failed }) 0 shell ≡ returned (negsuc 0) shell
unfolding become_daemon
no_fork = refl

abbrev bare : Process
bare = record shell { is_leader = false; in_new_session = true }

become_daemon_lem_example :
    (bare.in_new_session ≡ true)
    × (bare.is_leader ≡ false)
    × (bare.umask ≡ 18)
    × (bare.cwd ≡ b'/' ∷ b'h' ∷ [])
    × ((j : ℕ) → bare.table j ≡ daemon_table kernel 15 shell.table j)
become_daemon_lem_example = become_daemon_lem kernel 15 shell bare all_flags
