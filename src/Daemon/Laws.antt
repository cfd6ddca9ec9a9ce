-- ===== src/Daemon/Laws.antt =====
-- chapter37/become_daemon.c: the attributes of a process for which `becomeDaemon` returns 0.
use the_linux_programming_in.Prelude.{
  ℕ, zero, suc, ◌+◌, ◌<◌, ◌≡◌, refl, ◌∙◌, ◌≢◌, inl, inr, true, false, ◌&&◌, not, none, some, arith,
  ltb, leb, ◌==◌, if◌then◌else◌, Bool-cases, Option-cases,
}
use the_linux_programming_in.Prelude.{update}
use the_linux_programming_in.Prelude.Int.{pos}
use the_linux_programming_in.Daemon.{
  dev_null, Table, Process, in_child, Kernel, returned, bd_no_chdir, bd_no_close_files,
  bd_no_reopen_std_fds, bd_no_umask0, root, close_from, max_fd, set_umask, change_dir, close_files,
  reopen, configure, become_daemon,
}

close_from_lem :
    (n fd j : ℕ) (t : Table)
    → close_from n fd t j ≡ (if leb fd j && ltb j (fd + n) then none else t j)
unfolding close_from
close_from_lem zero fd j t = ground arith
close_from_lem (suc n) fd j t = ground (arith, close_from_lem n (suc fd) j (update t fd none))

-- open(2) returns the lowest descriptor that is not in use, if it returns one.
abbrev pub OpensLowest : Kernel → Type 0
OpensLowest k = (t : Table) (fd : ℕ) → k.open_null t ≡ some fd → (j : ℕ) → j < fd → t j ≢ none

-- The descriptors that a daemon is left with
abbrev pub daemon_table : Kernel → ℕ → Table → Table
daemon_table k flags t j =
    if not (bd_no_reopen_std_fds flags) && ltb j 3
    then some dev_null
    else (if not (bd_no_close_files flags) && ltb j (max_fd k) then none else t j)

-- The descriptors after a `reopen` that returns 0
abbrev pub reopened : ℕ → Table → Table
reopened flags t j = if not (bd_no_reopen_std_fds flags) && ltb j 3 then some dev_null else t j

reopen-table :
    (k : Kernel) (flags : ℕ) (p q : Process)
    → reopen k flags p ≡ returned (pos 0) q
    → (j : ℕ) → q.table j ≡ reopened flags p.table j
unfolding reopen
reopen-table k flags p q e j = elim (Bool-cases (bd_no_reopen_std_fds flags)) [
  | inl keep ↦ ground arith
  | inr again ↦ ground arith
]

reopen-rest :
    (k : Kernel) (flags : ℕ) (p q : Process)
    → reopen k flags p ≡ returned (pos 0) q
    → (q.umask ≡ p.umask)
      × (q.cwd ≡ p.cwd)
      × (q.is_leader ≡ p.is_leader)
      × (q.in_new_session ≡ p.in_new_session)
unfolding reopen
reopen-rest k flags p q e = ground arith

close_files-table :
    (k : Kernel) (flags : ℕ) (p : Process) (j : ℕ)
    → (close_files k flags p).table j
      ≡ (if not (bd_no_close_files flags) && ltb j (max_fd k) then none else p.table j)
unfolding close_files
close_files-table k flags p j = ground (arith, close_from_lem (max_fd k) 0 j p.table)

-- A return of 0 comes from the second child.
become_daemon-configure :
    (k : Kernel) (flags : ℕ) (p q : Process)
    → become_daemon k flags p ≡ returned (pos 0) q
    → configure k flags (record p { is_leader = false; in_new_session = true }) ≡ returned (pos 0) q
unfolding become_daemon
become_daemon-configure k flags p q e = ground arith

-- What `configure` hands to `reopen`
abbrev prepared : Kernel → ℕ → Process → Process
prepared k flags p = close_files k flags (change_dir k flags (set_umask flags p))

prepared_rest :
    (k : Kernel) (flags : ℕ) (p : Process)
    → let q = prepared k flags p in
      (q.umask ≡ (if bd_no_umask0 flags then p.umask else 0))
      × (q.cwd ≡ (if not (bd_no_chdir flags) && k.chdir_ok then root else p.cwd))
      × (q.is_leader ≡ p.is_leader)
      × (q.in_new_session ≡ p.in_new_session)
unfolding close_files change_dir set_umask
prepared_rest k flags p = ground arith

prepared-table :
    (k : Kernel) (flags : ℕ) (p : Process) (j : ℕ)
    → (prepared k flags p).table j
      ≡ (if not (bd_no_close_files flags) && ltb j (max_fd k) then none else p.table j)
unfolding change_dir set_umask
prepared-table k flags p j =
    ground (arith, close_files-table k flags (change_dir k flags (set_umask flags p)) j)

-- If `becomeDaemon` returns 0 in a process `q`, then `q` is in a new session that it does not lead;
-- its umask is 0, its directory is the root where `chdir` succeeded, its descriptors below the limit
-- are closed, and its descriptors 0, 1 and 2 are on /dev/null: each of these unless its flag is set,
-- and then that attribute is as it was before.
pub become_daemon_lem :
    (k : Kernel) (flags : ℕ) (p q : Process)
    → become_daemon k flags p ≡ returned (pos 0) q
    → (q.in_new_session ≡ true)
      × (q.is_leader ≡ false)
      × (q.umask ≡ (if bd_no_umask0 flags then p.umask else 0))
      × (q.cwd ≡ (if not (bd_no_chdir flags) && k.chdir_ok then root else p.cwd))
      × ((j : ℕ) → q.table j ≡ daemon_table k flags p.table j)
unfolding configure
become_daemon_lem k flags p q e =
    let child : Process = record p { is_leader = false; in_new_session = true } in
    let run = become_daemon-configure k flags p q e in
    let kept = reopen-rest k flags (prepared k flags child) q run in
    let made = prepared_rest k flags child in
    (
      kept.3 ∙ made.3,
      kept.2 ∙ made.2,
      kept.0 ∙ made.0,
      kept.1 ∙ made.1,
      λ j. ground (
        arith,
        reopen-table k flags (prepared k flags child) q run j,
        prepared-table k flags child j,
      ),
    )

-- Each of the calls that `becomeDaemon` looks at succeeds.
pub record Succeeds (k : Kernel) : Type 0 where
  pub forked : (k.first_fork ≡ in_child) × (k.second_fork ≡ in_child)
  pub session : k.setsid_ok ≡ true
  pub opens : (t : Table) → k.open_null t ≢ none
  pub lowest : OpensLowest k
  pub dups : (n : ℕ) → k.dup2_ok n ≡ true

reopen-Succeeds :
    (k : Kernel) (flags : ℕ) (p : Process)
    → Succeeds k
    → (q : Process) × (reopen k flags p ≡ returned (pos 0) q)
unfolding reopen
reopen-Succeeds k flags p s = elim (Bool-cases (bd_no_reopen_std_fds flags)) [
  | inl keep ↦ (p, ground arith)
  | inr again ↦
      let t = update p.table 0 none in
      elim (Option-cases (k.open_null t)) [
        | inl e ↦ absurd (s.opens t e)
        | inr (fd, e) ↦
            let zero_fd : fd ≡ 0 = elim (Bool-cases (fd == 0)) [
              | inl z ↦ ground arith
              | inr p ↦ absurd (s.lowest t fd e 0 (ground arith) refl)
            ] in
            let t0 = update t fd (some dev_null) in
            let t1 = update t0 1 (t0 fd) in
            (record p { table = update t1 2 (t1 fd) }, ground (arith, s.dups 1, s.dups 2))
      ]
]

-- If both forks come back in the child, `setsid`, the `open` of /dev/null and the calls of `dup2`
-- succeed, and `open` returns the lowest free descriptor, then `becomeDaemon` returns 0.
pub become_daemon-Succeeds :
    (k : Kernel) (flags : ℕ) (p : Process)
    → Succeeds k
    → (q : Process) × (become_daemon k flags p ≡ returned (pos 0) q)
unfolding become_daemon configure
become_daemon-Succeeds k flags p s =
    let child : Process = record p { is_leader = false; in_new_session = true } in
    let (q, e) = reopen-Succeeds k flags (prepared k flags child) s in
    (q, ground (arith, s.session, s.forked.0, s.forked.1))
