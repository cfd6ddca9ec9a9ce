-- ===== src/LsWc/Laws.antt =====
-- chapter44/ls_ws.c: what the descriptors of the three processes are open on.
use the_linux_programming_in.Prelude.{ℕ, ◌≡◌, refl, ◌≢◌, true, Option, none, some, [], ◌∷◌, arith}
use the_linux_programming_in.Prelude.{update}
use the_linux_programming_in.LsWc.{
  read_end, write_end, Table, Calls, close, ls_child, wc_child, success, main,
}

-- A process has these descriptors when it calls execlp.
abbrev pub Runs : Option Table → Table → Type 0
Runs o t = (u : Table) × (o ≡ some u) × ((j : ℕ) → u j ≡ t j)

-- The pipe comes on two descriptors that were closed.
abbrev pub IsFresh : Table → ℕ → ℕ → Type 0
IsFresh t r w = (r ≢ w) × (t r ≡ none) × (t w ≡ none)

ls_child-Runs :
    (t : Table) (r w : ℕ)
    → IsFresh t r w
    → 1 ≢ r
    → 1 ≢ w
    → Runs
        (ls_child true r w (update (update t r (some read_end)) w (some write_end)))
        (update t 1 (some write_end))
unfolding ls_child
ls_child-Runs t r w (ne, free_r, free_w) h g = (
  close w (
      update (close r (update (update t r (some read_end)) w (some write_end))) 1 (some write_end)),
  ground arith,
  λ j. ground arith,
)

wc_child-Runs :
    (t : Table) (r w : ℕ)
    → IsFresh t r w
    → 0 ≢ r
    → 0 ≢ w
    → Runs
        (wc_child true r w (update (update t r (some read_end)) w (some write_end)))
        (update t 0 (some read_end))
unfolding wc_child
wc_child-Runs t r w (ne, free_r, free_w) h g = (
  close r
      (update (close w (update (update t r (some read_end)) w (some write_end))) 0 (some read_end)),
  ground arith,
  λ j. ground arith,
)

-- With the write end on descriptor 1, the last close of ls closes the standard output.
ls_child-closed :
    (t : Table) (r : ℕ)
    → IsFresh t r 1
    → Runs (ls_child true r 1 (update (update t r (some read_end)) 1 (some write_end))) t
unfolding ls_child
ls_child-closed t r (ne, free_r, free_w) = (
  close 1 (
      update (close r (update (update t r (some read_end)) 1 (some write_end))) 1 (some write_end)),
  ground arith,
  λ j. ground arith,
)

-- Every call of the program succeeds.
pub record AllOk (k : Calls) (r w : ℕ) : Type 0 where
  pub piped : k.pipe ≡ some (r, w)
  pub fork1 : k.fork1_ok ≡ true
  pub fork2 : k.fork2_ok ≡ true
  pub dup_ls : k.dup2_ls ≡ true
  pub dup_wc : k.dup2_wc ≡ true

-- If every call succeeds, the descriptors 0 and 1 are open at the start and the pipe comes on two others
-- that were closed, then ls runs with its standard output on the write end of the pipe, wc with its
-- standard input on the read end, and each of them otherwise with the descriptors of the start: no other
-- end of the pipe is open in them, and none in the parent, which waits for both.
pub main_connects :
    (k : Calls) (t : Table) (r w : ℕ)
    → AllOk k r w
    → IsFresh t r w
    → t 0 ≢ none
    → t 1 ≢ none
    → ((main k t).exit ≡ success)
      × Runs (main k t).ls (update t 1 (some write_end))
      × Runs (main k t).wc (update t 0 (some read_end))
      × ((j : ℕ) → (main k t).parent j ≡ t j)
      × ((main k t).reports ≡ k.ls_status ∷ k.wc_status ∷ [])
unfolding main
main_connects k t r w ok fresh h0 h1 =
    rw (ok.piped, ok.fork1, ok.fork2, ok.dup_ls, ok.dup_wc)
      (
        refl,
        ls_child-Runs t r w fresh (λ e. ground (arith, fresh)) (λ e. ground (arith, fresh)),
        wc_child-Runs t r w fresh (λ e. ground (arith, fresh)) (λ e. ground (arith, fresh)),
        λ j. ground (arith, fresh),
        refl,
      )

-- If every call succeeds and the write end of the pipe comes on descriptor 1, as it does when the
-- descriptors 0 and 1 are closed at the start, then ls runs without a standard output.
pub stdout_closed :
    (k : Calls) (t : Table) (r : ℕ) → AllOk k r 1 → IsFresh t r 1 → Runs (main k t).ls t
unfolding main
stdout_closed k t r ok fresh =
    rw (ok.piped, ok.fork1, ok.fork2, ok.dup_ls) (ls_child-closed t r fresh)
