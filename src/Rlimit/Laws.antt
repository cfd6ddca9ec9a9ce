-- ===== src/Rlimit/Laws.antt =====
-- chapter36/rlimit.c: what the test of the limit of open files opens and closes.
use the_linux_programming_in.Prelude.{
  ℕ, zero, suc, ◌+◌, ◌-◌, ◌/◌, ◌≡◌, refl, sym, ap, ◌∙◌, inl, inr, true, false, ◌&&◌, not, Option,
  none, some, List, [], ◌∷◌, ◌++◌, arith, Option-cases, length, replicate,
}
use the_linux_programming_in.Rlimit.{
  Rlimit, Kernel, halved, calloc, open_loop, close_loop, failed, finished, test_files,
}

-- The descriptors of the calls of `open` before the first that fails, of so many at most
abbrev pub opened_fds : (ℕ → Option ℕ) → ℕ → ℕ → List ℕ
opened_fds opens j zero = []
opened_fds opens j (suc n) =
    let rest = opened_fds opens (suc j) n in elim (opens j) [ none ↦ [] | some fd ↦ fd ∷ rest ]

-- `close` is called with 0 for each slot after that of the failed call.
abbrev pub stray : ℕ → ℕ → List ℕ
stray done n = replicate (n - done - 1) 0

stray-suc : (done n : ℕ) → stray (suc done) (suc n) ≡ stray done n
stray-suc done n = ap (λ m. replicate m 0) (omega arith)

stray_all : (n : ℕ) → stray 0 (suc n) ≡ replicate n 0
stray_all n = ap (λ m. replicate m 0) (omega arith)

close_replicate : (n : ℕ) → close_loop (replicate n (some 0)) ≡ replicate n 0
unfolding close_loop
close_replicate zero = refl
close_replicate (suc n) = ap (λ r. 0 ∷ r) (close_replicate n)

open_loop_lem :
    (opens : ℕ → Option ℕ) (j n : ℕ)
    → ((open_loop opens j (calloc n)).1 ≡ j + length (opened_fds opens j n))
      × (close_loop (open_loop opens j (calloc n)).0
          ≡ opened_fds opens j n ++ stray (length (opened_fds opens j n)) n)
unfolding open_loop close_loop
open_loop_lem opens j zero = (omega arith, refl)
open_loop_lem opens j (suc n) =
    let (counted, closed) = open_loop_lem opens (suc j) n in
    elim (Option-cases (opens j)) [
      | inl e ↦ rw (e, opened_fds) (omega arith, close_replicate n ∙ sym (stray_all n))
      | inr (fd, e) ↦
          rw (e, opened_fds)
            (
              omega arith,
              ap (◌∷◌ fd) closed
                  ∙ ap (λ r. fd ∷ opened_fds opens (suc j) n ++ r)
                      (sym (stray-suc (length (opened_fds opens (suc j) n)) n)),
            )
    ]

-- When the test comes to its end, the process has the limit from before, and the number that is
-- printed is that of the calls of open before the first that fails. close has been called with
-- exactly their descriptors, in order, and after them with 0, the standard input, once for each call
-- of open that was left out because of the failure.
pub test_files-closes :
    (k : Kernel) (orig : Rlimit) (limit : Rlimit) (count : ℕ) (closed : List ℕ)
    → test_files k orig ≡ finished limit count closed
    → (limit ≡ orig)
      × (count ≡ length (opened_fds k.opens 0 (orig.rlim_max / 2 + 10)))
      × (closed
          ≡ opened_fds k.opens 0 (orig.rlim_max / 2 + 10) ++ stray count (orig.rlim_max / 2 + 10))
unfolding test_files
test_files-closes k orig limit count closed e =
    let (counted, calls) = open_loop_lem k.opens 0 (orig.rlim_max / 2 + 10) in
    (ground arith, ground (arith, counted), ground (arith, counted, calls))

-- Whatever fails after the limit has been changed, before the end of the test, leaves the process
-- with the halved limit; a failure before that leaves it with its own. A test in which no such call
-- fails comes to its end.
pub test_files_failed :
    (k : Kernel) (orig : Rlimit)
    → (k.get_ok && k.set_ok && not (k.show_ok && k.calloc_ok && k.restore_ok) ≡ true
        → test_files k orig ≡ failed (halved orig))
      × (k.get_ok && k.set_ok ≡ false → test_files k orig ≡ failed orig)
      × (k.get_ok && k.set_ok && k.show_ok && k.calloc_ok && k.restore_ok ≡ true
          → (count : ℕ) × (closed : List ℕ) × (test_files k orig ≡ finished orig count closed))
unfolding test_files
test_files_failed k orig = (
  λ h. ground arith,
  λ h. ground arith,
  λ h.
      let opened = open_loop k.opens 0 (calloc (orig.rlim_max / 2 + 10)) in
      (opened.1, close_loop opened.0, ground arith),
)
