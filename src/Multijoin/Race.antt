-- ===== src/Multijoin/Race.antt =====
-- chapter30/thread_multijoin.c: each worker is given the address of the one variable `idx` of `main`,
-- so it reads whatever index stands there when it runs.
use the_linux_programming_in.Prelude.{ℕ, zero, suc, ◌≤◌, ◌<◌, ◌≡◌, refl, some, arith}
use the_linux_programming_in.Multijoin.{
  creating, started, ready, System, create, advance, read, init, Reach, start, next,
}
use the_linux_programming_in.Multijoin.Shape.{index}

-- The first `k` workers are created and have not read their argument.
record IsEager (k : ℕ) (s : System) : Type 0 where
  main_creating : s.main ≡ creating
  idx_here : s.idx ≡ k
  unread : (j : ℕ) → j < k → s.worker j ≡ started

-- The first `k` workers have read the index `n`.
record IsLate (n k : ℕ) (s : System) : Type 0 where
  idx_end : s.idx ≡ n
  late : (j : ℕ) → j < k → s.worker j ≡ ready n
  unread : (j : ℕ) → k ≤ j → j < n → s.worker j ≡ started

IsEager-reach : (n k : ℕ) → k ≤ n → (s : System) × Reach n s × IsEager k s
IsEager-reach n zero le = (
  init,
  start,
  record { main_creating = refl; idx_here = refl; unread = λ j lt. absurd (omega arith) },
)
IsEager-reach n (suc k) le =
    let (s, r, e) = IsEager-reach n k (omega arith) in
    (
      _,
      next (next r (create e.main_creating (ground (arith, e.idx_here)))) (advance refl),
      record {
        main_creating = refl;
        idx_here = ground (arith, e.idx_here);
        unread = λ j lt. ground (arith, e.idx_here, e.unread j);
      },
    )

IsLate-reach : (n k : ℕ) → k ≤ n → (s : System) × Reach n s × IsLate n k s
IsLate-reach n zero le =
    let (s, r, e) = IsEager-reach n n (omega arith) in
    (
      s,
      r,
      record {
        idx_end = e.idx_here;
        late = λ j lt. absurd (omega arith);
        unread = λ j ge lt. e.unread j lt;
      },
    )
IsLate-reach n (suc k) le =
    let (s, r, e) = IsLate-reach n k (omega arith) in
    (
      _,
      next r (read k (e.unread k (omega arith) (omega arith))),
      record {
        idx_end = e.idx_end;
        late = λ j lt. ground (arith, e.idx_end, e.late j);
        unread = λ j ge lt. ground (arith, e.unread j);
      },
    )

-- For every number of threads there is a run in which all of them read the index `n`, which is past
-- the end of the array `thread`.
pub workers_share_idx :
    (n : ℕ) → (s : System) × Reach n s × ((j : ℕ) → j < n → index (s.worker j) ≡ some n)
workers_share_idx n =
    let (s, r, e) = IsLate-reach n n (omega arith) in (s, r, λ j lt. ground (arith, e.late j))
