-- ===== src/LsWc/Tests.antt =====
-- chapter44/ls_ws.c: a program with the standard descriptors, whose pipe comes on 3 and 4.
use the_linux_programming_in.Prelude.{
  ℕ, ◌≡◌, refl, true, none, some, [], ◌∷◌, arith, ltb, if◌then◌else◌,
}
use the_linux_programming_in.Prelude.{update}
use the_linux_programming_in.LsWc.{read_end, write_end, other, Table, exited, Calls, success, main}
use the_linux_programming_in.LsWc.Laws.{Runs, AllOk, main_connects}

abbrev standard : Table
standard j = if ltb j 3 then some (other j) else none

abbrev calls : Calls
calls = record {
  pipe = some (3, 4);
  fork1_ok = true;
  fork2_ok = true;
  dup2_ls = true;
  dup2_wc = true;
  ls_status = exited 0;
  wc_status = exited 0;
}

calls-AllOk : AllOk calls 3 4
calls-AllOk = record { piped = refl; fork1 = refl; fork2 = refl; dup_ls = refl; dup_wc = refl }

main_connects_example :
    ((main calls standard).exit ≡ success)
    × Runs (main calls standard).ls (update standard 1 (some write_end))
    × Runs (main calls standard).wc (update standard 0 (some read_end))
    × ((j : ℕ) → (main calls standard).parent j ≡ standard j)
    × ((main calls standard).reports ≡ exited 0 ∷ exited 0 ∷ [])
main_connects_example =
    main_connects calls standard 3 4 calls-AllOk ((omega arith), refl, refl) (λ e. ground arith)
      (λ e. ground arith)
