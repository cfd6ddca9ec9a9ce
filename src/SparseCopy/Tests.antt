-- ===== src/SparseCopy/Tests.antt =====
-- chapter4/cp.c: runs, and the theorems at concrete files.
use the_linux_programming_in.Prelude.{◌≡◌, refl, true, Option, some, List, [], ◌∷◌, length, Bytes}
use the_linux_programming_in.SparseCopy.{
  Kernel, success, write_at, write, copy_block, copy_loop, main,
}
use the_linux_programming_in.SparseCopy.Content.{main-kept}
use the_linux_programming_in.SparseCopy.{short_write}

abbrev calm : List (Option Bytes) → Kernel
calm rs = record {
  open_in_ok = true;
  fstat_ok = true;
  open_out_ok = true;
  reads = rs;
  tell_ok = λ n. true;
  seek_ok = λ n. true;
  accepts = λ n b. some (length b);
  close_in_ok = true;
  close_out_ok = true;
}

-- A hole between two blocks of data, and one at the end
abbrev holed : List (Option Bytes)
holed = some (1 ∷ 2 ∷ []) ∷ some (0 ∷ 0 ∷ []) ∷ some (3 ∷ []) ∷ some (0 ∷ 0 ∷ []) ∷ []

holed_runs :
    main 3 (calm holed) ≡ (success, record { content = 1 ∷ 2 ∷ 0 ∷ 0 ∷ 3 ∷ []; offset = 7 })
unfolding main copy_loop copy_block write write_at
holed_runs = refl

full_disk : (main 3 (record (calm holed) { accepts = λ n b. some 1 })).0 ≡ short_write
unfolding main copy_loop copy_block write write_at
full_disk = refl

holed-success : (main 3 (calm holed)).0 ≡ success
unfolding main copy_loop copy_block write write_at
holed-success = refl

main-kept_example : (main 3 (calm holed)).1.content ≡ 1 ∷ 2 ∷ 0 ∷ 0 ∷ 3 ∷ []
main-kept_example = main-kept 3 (calm holed) holed-success
