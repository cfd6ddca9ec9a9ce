-- ===== src/Tee/Tests.antt =====
-- chapter4/tee.c: runs, and the theorems at a run with two files.
use the_linux_programming_in.Prelude.{
  ℕ, ◌+◌, ◌≡◌, refl, true, some, List, [], ◌∷◌, if◌then◌else◌, length, Bytes,
}
use the_linux_programming_in.Tee.{
  append, Event, opened, wrote, closed, Kernel, success, failure, stdout, parse_options, open_all,
  write, write_all, copy_loop, close_all, run, main,
}
use the_linux_programming_in.Tee.Streams.{received, input, contains, IsDistinct}
use the_linux_programming_in.Tee.Runs.{opens, descriptors, with_mode, mode_of, main-received}

abbrev f : Bytes
f = b'f' ∷ []

abbrev g : Bytes
g = b'g' ∷ []

-- The number of events so far, from 3 on, as the next descriptor
abbrev calm : Kernel
calm = record {
  options = b'a' ∷ [];
  files = f ∷ g ∷ [];
  malloc_ok = true;
  open_file = λ log name m. some (3 + length log);
  reads = some (1 ∷ 2 ∷ []) ∷ some (3 ∷ []) ∷ [];
  accepts = λ log fd b. some (length b);
  close_ok = λ fd. true;
}

abbrev calm_log : List Event
calm_log =
    closed 4
    ∷ closed 3
    ∷ wrote 4 (3 ∷ [])
    ∷ wrote 3 (3 ∷ [])
    ∷ wrote 1 (3 ∷ [])
    ∷ wrote 4 (1 ∷ 2 ∷ [])
    ∷ wrote 3 (1 ∷ 2 ∷ [])
    ∷ wrote 1 (1 ∷ 2 ∷ [])
    ∷ opened g append 4
    ∷ opened f append 3
    ∷ []

calm_runs : main calm ≡ (success, calm_log)
unfolding main parse_options open_all run copy_loop write_all write close_all
calm_runs = refl

bad_option : main (record calm { options = b'?' ∷ [] }) ≡ (failure, [])
unfolding main parse_options
bad_option = refl

-- A short write ends the run before the other files have the bytes.
short_write :
    main (record calm { files = []; accepts = λ log fd b. some 1 })
    ≡ (failure, wrote 1 (1 ∷ []) ∷ [])
unfolding main parse_options open_all run copy_loop write_all write close_all
short_write = refl

main-received_example :
    let log = (main calm).1 in
    (opens log ≡ with_mode (mode_of calm.options) calm.files)
    × (IsDistinct (stdout ∷ descriptors log)
        → (j : ℕ)
        → received j log ≡ (if contains j (stdout ∷ descriptors log) then input calm.reads else []))
unfolding main parse_options open_all run copy_loop write_all write close_all
main-received_example = main-received calm refl
