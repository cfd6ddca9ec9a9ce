-- ===== src/Environment/Laws.antt =====
-- chapter6/exercise_3.c: what `my_setenv` and `my_unsetenv` do to every variable.
use the_linux_programming_in.Prelude.{
  ℕ, suc, ◌≤◌, ◌<◌, ◌≡◌, refl, ◌⊎◌, true, false, ◌&&◌, not, none, some, List, [], ◌∷◌, arith, ◌==◌,
  if◌then◌else◌, length, Bytes, bytes_eq, bytes_eq_refl, bytes_eq_sound,
}
use mathlib.Core.Path.{subst}
use the_linux_programming_in.Prelude.Int.{pos, negsuc}
use the_linux_programming_in.Environment.{
  strchr, is_bad, entry_of, getenv, putenv, is_some, Memory, Slots, my_setenv, my_unsetenv,
}
use the_linux_programming_in.Environment.Entries.{names-entry_of, names_unique, getenv-putenv}
use the_linux_programming_in.Environment.Compaction.{Holds, without, compact-Holds}

is_bad-strchr : (n : Bytes) → is_bad n ≡ false → strchr n b'=' ≡ false
is_bad-strchr [] h = cc
is_bad-strchr (c ∷ n) h = h

-- For a valid name, `my_setenv` either reports success, and then every valid name `j` reads as
-- before but the given one, which reads as the new value unless it was set and `overwrite` is 0;
-- or it reports -1, and then the environment is as it was and one of the two allocations failed.
pub getenv-my_setenv :
    (mem : Memory) (n v : Bytes) (overwrite : ℕ) (env : List Bytes) (j : Bytes)
    → is_bad n ≡ false
    → is_bad j ≡ false
    → let (code, env') = my_setenv mem (some n) v overwrite env in
      (code ≡ pos 0)
        × (getenv j env' ≡ (
            if bytes_eq n j && not (is_some (getenv n env) && overwrite == 0)
            then some v
            else getenv j env))
      ⊎ (code ≡ negsuc 0) × (env' ≡ env) × ((mem.malloc_ok && mem.putenv_ok) ≡ false)
unfolding my_setenv
getenv-my_setenv mem n v overwrite env j hn hj =
    ground (arith, getenv-putenv j n v env (is_bad-strchr j hj) (is_bad-strchr n hn))

-- On an array that holds `env`, with fuel above its length, `my_unsetenv` of a valid name ends,
-- returns 0, and leaves the entries of the other names, in order and followed by NULL.
pub my_unsetenv-Holds :
    (fuel : ℕ) (n : Bytes) (a : Slots) (env : List Bytes)
    → is_bad n ≡ false
    → length env < fuel
    → Holds a 0 env
    → (b : Slots) × (my_unsetenv fuel (some n) a ≡ some (pos 0, b)) × Holds b 0 (without n env)
unfolding my_unsetenv
my_unsetenv-Holds fuel n a env hn lt h =
    let (b, done, held, low) = compact-Holds fuel n a 0 0 env lt (omega arith) h in
    (b, rw (hn, done), held)

getenv-without :
    (n j : Bytes) (env : List Bytes)
    → strchr n b'=' ≡ false
    → strchr j b'=' ≡ false
    → getenv j (without n env) ≡ (if bytes_eq n j then none else getenv j env)
getenv-without n j [] hn hj = ground arith
getenv-without n j (e ∷ env) hn hj =
    ground (arith, bytes_eq_sound n j, names_unique j n e hj hn, getenv-without n j env hn hj)

-- After `my_unsetenv` of a valid name that name is not set, however often it was defined, and every
-- other valid name reads as before.
pub getenv-my_unsetenv :
    (fuel : ℕ) (n : Bytes) (a : Slots) (env : List Bytes)
    → is_bad n ≡ false
    → length env < fuel
    → Holds a 0 env
    → (b : Slots) × (env' : List Bytes) × (my_unsetenv fuel (some n) a ≡ some (pos 0, b))
      × Holds b 0 env'
      × ((j : Bytes)
          → is_bad j ≡ false
          → getenv j env' ≡ (if bytes_eq n j then none else getenv j env))
getenv-my_unsetenv fuel n a env hn lt h =
    let (b, done, held) = my_unsetenv-Holds fuel n a env hn lt h in
    (
      b,
      without n env,
      done,
      held,
      λ j hj. getenv-without n j env (is_bad-strchr n hn) (is_bad-strchr j hj),
    )

without_unset : (n : Bytes) (env : List Bytes) → getenv n env ≡ none → without n env ≡ env
without_unset n [] h = refl
without_unset n (e ∷ env) h = ground (arith, without_unset n env)

putenv_unset :
    (n v : Bytes) (env : List Bytes)
    → strchr n b'=' ≡ false
    → getenv n env ≡ none
    → without n (putenv n (entry_of n v) env) ≡ env
putenv_unset n v [] hn h = ground (arith, names-entry_of n n v hn hn, bytes_eq_refl n)
putenv_unset n v (e ∷ env) hn h = ground (arith, putenv_unset n v env hn)

length-putenv : (n s : Bytes) (env : List Bytes) → length (putenv n s env) ≤ suc (length env)
length-putenv n s [] = omega arith
length-putenv n s (e ∷ env) = ground (arith, length-putenv n s env)

-- Setting a valid name that is not set and unsetting it again gives back the environment, entry for
-- entry, when the allocations succeed and the fuel is above the number of entries by two.
pub my_unsetenv-my_setenv :
    (mem : Memory) (fuel : ℕ) (n v : Bytes) (overwrite : ℕ) (env : List Bytes) (a : Slots)
    → is_bad n ≡ false
    → (mem.malloc_ok && mem.putenv_ok) ≡ true
    → getenv n env ≡ none
    → suc (length env) < fuel
    → Holds a 0 (my_setenv mem (some n) v overwrite env).1
    → (b : Slots) × (my_unsetenv fuel (some n) a ≡ some (pos 0, b)) × Holds b 0 env
unfolding my_setenv
my_unsetenv-my_setenv mem fuel n v overwrite env a hn ok unset lt h =
    let (b, done, held) =
      my_unsetenv-Holds fuel n a (putenv n (entry_of n v) env) hn
        (omega (arith, length-putenv n (entry_of n v) env)) (subst (Holds a 0) same h) in
    (b, done, subst (Holds b 0) (putenv_unset n v env (is_bad-strchr n hn) unset) held)
  where
    same : (my_setenv mem (some n) v overwrite env).1 ≡ putenv n (entry_of n v) env
    same = ground arith
