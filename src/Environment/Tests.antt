-- ===== src/Environment/Tests.antt =====
-- chapter6/exercise_3.c: runs, and the laws at concrete environments.
use the_linux_programming_in.Prelude.{
  ◌≡◌, refl, ◌⊎◌, true, false, ◌&&◌, not, some, List, [], ◌∷◌, arith, ◌==◌, if◌then◌else◌,
  get_elem?, Bytes, bytes_eq,
}
use the_linux_programming_in.Prelude.Int.{pos, negsuc}
use the_linux_programming_in.Environment.{
  entry_of, getenv, Memory, Slots, my_setenv, my_unsetenv, is_some,
}
use the_linux_programming_in.Environment.Compaction.{Holds, without}
use the_linux_programming_in.Environment.Laws.{getenv-my_setenv, my_unsetenv-Holds}

abbrev tv : Bytes
tv = b'T' ∷ b'V' ∷ []

abbrev t : Bytes
t = b'T' ∷ []

abbrev hello : Bytes
hello = b'h' ∷ b'i' ∷ []

abbrev world : Bytes
world = b'w' ∷ []

-- `TV` is defined twice, and `T` in between.
abbrev twice : List Bytes
twice = entry_of tv hello ∷ entry_of t world ∷ entry_of tv world ∷ []

abbrev plenty : Memory
plenty = record { malloc_ok = true; putenv_ok = true }

abbrev array : List Bytes → Slots
array env i = get_elem? env i

setenv_keeps : my_setenv plenty (some tv) world 0 twice ≡ (pos 0, twice)
unfolding my_setenv
setenv_keeps = refl

setenv_replaces :
    my_setenv plenty (some tv) world 1 twice
    ≡ (pos 0, entry_of tv world ∷ entry_of t world ∷ entry_of tv world ∷ [])
unfolding my_setenv
setenv_replaces = refl

setenv_bad : my_setenv plenty (some (b'=' ∷ [])) world 1 twice ≡ (negsuc 0, twice)
unfolding my_setenv
setenv_bad = refl

getenv-my_setenv_example :
    let (code, env') = my_setenv plenty (some tv) world 1 twice in
    (code ≡ pos 0)
      × (getenv tv env' ≡ (
          if bytes_eq tv tv && not (is_some (getenv tv twice) && 1 == 0)
          then some world
          else getenv tv twice))
    ⊎ (code ≡ negsuc 0) × (env' ≡ twice) × ((plenty.malloc_ok && plenty.putenv_ok) ≡ false)
getenv-my_setenv_example = getenv-my_setenv plenty tv world 1 twice tv refl refl

my_unsetenv-Holds_example :
    (b : Slots) × (my_unsetenv 4 (some tv) (array twice) ≡ some (pos 0, b))
    × Holds b 0 (without tv twice)
my_unsetenv-Holds_example =
    my_unsetenv-Holds 4 tv (array twice) twice refl (omega arith) (refl, (refl, (refl, refl)))
