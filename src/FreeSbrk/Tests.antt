-- ===== src/FreeSbrk/Tests.antt =====
-- chapter7/free_and_sbrk.c: runs with ten blocks, and the theorems at their ranges.
use the_linux_programming_in.Prelude.{
  ℕ, ◌+◌, ◌-◌, ◌≡◌, refl, true, ◌&&◌, Option, none, some, [], ◌∷◌, ltb, if◌then◌else◌, Bytes,
}
use the_linux_programming_in.FreeSbrk.{
  Calls, bad_free_max, freed, all_allocated, free_loop, Range, range_of, run, main,
}
use the_linux_programming_in.Prelude.Atoi.{isdigit}

abbrev digit : Bytes → Option ℕ
digit [] = none
digit (d ∷ s) = if isdigit d && ltb b'0' d then some (d - b'0') else none

abbrev calls : Calls
calls = record { get_int = digit; get_int_any_base = digit; malloc = λ j. true }

abbrev number : ℕ → Bytes
number n = (n + b'0') ∷ []

-- 9 blocks, the 2nd to the 8th in steps of 3
by_threes :
    main calls 20 (number 9 ∷ number 1 ∷ number 3 ∷ number 2 ∷ number 8 ∷ [])
    ≡ freed (1 ∷ 4 ∷ 7 ∷ [])
unfolding main range_of run all_allocated free_loop
by_threes = refl

all_blocks : main calls 20 (number 3 ∷ number 1 ∷ []) ≡ freed (0 ∷ 1 ∷ 2 ∷ [])
unfolding main range_of run all_allocated free_loop
all_blocks = refl

bad_max : main calls 20 (number 3 ∷ number 1 ∷ number 1 ∷ number 1 ∷ number 4 ∷ []) ≡ bad_free_max
unfolding main range_of run
bad_max = refl

abbrev thirds : Range
thirds = record { step = 3; first = 2; last = 8 }

nine_allocated : all_allocated calls.malloc 0 9 ≡ true
unfolding all_allocated
nine_allocated = refl
