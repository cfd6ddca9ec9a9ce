-- ===== src/FreeSbrk.antt =====
-- chapter7/free_and_sbrk.c (and chapter7/exercise_1.c, which prints the program break more often):
-- allocates blocks and frees some of them. Here stand the data and the code; Laws holds the proofs.
pub mod Laws
mod Tests
use the_linux_programming_in.Prelude.{help}
use the_linux_programming_in.Prelude.{
  ℕ, zero, suc, ◌+◌, ◌-◌, ◌*◌, ◌/◌, ◌%◌, ◌^◌, ◌≤◌, ◌<◌, ◌≡◌, refl, sym, ap, ◌∙◌, ◌≢◌, ◌↔◌, ◌⊎◌, inl,
  inr, Bool, true, false, ◌&&◌, ◌||◌, not, Option, none, some, List, [], ◌∷◌, ◌++◌, map,
  append_assoc, append-nil, arith, ltb, leb, ◌==◌, if◌then◌else◌, ltb→lt, lt→ltb, leb→le, ==_iff,
  Bool-cases, Option-cases, length, get_elem?, set, length-append, length-set, get_elem?-set_self,
  get_elem?-set_ne, get_or, take, drop, replicate, length-map, Bytes, bytes_eq, bytes_eq_refl,
  bytes_eq_sound, bytes_eq_ne,
}

abbrev pub max_allocs : ℕ
max_allocs = 1000000

abbrev pub int_max : ℕ
int_max = 2 ^ 31 - 1

-- What the calls return: `getInt` without and with GN_ANY_BASE, none where it exits; and whether the
-- j-th `malloc` succeeds
pub record Calls : Type 0 where
  pub get_int : Bytes → Option ℕ
  pub get_int_any_base : Bytes → Option ℕ
  pub malloc : ℕ → Bool

pub data Exit : Type 0 where
  usage_error : Exit
  bad_number : Exit  -- in `getInt`
  too_many_allocs : Exit
  bad_free_max : Exit
  malloc_failed : Exit
  freed : List ℕ → Exit  -- success, with the indices of the blocks that have been freed
  overflow : Exit  -- `j += freeStep` leaves the range of int, which is undefined in C
  out_of_fuel : Exit

-- The loop of calls of `malloc`, from j on with n left: whether all succeed
unfoldable pub all_allocated : (ℕ → Bool) → ℕ → ℕ → Bool
all_allocated malloc j zero = true
all_allocated malloc j (suc n) = malloc j && all_allocated malloc (suc j) n

abbrev pub also_freed : ℕ → Exit → Exit
also_freed j (freed js) = freed (j ∷ js)
also_freed j e = e

-- The loop of calls of `free`
unfoldable pub free_loop : ℕ → ℕ → ℕ → ℕ → Exit
free_loop zero j free_max free_step = out_of_fuel
free_loop (suc fuel) j free_max free_step =
    let rest = free_loop fuel (j + free_step) free_max free_step in
    if ltb j free_max
    then (if leb (j + free_step) int_max then also_freed j rest else overflow)
    else freed []

-- The arguments from `step` on, with their defaults
pub record Range : Type 0 where
  pub step : ℕ
  pub first : ℕ
  pub last : ℕ

unfoldable pub range_of : (Bytes → Option ℕ) → ℕ → List Bytes → Option Range
range_of get num [] = some record { step = 1; first = 1; last = num }
range_of get num (s ∷ []) = elim (get s) [
  | none ↦ none
  | some step ↦ some record { step = step; first = 1; last = num }
]
range_of get num (s ∷ a ∷ []) = elim (get s) [
  | none ↦ none
  | some step ↦ elim (get a) [
    | none ↦ none
    | some first ↦ some record { step = step; first = first; last = num }
  ]
]
range_of get num (s ∷ a ∷ b ∷ more) = elim (get s) [
  | none ↦ none
  | some step ↦ elim (get a) [
    | none ↦ none
    | some first ↦ elim (get b) [
      | none ↦ none
      | some last ↦ some record { step = step; first = first; last = last }
    ]
  ]
]

-- From the test of `freeMax` on
unfoldable pub run : Calls → ℕ → ℕ → Range → Exit
run k fuel num r =
    if ltb num r.last
    then bad_free_max
    else (if all_allocated k.malloc 0 num
        then free_loop fuel (r.first - 1) r.last r.step
        else malloc_failed)

-- `main`, with the arguments after the name of the program; `first` is above 0 by GN_GT_0.
unfoldable pub main : Calls → ℕ → List Bytes → Exit
main k fuel [] = usage_error
main k fuel (n ∷ []) = usage_error
main k fuel (n ∷ size ∷ more) = if bytes_eq n help then usage_error else elim (k.get_int n) [
  | none ↦ bad_number
  | some num ↦ if ltb max_allocs num then too_many_allocs else elim (k.get_int_any_base size) [
    | none ↦ bad_number
    | some block_size ↦ elim (range_of k.get_int num more) [
      | none ↦ bad_number
      | some r ↦ run k fuel num r
    ]
  ]
]
