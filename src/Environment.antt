-- ===== src/Environment.antt =====
-- chapter6/exercise_3.c: `setenv` and `unsetenv` written over `getenv`, `putenv` and `environ`.
-- Here stand the data and the code; the children hold the proofs.
pub mod Entries
pub mod Compaction
pub mod Laws
mod Tests
use the_linux_programming_in.Prelude.{
  ℕ, zero, suc, ◌+◌, ◌==◌, if◌then◌else◌, Bool, true, false, ◌&&◌, ◌||◌, not, Option, none, some,
  List, [], ◌∷◌, ◌++◌, Bytes, length, get_or, drop,
}
use the_linux_programming_in.Prelude.Int.{ℤ, pos, negsuc}

-- `strchr(s, c) != NULL` for a `c` that is not NUL
abbrev pub strchr : Bytes → ℕ → Bool
strchr [] c = false
strchr (x ∷ s) c = x == c || strchr s c

-- `strncmp(s, t, n) == 0`; the end of a list is the NUL
abbrev pub strncmp_eq : ℕ → Bytes → Bytes → Bool
strncmp_eq zero s t = true
strncmp_eq (suc n) [] [] = true
strncmp_eq (suc n) [] (y ∷ t) = false
strncmp_eq (suc n) (x ∷ s) [] = false
strncmp_eq (suc n) (x ∷ s) (y ∷ t) = x == y && strncmp_eq n s t

-- The test of the loop in `my_unsetenv`: the entry begins with "name=".
abbrev pub names : Bytes → Bytes → Bool
names name entry = strncmp_eq (length name) entry name && get_or entry (length name) 0 == b'='

-- `name[0] == '\0' || strchr(name, '=') != NULL`
abbrev pub is_bad : Bytes → Bool
is_bad [] = true
is_bad (c ∷ s) = strchr (c ∷ s) b'='

-- `snprintf(string, len, "%s=%s", name, value)`; `len` has room for all of it
abbrev pub entry_of : Bytes → Bytes → Bytes
entry_of name value = name ++ (b'=' ∷ value)

-- getenv(3) over the entries before the NULL of `environ`: the value of the first that fits
abbrev pub getenv : Bytes → List Bytes → Option Bytes
getenv name [] = none
getenv name (e ∷ env) = if names name e then some (drop (suc (length name)) e) else getenv name env

-- putenv(3) with a string that defines `name`: the first entry of that name is replaced, and a new
-- one is added at the end
abbrev pub putenv : Bytes → Bytes → List Bytes → List Bytes
putenv name string [] = string ∷ []
putenv name string (e ∷ env) = if names name e then string ∷ env else e ∷ putenv name string env

abbrev pub is_some {ℓ} : {A : Type ℓ} → Option A → Bool
is_some none = false
is_some (some a) = true

-- What the two calls that can run out of memory do: whether `malloc` and `putenv` succeed.
pub record Memory : Type 0 where
  pub malloc_ok : Bool
  pub putenv_ok : Bool

-- The last part of `my_setenv`, after the guards
store : Memory → Bytes → Bytes → List Bytes → ℤ × List Bytes
store mem name value env =
    if mem.malloc_ok
    then (if mem.putenv_ok then (pos 0, putenv name (entry_of name value) env) else (negsuc 0, env))
    else (negsuc 0, env)

-- `my_setenv`; the name is none for NULL, and the result is 0 or -1 with the new environment
unfoldable pub my_setenv : Memory → Option Bytes → Bytes → ℕ → List Bytes → ℤ × List Bytes
unfolding store
my_setenv mem none value overwrite env = (negsuc 0, env)
my_setenv mem (some name) value overwrite env =
    if is_bad name
    then (negsuc 0, env)
    else (if is_some (getenv name env) && overwrite == 0
        then (pos 0, env)
        else store mem name value env)

-- The array `environ`: a slot holds a string or NULL.
abbrev pub Slots : Type 0
Slots = ℕ → Option Bytes

abbrev pub write : Slots → ℕ → Option Bytes → Slots
write a i v j = if i == j then v else a j

-- The loop of `my_unsetenv`: `r` is `env_ptr` and `w` is `write_ptr`, as indexes of `environ`;
-- none when the fuel runs out.
pub compact : ℕ → Bytes → Slots → ℕ → ℕ → Option Slots
compact zero name a r w = none
compact (suc fuel) name a r w = elim (a r) [
  | none ↦ some (write a w none)
  | some e ↦ elim (names name e) [
    | true ↦ compact fuel name a (suc r) w
    | false ↦ compact fuel name (write a w (some e)) (suc r) (suc w)
  ]
]

-- `my_unsetenv`
unfoldable pub my_unsetenv : ℕ → Option Bytes → Slots → Option (ℤ × Slots)
unfolding compact
my_unsetenv fuel none a = some (negsuc 0, a)
my_unsetenv fuel (some name) a =
    if is_bad name
    then some (negsuc 0, a)
    else elim (compact fuel name a 0 0) [ none ↦ none | some b ↦ some (pos 0, b) ]
