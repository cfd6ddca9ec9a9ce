-- ===== src/Environment/Entries.antt =====
-- chapter6/exercise_3.c: entries "name=value", and what `getenv` finds after `putenv`.
use the_linux_programming_in.Prelude.{
  suc, ◌≡◌, refl, true, false, some, List, [], ◌∷◌, arith, if◌then◌else◌, length, drop, Bytes,
  bytes_eq, bytes_eq_sound,
}
use the_linux_programming_in.Environment.{strchr, names, entry_of, getenv, putenv}

-- The test on an entry that was made from a name decides whether the names are the same.
pub names-entry_of :
    (j n v : Bytes)
    → strchr j b'=' ≡ false
    → strchr n b'=' ≡ false
    → names j (entry_of n v) ≡ bytes_eq n j
names-entry_of [] [] v hj hn = refl
names-entry_of [] (y ∷ n) v hj hn = ground arith
names-entry_of (x ∷ j) [] v hj hn = ground arith
names-entry_of (x ∷ j) (y ∷ n) v hj hn = ground (arith, names-entry_of j n v)

pub drop-entry_of : (n v : Bytes) → drop (suc (length n)) (entry_of n v) ≡ v
drop-entry_of [] v = refl
drop-entry_of (x ∷ n) v = drop-entry_of n v

-- An entry defines one name.
pub names_unique :
    (j n e : Bytes)
    → strchr j b'=' ≡ false
    → strchr n b'=' ≡ false
    → names j e ≡ true
    → names n e ≡ true
    → bytes_eq n j ≡ true
names_unique [] [] e hj hn pj pn = refl
names_unique [] (y ∷ n) [] hj hn pj pn = cc
names_unique [] (y ∷ n) (c ∷ e) hj hn pj pn = ground arith
names_unique (x ∷ j) [] [] hj hn pj pn = cc
names_unique (x ∷ j) [] (c ∷ e) hj hn pj pn = ground arith
names_unique (x ∷ j) (y ∷ n) [] hj hn pj pn = cc
names_unique (x ∷ j) (y ∷ n) (c ∷ e) hj hn pj pn = ground (arith, names_unique j n e)

pub getenv-putenv :
    (j n v : Bytes) (env : List Bytes)
    → strchr j b'=' ≡ false
    → strchr n b'=' ≡ false
    → getenv j (putenv n (entry_of n v) env) ≡ (if bytes_eq n j then some v else getenv j env)
getenv-putenv j n v [] hj hn =
    ground (arith, names-entry_of j n v hj hn, drop-entry_of n v, bytes_eq_sound n j)
getenv-putenv j n v (e ∷ env) hj hn = ground (
  arith,
  names-entry_of j n v hj hn,
  drop-entry_of n v,
  bytes_eq_sound n j,
  names_unique j n e hj hn,
  getenv-putenv j n v env hj hn,
)
