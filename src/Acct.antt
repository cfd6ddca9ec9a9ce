-- ===== src/Acct.antt =====
-- chapter28/acct_view.c and acct_v3_view.c: the records of a file of process accounting. Here stand the
-- data and the code; the children hold the proofs. The times are in clock ticks; the elapsed time of
-- acct_v3_view.c, which is a float, and the layout of the lines are left out.
pub mod Compt
pub mod Listing
mod Tests
use the_linux_programming_in.Prelude.{
  ℕ, zero, suc, ◌+◌, ◌-◌, ◌*◌, ◌/◌, ◌%◌, ◌^◌, ◌≤◌, ◌<◌, ◌≡◌, refl, sym, ap, ◌∙◌, ◌≢◌, ◌↔◌, ◌⊎◌, inl,
  inr, Bool, true, false, ◌&&◌, ◌||◌, not, Option, none, some, List, [], ◌∷◌, ◌++◌, map,
  append_assoc, append-nil, arith, ltb, leb, ◌==◌, if◌then◌else◌, ltb→lt, lt→ltb, leb→le, ==_iff,
  Bool-cases, Option-cases, length, get_elem?, set, length-append, length-set, get_elem?-set_self,
  get_elem?-set_ne, get_or, take, drop, replicate, length-map, Bytes, bytes_eq, bytes_eq_refl,
  bytes_eq_sound, bytes_eq_ne,
}
use the_linux_programming_in.Prelude.{◌>>=◌}
use the_linux_programming_in.Prelude.{help}

-- `comptToLL`, for a comp_t, which has 16 bits
unfoldable pub compt_to_ll : ℕ → ℕ
compt_to_ll ct =
    let mantissa = ct % 2 ^ 13 in
    let exponent = ct / 2 ^ 13 % 2 ^ 3 in mantissa * 2 ^ (exponent * 3) % 2 ^ 64

-- The fields of `struct acct` and `struct acct_v3` that are printed; `ac_version`, `ac_gid`, `ac_pid` and
-- `ac_ppid` are in the second only.
pub record AcctRecord : Type 0 where
  pub ac_version : ℕ
  pub ac_comm : Bytes
  pub ac_flag : ℕ
  pub ac_exitcode : ℕ
  pub ac_pid : ℕ
  pub ac_ppid : ℕ
  pub ac_uid : ℕ
  pub ac_gid : ℕ
  pub ac_btime : ℕ
  pub ac_utime : ℕ
  pub ac_stime : ℕ
  pub ac_etime : ℕ

-- The layout of a record, the tests of `ac_flag`, the names and the local time, and whether `open` and
-- each `read` succeed
pub record Calls : Type 0 where
  pub size : ℕ
  pub decode : Bytes → AcctRecord
  pub forked : ℕ → Bool
  pub superuser : ℕ → Bool
  pub signalled : ℕ → Bool
  pub dumped : ℕ → Bool
  pub user_name : ℕ → Option Bytes
  pub group_name : ℕ → Option Bytes
  pub local_time : ℕ → Option Bytes
  pub open_ok : Bool
  pub read_ok : ℕ → Bool

-- What acct_v3_view.c prints more
pub record Extra : Type 0 where
  pub version : ℕ
  pub pid : ℕ
  pub ppid : ℕ
  pub group : Bytes

pub record Row : Type 0 where
  pub command : Bytes
  pub flags : Bytes
  pub exitcode : ℕ
  pub user : Bytes
  pub start_time : Option Bytes  -- none for an unknown time
  pub cpu_time : ℕ
  pub elapsed : Option ℕ  -- printed by acct_view.c
  pub extra : Option Extra

abbrev pub unknown : Bytes
unknown = b'?' ∷ b'?' ∷ b'?' ∷ []

-- `%-8.8s` takes 8 bytes at most.
abbrev pub name_or_unknown : Option Bytes → Bytes
name_or_unknown none = unknown
name_or_unknown (some name) = take 8 name

abbrev pub flag_char : Bool → ℕ → ℕ
flag_char set c = if set then c else b'-'

-- What is printed for a record, by acct_v3_view.c if `v3` is true
unfoldable pub row : Calls → Bool → AcctRecord → Row
row k v3 ac = record {
  command = take 8 ac.ac_comm;
  flags =
      flag_char (k.forked ac.ac_flag) b'F'
      ∷ flag_char (k.superuser ac.ac_flag) b'S'
      ∷ flag_char (k.signalled ac.ac_flag) b'X'
      ∷ flag_char (k.dumped ac.ac_flag) b'C'
      ∷ [];
  exitcode = ac.ac_exitcode;
  user = name_or_unknown (k.user_name ac.ac_uid);
  start_time = k.local_time ac.ac_btime;
  cpu_time = (compt_to_ll ac.ac_utime + compt_to_ll ac.ac_stime) % 2 ^ 64;
  elapsed = if v3 then none else some (compt_to_ll ac.ac_etime);
  extra =
      if v3
      then some (record {
        version = ac.ac_version;
        pid = ac.ac_pid;
        ppid = ac.ac_ppid;
        group = name_or_unknown (k.group_name ac.ac_gid);
      })
      else none;
}

pub data Exit : Type 0 where
  success usage_error open_failed partial_read read_failed : Exit

-- The loop of `read` on the rest of the file, from the i-th call on; none where the fuel is spent
unfoldable pub read_loop : ℕ → Calls → Bool → ℕ → Bytes → Option (List Row × Exit)
read_loop zero k v3 i rest = none
read_loop (suc fuel) k v3 i rest =
    let got = take k.size rest in
    let more = read_loop fuel k v3 (i + 1) (drop k.size rest) in
    if not (k.read_ok i)
    then some ([], read_failed)
    else (if length got == 0
        then some ([], success)
        else (if length got == k.size
            then (more >>= λ r. some (row k v3 (k.decode got) ∷ r.0, r.1))
            else some ([], partial_read)))

-- `main`, with its arguments and the content of the file
unfoldable pub main : ℕ → Calls → Bool → List Bytes → Bytes → Option (List Row × Exit)
main fuel k v3 (arg ∷ []) content =
    let rows = read_loop fuel k v3 0 content in
    if bytes_eq arg help
    then some ([], usage_error)
    else (if k.open_ok then rows else some ([], open_failed))
main fuel k v3 args content = some ([], usage_error)
