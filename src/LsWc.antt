-- ===== src/LsWc.antt =====
-- chapter44/ls_ws.c: ls and wc at the two ends of a pipe. Here stand the data and the code; Laws holds
-- the proofs.
pub mod Laws
mod Tests
use the_linux_programming_in.Prelude.{
  ℕ, zero, suc, ◌+◌, ◌-◌, ◌*◌, ◌/◌, ◌%◌, ◌^◌, ◌≤◌, ◌<◌, ◌≡◌, refl, sym, ap, ◌∙◌, ◌≢◌, ◌↔◌, ◌⊎◌, inl,
  inr, Bool, true, false, ◌&&◌, ◌||◌, not, Option, none, some, List, [], ◌∷◌, ◌++◌, map,
  append_assoc, append-nil, arith, ltb, leb, ◌==◌, if◌then◌else◌, ltb→lt, lt→ltb, leb→le, ==_iff,
  Bool-cases, Option-cases, length, get_elem?, set, length-append, length-set, get_elem?-set_self,
  get_elem?-set_ne, get_or, take, drop, replicate, length-map, Bytes, bytes_eq, bytes_eq_refl,
  bytes_eq_sound, bytes_eq_ne,
}
use the_linux_programming_in.Prelude.{update}
use the_linux_programming_in.Prelude.{◌>>=◌}

-- What a descriptor is open on
pub data File : Type 0 where
  read_end write_end : File
  other : ℕ → File

abbrev pub Table : Type 0
Table = ℕ → Option File

-- How a child ends, by waitpid
pub data Status : Type 0 where
  exited : ℕ → Status
  not_exited : Status

-- What the calls return: the descriptors of `pipe`, whether the forks and the calls of dup2 succeed,
-- and the statuses that waitpid gives for the two children
pub record Calls : Type 0 where
  pub pipe : Option (ℕ × ℕ)
  pub fork1_ok : Bool
  pub fork2_ok : Bool
  pub dup2_ls : Bool
  pub dup2_wc : Bool
  pub ls_status : Status
  pub wc_status : Status

abbrev pub close : ℕ → Table → Table
close fd t = update t fd none

-- dup2 fails if the call does, or if the old descriptor is closed.
abbrev pub dup2 : Bool → ℕ → ℕ → Table → Option Table
dup2 ok old new t = elim (t old) [
  | none ↦ none
  | some file ↦ if ok then some (update t new (some file)) else none
]

-- The descriptors with which a child calls execlp, none where it exits before
unfoldable pub ls_child : Bool → ℕ → ℕ → Table → Option Table
ls_child ok r w t = do t1 ← dup2 ok w 1 (close r t); some (close w t1)

unfoldable pub wc_child : Bool → ℕ → ℕ → Table → Option Table
wc_child ok r w t = do t1 ← dup2 ok r 0 (close w t); some (close r t1)

pub data Exit : Type 0 where
  success pipe_failed fork_failed : Exit

-- How the program ends: the descriptors of the children where they call execlp, those of the parent
-- before it waits, and the statuses that it prints
pub record Outcome : Type 0 where
  pub exit : Exit
  pub ls : Option Table
  pub wc : Option Table
  pub parent : Table
  pub reports : List Status

unfoldable pub main : Calls → Table → Outcome
main k t = elim k.pipe [
  | none ↦ record { exit = pipe_failed; ls = none; wc = none; parent = t; reports = [] }
  | some (r, w) ↦
      let opened = update (update t r (some read_end)) w (some write_end) in
      if not k.fork1_ok
      then record { exit = fork_failed; ls = none; wc = none; parent = opened; reports = [] }
      else (if not k.fork2_ok
          then record {
            exit = fork_failed;
            ls = ls_child k.dup2_ls r w opened;
            wc = none;
            parent = opened;
            reports = [];
          }
          else record {
            exit = success;
            ls = ls_child k.dup2_ls r w opened;
            wc = wc_child k.dup2_wc r w opened;
            parent = close w (close r opened);
            reports = k.ls_status ∷ k.wc_status ∷ [];
          })
]
