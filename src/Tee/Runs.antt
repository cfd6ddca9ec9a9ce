-- ===== src/Tee/Runs.antt =====
-- chapter4/tee.c: the runs of `main` as a whole.
use the_linux_programming_in.Prelude.{
  ℕ, ◌≡◌, refl, inl, inr, Bool, true, false, Option, none, some, List, [], ◌∷◌, ◌++◌, append_assoc,
  append-nil, arith, if◌then◌else◌, Option-cases, Bytes,
}
use the_linux_programming_in.Tee.{
  OpenMode, append, truncate, Event, opened, wrote, closed, Kernel, success, stdout, parse_options,
  open_all, write, write_all, copy_loop, close_all, run, main,
}
use the_linux_programming_in.Tee.Streams.{
  received, input, contains, IsDistinct, copy_loop-received, close_all-received,
}
use mathlib.Core.Path.{subst}

-- The descriptors that were opened, in order, and the names and modes that they were opened with
abbrev pub descriptors : List Event → List ℕ
descriptors [] = []
descriptors (opened f m fd ∷ log) = descriptors log ++ (fd ∷ [])
descriptors (wrote fd b ∷ log) = descriptors log
descriptors (closed fd ∷ log) = descriptors log

abbrev pub opens : List Event → List (Bytes × OpenMode)
opens [] = []
opens (opened f m fd ∷ log) = opens log ++ ((f, m) ∷ [])
opens (wrote fd b ∷ log) = opens log
opens (closed fd ∷ log) = opens log

abbrev pub with_mode : OpenMode → List Bytes → List (Bytes × OpenMode)
with_mode m [] = []
with_mode m (f ∷ fs) = (f, m) ∷ with_mode m fs

-- Two logs with the same opens
abbrev SameOpens : List Event → List Event → Type 0
SameOpens a b = (descriptors a ≡ descriptors b) × (opens a ≡ opens b)

write_all-SameOpens :
    (k : Kernel) (fds : List ℕ) (b : Bytes) (log : List Event)
    → SameOpens (write_all k fds b log).1 log
unfolding write_all write
write_all-SameOpens k [] b log = (refl, refl)
write_all-SameOpens k (fd ∷ fds) b log =
    ground (arith, write_all-SameOpens k fds b (write k fd b log).1)

copy_loop-SameOpens :
    (k : Kernel) (fds : List ℕ) (rs : List (Option Bytes)) (log : List Event)
    → SameOpens (copy_loop k fds rs log).1 log
unfolding copy_loop
copy_loop-SameOpens k fds [] log = (refl, refl)
copy_loop-SameOpens k fds (none ∷ rs) log = (refl, refl)
copy_loop-SameOpens k fds (some [] ∷ rs) log = (refl, refl)
copy_loop-SameOpens k fds (some (c ∷ cs) ∷ rs) log =
    let w = write_all k (stdout ∷ fds) (c ∷ cs) log in
    ground
      (arith, write_all-SameOpens k (stdout ∷ fds) (c ∷ cs) log, copy_loop-SameOpens k fds rs w.1)

close_all-SameOpens :
    (k : Kernel) (fds : List ℕ) (log : List Event) → SameOpens (close_all k fds log).1 log
unfolding close_all
close_all-SameOpens k [] log = (refl, refl)
close_all-SameOpens k (fd ∷ fds) log = ground (arith, close_all-SameOpens k fds (closed fd ∷ log))

open_all-opens :
    (k : Kernel) (m : OpenMode) (fs : List Bytes) (log : List Event) {fds : List ℕ}
    → (open_all k m fs log).0 ≡ some fds
    → (descriptors (open_all k m fs log).1 ≡ descriptors log ++ fds)
      × (opens (open_all k m fs log).1 ≡ opens log ++ with_mode m fs)
      × ((j : ℕ) → received j (open_all k m fs log).1 ≡ received j log)
unfolding open_all
open_all-opens k m [] log {fds} e = (
  ground (arith, append-nil (descriptors log)),
  ground (arith, append-nil (opens log)),
  λ j. refl,
)
open_all-opens k m (f ∷ fs) log {fds} e = elim (Option-cases (k.open_file log f m)) [
  | inl p ↦ absurd (ground arith)
  | inr (fd, p) ↦
      let log' = opened f m fd ∷ log in
      elim (Option-cases (open_all k m fs log').0) [
        | inl q ↦ absurd (ground arith)
        | inr (rest, q) ↦
            let (ds, os, rs) = open_all-opens k m fs log' q in
            (
              ground (arith, ds, append_assoc (descriptors log) (fd ∷ []) rest),
              ground (arith, os, append_assoc (opens log) ((f, m) ∷ []) (with_mode m fs)),
              λ j. ground (arith, rs j),
            )
      ]
]

-- The mode that the options ask for
abbrev pub mode_of : List ℕ → OpenMode
mode_of [] = truncate
mode_of (o ∷ os) = append

parse_options-append :
    (opts : List ℕ) (flag r : Bool)
    → parse_options opts flag ≡ some r
    → (if r then append else truncate) ≡ (if flag then append else mode_of opts)
unfolding parse_options
parse_options-append [] flag r e = ground arith
parse_options-append (o ∷ os) flag r e = ground (arith, parse_options-append os true r)

-- The run from the first read on
run-received :
    (k : Kernel) (fds : List ℕ) (log : List Event)
    → (run k fds log).0 ≡ success
    → ((IsDistinct (stdout ∷ fds))
        → (j : ℕ)
        → received j (run k fds log).1
          ≡ (if contains j (stdout ∷ fds) then received j log ++ input k.reads else received j log))
      × SameOpens (run k fds log).1 log
unfolding run
run-received k fds log h =
    let c = copy_loop k fds k.reads log in
    (
      λ d j.
          ground (arith, copy_loop-received k fds k.reads j log d, close_all-received k fds j c.1),
      ground (arith, close_all-SameOpens k fds c.1, copy_loop-SameOpens k fds k.reads log),
    )

-- When `tee` reports success, it has opened exactly the files that it was given, in order, with
-- O_APPEND if an option was given and with O_TRUNC if not. If the descriptors are distinct and none
-- is the standard output, the standard output and each file have received the whole input once, and
-- no other descriptor has received anything.
pub main-received :
    (k : Kernel)
    → (main k).0 ≡ success
    → let log = (main k).1 in
      (opens log ≡ with_mode (mode_of k.options) k.files)
      × (IsDistinct (stdout ∷ descriptors log)
          → (j : ℕ)
          → received j log ≡ (if contains j (stdout ∷ descriptors log) then input k.reads else []))
unfolding main
main-received k h = elim (Option-cases (parse_options k.options false)) [
  | inl p ↦ absurd (ground arith)
  | inr (flag, p) ↦
      let m = if flag then append else truncate in
      elim (Option-cases (open_all k m k.files []).0) [
        | inl q ↦ absurd (ground arith)
        | inr (fds, q) ↦
            let o = open_all k m k.files [] in
            let (ds, os, rs) = open_all-opens k m k.files [] q in
            let done : (run k fds o.1).0 ≡ success = ground arith in
            let same : (main k).1 ≡ (run k fds o.1).1 = ground arith in
            let (takes, like) = run-received k fds o.1 done in
            let all : descriptors (run k fds o.1).1 ≡ fds = ground (arith, ds, like.0) in
            (
              ground (arith, same, like.1, os, parse_options-append k.options false flag p),
              rw same (λ d j.
                  ground (arith, rs j, takes (subst (λ r. IsDistinct (stdout ∷ r)) all d) j, all)),
            )
      ]
]
