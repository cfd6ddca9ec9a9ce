-- ===== src/Tee/Success.antt =====
-- chapter4/tee.c: runs whose calls succeed.
use the_linux_programming_in.Prelude.{
  ℕ, ◌≡◌, refl, ◌≢◌, inl, inr, Bool, true, false, ◌&&◌, Option, none, some, List, [], ◌∷◌, arith,
  ◌==◌, if◌then◌else◌, Option-cases, length, Bytes,
}
use the_linux_programming_in.Tee.{
  OpenMode, append, truncate, Event, opened, closed, Kernel, success, stdout, parse_options,
  open_all, write, write_all, copy_loop, close_all, run, main,
}

abbrev pub all_a : List ℕ → Bool
all_a [] = true
all_a (o ∷ os) = o == b'a' && all_a os

abbrev pub all_read : List (Option Bytes) → Bool
all_read [] = true
all_read (none ∷ rs) = false
all_read (some b ∷ rs) = all_read rs

-- Each option is '-a', and each call succeeds; each write takes all of its bytes.
pub record Succeeds (k : Kernel) : Type 0 where
  pub options_good : all_a k.options ≡ true
  pub allocated : k.malloc_ok ≡ true
  pub opens_all : (log : List Event) (f : Bytes) (m : OpenMode) → k.open_file log f m ≢ none
  pub no_error : all_read k.reads ≡ true
  pub takes_all : (log : List Event) (fd : ℕ) (b : Bytes) → k.accepts log fd b ≡ some (length b)
  pub closes_all : (fd : ℕ) → k.close_ok fd ≡ true

parse_options_succeeds :
    (opts : List ℕ) (flag : Bool)
    → all_a opts ≡ true
    → (r : Bool) × (parse_options opts flag ≡ some r)
unfolding parse_options
parse_options_succeeds [] flag h = (flag, refl)
parse_options_succeeds (o ∷ os) flag h =
    let (r, e) = parse_options_succeeds os true (ground arith) in (r, ground arith)

open_all-Succeeds :
    (k : Kernel) (m : OpenMode) (fs : List Bytes) (log : List Event)
    → Succeeds k
    → (fds : List ℕ) × ((open_all k m fs log).0 ≡ some fds)
unfolding open_all
open_all-Succeeds k m [] log s = ([], refl)
open_all-Succeeds k m (f ∷ fs) log s = elim (Option-cases (k.open_file log f m)) [
  | inl p ↦ absurd (s.opens_all log f m p)
  | inr (fd, p) ↦
      let (fds, e) = open_all-Succeeds k m fs (opened f m fd ∷ log) s in (fd ∷ fds, ground arith)
]

write_all-Succeeds :
    (k : Kernel) (fds : List ℕ) (b : Bytes) (log : List Event)
    → Succeeds k
    → (write_all k fds b log).0 ≡ true
unfolding write_all write
write_all-Succeeds k [] b log s = refl
write_all-Succeeds k (fd ∷ fds) b log s =
    ground (arith, s.takes_all log fd b, write_all-Succeeds k fds b (write k fd b log).1 s)

copy_loop-Succeeds :
    (k : Kernel) (fds : List ℕ) (rs : List (Option Bytes)) (log : List Event)
    → Succeeds k
    → all_read rs ≡ true
    → (copy_loop k fds rs log).0 ≡ true
unfolding copy_loop
copy_loop-Succeeds k fds [] log s h = refl
copy_loop-Succeeds k fds (none ∷ rs) log s h = cc
copy_loop-Succeeds k fds (some [] ∷ rs) log s h = refl
copy_loop-Succeeds k fds (some (c ∷ cs) ∷ rs) log s h =
    let w = write_all k (stdout ∷ fds) (c ∷ cs) log in
    ground (
      arith,
      write_all-Succeeds k (stdout ∷ fds) (c ∷ cs) log s,
      copy_loop-Succeeds k fds rs w.1 s h,
    )

close_all-Succeeds :
    (k : Kernel) (fds : List ℕ) (log : List Event) → Succeeds k → (close_all k fds log).0 ≡ true
unfolding close_all
close_all-Succeeds k [] log s = refl
close_all-Succeeds k (fd ∷ fds) log s =
    ground (arith, s.closes_all fd, close_all-Succeeds k fds (closed fd ∷ log) s)

-- If every option is '-a' and every call succeeds, each write with all of its bytes, `tee` reports
-- success.
pub tee-Succeeds : (k : Kernel) → Succeeds k → (main k).0 ≡ success
unfolding main run
tee-Succeeds k s =
    let (flag, p) = parse_options_succeeds k.options false s.options_good in
    let m = if flag then append else truncate in
    let (fds, q) = open_all-Succeeds k m k.files [] s in
    let o = open_all k m k.files [] in
    ground (
      arith,
      s.allocated,
      copy_loop-Succeeds k fds k.reads o.1 s s.no_error,
      close_all-Succeeds k fds (copy_loop k fds k.reads o.1).1 s,
    )
