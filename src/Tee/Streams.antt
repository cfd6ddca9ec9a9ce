-- ===== src/Tee/Streams.antt =====
-- chapter4/tee.c: what each descriptor receives.
use the_linux_programming_in.Prelude.{
  ℕ, ◌≡◌, refl, ap, inl, inr, Bool, true, false, ◌||◌, Option, none, some, List, [], ◌∷◌, ◌++◌,
  append_assoc, append-nil, arith, ◌==◌, if◌then◌else◌, Option-cases, length, take, Bytes,
}
use the_linux_programming_in.Tee.{
  Event, opened, wrote, closed, Kernel, stdout, write, write_all, copy_loop, close_all,
}

-- The bytes that a descriptor has taken, in order; the latest event is first in the log.
abbrev pub received : ℕ → List Event → Bytes
received fd [] = []
received fd (wrote j b ∷ log) = if j == fd then received fd log ++ b else received fd log
received fd (opened f m j ∷ log) = received fd log
received fd (closed j ∷ log) = received fd log

-- The input up to its end
abbrev pub input : List (Option Bytes) → Bytes
input [] = []
input (none ∷ rs) = []
input (some [] ∷ rs) = []
input (some (c ∷ cs) ∷ rs) = (c ∷ cs) ++ input rs

abbrev pub contains : ℕ → List ℕ → Bool
contains j [] = false
contains j (x ∷ xs) = x == j || contains j xs

-- No descriptor is there twice.
abbrev pub IsDistinct : List ℕ → Type 0
IsDistinct [] = Unit
IsDistinct (x ∷ xs) = (contains x xs ≡ false) × IsDistinct xs

take_all : (b : Bytes) → take (length b) b ≡ b
take_all [] = refl
take_all (c ∷ b) = ap (λ r. c ∷ r) (take_all b)

write-received :
    (k : Kernel) (fd j : ℕ) (b : Bytes) (log : List Event)
    → (write k fd b log).0 ≡ true
    → received j (write k fd b log).1 ≡ (if fd == j then received j log ++ b else received j log)
unfolding write
write-received k fd j b log h = elim (Option-cases (k.accepts log fd b)) [
  | inl e ↦ ground arith
  | inr (n, e) ↦
      let all : n ≡ length b = ground arith in ground (arith, take_all b, ap (λ m. take m b) all)
]

-- A buffer that goes out to distinct descriptors reaches each of them once, and no other.
write_all-received :
    (k : Kernel) (fds : List ℕ) (j : ℕ) (b : Bytes) (log : List Event)
    → IsDistinct fds
    → (write_all k fds b log).0 ≡ true
    → received j (write_all k fds b log).1
      ≡ (if contains j fds then received j log ++ b else received j log)
unfolding write_all
write_all-received k [] j b log d h = refl
write_all-received k (fd ∷ fds) j b log d h =
    let w = write k fd b log in
    ground (arith, write-received k fd j b log, write_all-received k fds j b w.1 d.1)

pub copy_loop-received :
    (k : Kernel) (fds : List ℕ) (rs : List (Option Bytes)) (j : ℕ) (log : List Event)
    → IsDistinct (stdout ∷ fds)
    → (copy_loop k fds rs log).0 ≡ true
    → received j (copy_loop k fds rs log).1
      ≡ (if contains j (stdout ∷ fds) then received j log ++ input rs else received j log)
unfolding copy_loop
copy_loop-received k fds [] j log d h = ground (arith, append-nil (received j log))
copy_loop-received k fds (none ∷ rs) j log d h = cc
copy_loop-received k fds (some [] ∷ rs) j log d h = ground (arith, append-nil (received j log))
copy_loop-received k fds (some (c ∷ cs) ∷ rs) j log d h =
    let w = write_all k (stdout ∷ fds) (c ∷ cs) log in
    ground (
      arith,
      write_all-received k (stdout ∷ fds) j (c ∷ cs) log d,
      copy_loop-received k fds rs j w.1 d,
      append_assoc (received j log) (c ∷ cs) (input rs),
    )

pub close_all-received :
    (k : Kernel) (fds : List ℕ) (j : ℕ) (log : List Event)
    → received j (close_all k fds log).1 ≡ received j log
unfolding close_all
close_all-received k [] j log = refl
close_all-received k (fd ∷ fds) j log = ground (arith, close_all-received k fds j (closed fd ∷ log))
