-- ===== src/Multijoin/Premises.antt =====
-- chapter30/thread_multijoin.c: the premises of a step, for proofs that treat many steps alike.
use the_linux_programming_in.Prelude.{ℕ, ◌≤◌, ◌<◌, ◌≡◌, ◌≢◌}
use the_linux_programming_in.Multijoin.{
  terminated, creating, created, reaping, locked, waiting, woken, scanning, started, ready, holding,
  counted, marked, signalling, finished, nobody, System, Step, create, advance, begin, acquire,
  leave, wait, spurious, retake, scan, join, pass, release, read, lock, count, mark, unlock, signal,
}

abbrev pub Premise : {n : ℕ} {s t : System} → Step n s t → Type 0
Premise {n} {s} (create p q) = (s.main ≡ creating) × (s.idx < n)
Premise {n} {s} (advance p) = s.main ≡ created
Premise {n} {s} (begin p q) = (s.main ≡ creating) × (n ≤ s.idx)
Premise {n} {s} (acquire p q o) = (s.main ≡ reaping) × (0 < s.num_live) × (s.mutex ≡ nobody)
Premise {n} {s} (leave p q) = (s.main ≡ reaping) × (s.num_live ≡ 0)
Premise {n} {s} (wait p q) = (s.main ≡ locked) × (s.num_unjoined ≡ 0)
Premise {n} {s} (spurious p) = s.main ≡ waiting
Premise {n} {s} (retake p o) = (s.main ≡ woken) × (s.mutex ≡ nobody)
Premise {n} {s} (scan p q) = (s.main ≡ locked) × (s.num_unjoined ≢ 0)
Premise {n} {s} (join k p q e f) =
    (s.main ≡ scanning) × (s.idx < n) × (s.state s.idx ≡ terminated) × (s.worker s.idx ≡ finished k)
Premise {n} {s} (pass p q e) = (s.main ≡ scanning) × (s.idx < n) × (s.state s.idx ≢ terminated)
Premise {n} {s} (release p q) = (s.main ≡ scanning) × (n ≤ s.idx)
Premise {n} {s} (read j p) = s.worker j ≡ started
Premise {n} {s} (lock j k p o) = (s.worker j ≡ ready k) × (s.mutex ≡ nobody)
Premise {n} {s} (count j k p) = s.worker j ≡ holding k
Premise {n} {s} (mark j k p q) = (s.worker j ≡ counted k) × (k < n)
Premise {n} {s} (unlock j k p) = s.worker j ≡ marked k
Premise {n} {s} (signal j k p) = s.worker j ≡ signalling k

pub premise : {n : ℕ} {s t : System} (st : Step n s t) → Premise st
premise (create p q) = (p, q)
premise (advance p) = p
premise (begin p q) = (p, q)
premise (acquire p q o) = (p, q, o)
premise (leave p q) = (p, q)
premise (wait p q) = (p, q)
premise (spurious p) = p
premise (retake p o) = (p, o)
premise (scan p q) = (p, q)
premise (join k p q e f) = (p, q, e, f)
premise (pass p q e) = (p, q, e)
premise (release p q) = (p, q)
premise (read j p) = p
premise (lock j k p o) = (p, o)
premise (count j k p) = p
premise (mark j k p q) = (p, q)
premise (unlock j k p) = p
premise (signal j k p) = p
