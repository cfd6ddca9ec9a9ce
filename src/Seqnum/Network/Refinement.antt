-- ===== src/Seqnum/Network/Refinement.antt =====
-- chapter44: what the clients print is what the loop of the server, on its rounds so far, gives them.
use the_linux_programming_in.Prelude.{
  ℕ, ◌≡◌, refl, sym, inl, inr, true, some, List, [], ◌∷◌, ◌++◌, arith, ◌==◌, Bool-cases,
}
use the_linux_programming_in.Prelude.Int.{ℤ, pos, ◌+ℤ◌}
use the_linux_programming_in.Seqnum.{
  Request, Round, short_read, no_fifo, short_write, replied, reply_to, serve,
}
use the_linux_programming_in.Seqnum.Network.{
  ServerPc, listening, opening, blocked, sending, closing, printed, State, init, request, Step,
  make_fifo, send, receive, open_fails, read_fails, open_errors, find_fifo, open_client, write,
  write_fails, advance, read_answer, fail, kill,
}
use the_linux_programming_in.Seqnum.Network.Rounds.{
  replies, next_num, grown, short_read-next_num, no_fifo-next_num, short_write-next_num,
  replied-next_num, Has-replied,
}
use the_linux_programming_in.Prelude.{Has}
use the_linux_programming_in.Prelude.{Run, Run-keeps}
use mathlib.Core.Path.{subst}

-- The server has written the number n to the client p.
abbrev pub Given : (ℕ → ℤ) → List Round → ℕ → ℤ → Type 0
Given len rs p n = Has (reply_to (request len p) n true) (replies rs)

abbrev pub Own : (ℕ → ℤ) → Request → Type 0
Own len r = request len r.pid ≡ r

abbrev pub AllOwn : (ℕ → ℤ) → List Request → Type 0
AllOwn len [] = Unit
AllOwn len (r ∷ rs) = Own len r × AllOwn len rs

-- `seqNum` is the sum that the loop has, but for the step that a round has still to take.
abbrev pub InStep : (ℕ → ℤ) → State → ServerPc → Type 0
InStep len s listening = s.seq_num ≡ next_num s.rounds
InStep len s (opening r) = (s.seq_num ≡ next_num s.rounds) × Own len r
InStep len s (blocked r) = (s.seq_num ≡ next_num s.rounds) × Own len r
InStep len s (sending r) = (s.seq_num ≡ next_num s.rounds) × Own len r
InStep len s (closing r) = s.seq_num +ℤ r.seq_len ≡ next_num s.rounds

pub record IsValid (len : ℕ → ℤ) (s : State) : Type 0 where
  pub in_step : InStep len s s.server
  pub queued : AllOwn len s.queue
  pub mailed : (p : ℕ) (n : ℤ) → s.mail p ≡ some n → Given len s.rounds p n
  pub shown : (p : ℕ) (n : ℤ) → s.client p ≡ printed n → Given len s.rounds p n

pub init-IsValid : (len : ℕ → ℤ) → IsValid len init
unfolding serve
init-IsValid len = record {
  in_step = refl;
  queued = tt;
  mailed = λ p n e. ground arith;
  shown = λ p n e. ground arith;
}

pub AllOwn-append :
    (len : ℕ → ℤ) (rs ts : List Request) → AllOwn len rs → AllOwn len ts → AllOwn len (rs ++ ts)
AllOwn-append len [] ts h k = k
AllOwn-append len (r ∷ rs) ts (h, hs) k = (h, AllOwn-append len rs ts hs k)

module _ {len : ℕ → ℤ} {s : State} (v : IsValid len s) where
  Step-InStep : {u : State} → Step len s u → InStep len u u.server
  Step-InStep (make_fifo p e) = v.in_step
  Step-InStep (send p e) = v.in_step
  Step-InStep (receive r rest e q) = ground (arith, v.in_step, v.queued)
  Step-InStep (open_fails r e h) = ground (arith, v.in_step, no_fifo-next_num s.rounds r)
  Step-InStep (read_fails e) = ground (arith, v.in_step, short_read-next_num s.rounds)
  Step-InStep (open_errors r e) = ground (arith, v.in_step, no_fifo-next_num s.rounds r)
  Step-InStep (find_fifo r e h) = ground (arith, v.in_step)
  Step-InStep (open_client r e c) = ground (arith, v.in_step)
  Step-InStep (write r e c) = ground (arith, v.in_step, replied-next_num s.rounds r)
  Step-InStep (write_fails r e c) = ground (arith, v.in_step, short_write-next_num s.rounds r)
  Step-InStep (advance r e) = ground (arith, v.in_step)
  Step-InStep (read_answer p n e m) = v.in_step
  Step-InStep (fail p c) = v.in_step
  Step-InStep (kill p c) = v.in_step

  Step-AllOwn : {u : State} → Step len s u → AllOwn len u.queue
  Step-AllOwn (make_fifo p e) = v.queued
  Step-AllOwn (send p e) = AllOwn-append len s.queue (request len p ∷ []) v.queued (refl, tt)
  Step-AllOwn (receive r rest e q) = ground (arith, v.queued)
  Step-AllOwn (open_fails r e h) = v.queued
  Step-AllOwn (read_fails e) = v.queued
  Step-AllOwn (open_errors r e) = v.queued
  Step-AllOwn (find_fifo r e h) = v.queued
  Step-AllOwn (open_client r e c) = v.queued
  Step-AllOwn (write r e c) = v.queued
  Step-AllOwn (write_fails r e c) = v.queued
  Step-AllOwn (advance r e) = v.queued
  Step-AllOwn (read_answer p n e m) = v.queued
  Step-AllOwn (fail p c) = v.queued
  Step-AllOwn (kill p c) = v.queued

  -- The number that the server writes in a round
  Given-now :
      (r : Request)
      → s.server ≡ sending r
      → Given len (s.rounds ++ (replied r ∷ [])) r.pid s.seq_num
  Given-now r e =
      let (same, own) = subst (InStep len s) e v.in_step in
      let after = s.rounds ++ (replied r ∷ []) in
      subst (λ x. Has (reply_to x s.seq_num true) (replies after)) (sym own)
        (subst (λ n. Has (reply_to r n true) (replies after)) (sym same) (Has-replied s.rounds r))

  -- The same number for the same client
  same-Given :
      (rs : List Round) (p q : ℕ) (m n : ℤ) → p ≡ q → m ≡ n → Given len rs p m → Given len rs q n
  same-Given rs p q m n e f h = subst (λ x. Given len rs x n) e (subst (λ y. Given len rs p y) f h)

  Step-mailed :
      {u : State} → Step len s u → (p : ℕ) (n : ℤ) → u.mail p ≡ some n → Given len u.rounds p n
  Step-mailed (make_fifo q e) p n h = v.mailed p n h
  Step-mailed (send q e) p n h = v.mailed p n h
  Step-mailed (receive r rest e q) p n h = v.mailed p n h
  Step-mailed (open_fails r e no_one) p n h = grown s.rounds (no_fifo r) _ (v.mailed p n h)
  Step-mailed (read_fails e) p n h = grown s.rounds short_read _ (v.mailed p n h)
  Step-mailed (open_errors r e) p n h = grown s.rounds (no_fifo r) _ (v.mailed p n h)
  Step-mailed (find_fifo r e c) p n h = v.mailed p n h
  Step-mailed (open_client r e c) p n h = v.mailed p n h
  Step-mailed (write r e c) p n h = elim (Bool-cases (r.pid == p)) [
    | inl y ↦
        same-Given (s.rounds ++ (replied r ∷ [])) r.pid p s.seq_num n (ground arith) (ground arith)
          (Given-now r e)
    | inr o ↦ grown s.rounds (replied r) _ (v.mailed p n (ground arith))
  ]
  Step-mailed (write_fails r e c) p n h = grown s.rounds (short_write r) _ (v.mailed p n h)
  Step-mailed (advance r e) p n h = v.mailed p n h
  Step-mailed (read_answer q m e f) p n h = v.mailed p n (ground arith)
  Step-mailed (fail q c) p n h = v.mailed p n (ground arith)
  Step-mailed (kill q c) p n h = v.mailed p n (ground arith)

  Step-shown :
      {u : State} → Step len s u → (p : ℕ) (n : ℤ) → u.client p ≡ printed n → Given len u.rounds p n
  Step-shown (make_fifo q e) p n h = v.shown p n (ground arith)
  Step-shown (send q e) p n h = v.shown p n (ground arith)
  Step-shown (receive r rest e q) p n h = v.shown p n h
  Step-shown (open_fails r e no_one) p n h = grown s.rounds (no_fifo r) _ (v.shown p n h)
  Step-shown (read_fails e) p n h = grown s.rounds short_read _ (v.shown p n h)
  Step-shown (open_errors r e) p n h = grown s.rounds (no_fifo r) _ (v.shown p n h)
  Step-shown (find_fifo r e c) p n h = v.shown p n h
  Step-shown (open_client r e c) p n h = v.shown p n (ground arith)
  Step-shown (write r e c) p n h = grown s.rounds (replied r) _ (v.shown p n h)
  Step-shown (write_fails r e c) p n h = grown s.rounds (short_write r) _ (v.shown p n h)
  Step-shown (advance r e) p n h = v.shown p n h
  Step-shown (read_answer q m e f) p n h = elim (Bool-cases (q == p)) [
    | inl y ↦ same-Given s.rounds q p m n (ground arith) (ground arith) (v.mailed q m f)
    | inr o ↦ v.shown p n (ground arith)
  ]
  Step-shown (fail q c) p n h = v.shown p n (ground arith)
  Step-shown (kill q c) p n h = v.shown p n (ground arith)

pub Step-IsValid : (len : ℕ → ℤ) (s u : State) → IsValid len s → Step len s u → IsValid len u
Step-IsValid len s u v x = record {
  in_step = Step-InStep v x;
  queued = Step-AllOwn v x;
  mailed = Step-mailed v x;
  shown = Step-shown v x;
}

-- In every run of the server with its clients, whatever they do: while the server waits for a request,
-- its number is the one that the loop `serve` comes to on the rounds so far, and each number that a
-- client prints is one that `serve` gives to that client on these rounds, for the count that it asks
-- for, and that is written.
pub Run-serve :
    (len : ℕ → ℤ) (k : ℕ) (s : State)
    → Run (Step len) init k s
    → (s.server ≡ listening → s.seq_num ≡ (serve s.rounds (pos 0)).1)
      × ((p : ℕ) (n : ℤ)
          → s.client p ≡ printed n
          → Has (reply_to (request len p) n true) (serve s.rounds (pos 0)).0)
Run-serve len k s r =
    let v = Run-keeps (IsValid len) (Step-IsValid len) (init-IsValid len) r in
    (λ e. subst (InStep len s) e v.in_step, v.shown)
