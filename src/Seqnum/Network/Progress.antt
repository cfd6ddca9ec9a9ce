-- ===== src/Seqnum/Network/Progress.antt =====
-- chapter44: each step keeps the requests and the numbers of the clients that wait in their places.
use the_linux_programming_in.Prelude.{ℕ, ◌≡◌, ap, inl, inr, [], ◌∷◌, ◌++◌, arith, ◌==◌, Bool-cases}
use the_linux_programming_in.Prelude.{update}
use the_linux_programming_in.Prelude.Int.{ℤ}
use the_linux_programming_in.Seqnum.{Request, Round, short_read, no_fifo, short_write, replied}
use the_linux_programming_in.Seqnum.Network.{
  ServerPc, listening, opening, blocked, sending, closing, ClientPc, starting, registered, sent,
  reading, printed, gone, killed, State, request, Step, make_fifo, send, receive, open_fails,
  read_fails, open_errors, find_fifo, open_client, write, write_fails, advance, read_answer, fail,
  kill,
}
use the_linux_programming_in.Seqnum.Network.Refinement.{InStep}
use the_linux_programming_in.Prelude.{Has}
use the_linux_programming_in.Prelude.{Has-append_left, Has-append_right}
use mathlib.Core.Path.{subst}
use the_linux_programming_in.Seqnum.Network.Waiting.{
  Waits, AllWait, Others, OneEach, AtServer, IsDropped, Placed, IsLive, AllWait-update,
  AllWait-Others, AllWait-append, Others-append, OneEach-append,
}

module _ {len : ℕ → ℤ} {s : State} (v : IsLive len s) where
  -- A client that is not waiting has no request in the FIFO of the server.
  idle : (p : ℕ) (c : ClientPc) → s.client p ≡ c → ¬ Waits c → Others p s.queue
  idle p c e h = AllWait-Others s.client s.queue p v.queued (λ w. h (subst Waits e w))

  pub Step-AllWait : {u : State} → Step len s u → AllWait u.client u.queue
  Step-AllWait (make_fifo p e) =
      AllWait-update s.client s.queue p registered (inl (idle p starting e (λ w. w))) v.queued
  Step-AllWait (send p e) =
      AllWait-append (update s.client p sent) s.queue (request len p)
        (AllWait-update s.client s.queue p sent (inr tt) v.queued) (ground arith)
  Step-AllWait (receive r rest e q) = ground (arith, v.queued)
  Step-AllWait (open_fails r e h) = v.queued
  Step-AllWait (read_fails e) = v.queued
  Step-AllWait (open_errors r e) = v.queued
  Step-AllWait (find_fifo r e h) = v.queued
  Step-AllWait (open_client r e c) =
      AllWait-update s.client s.queue r.pid reading (inl ((subst (AtServer s) e v.at_server).1))
        v.queued
  Step-AllWait (write r e c) = v.queued
  Step-AllWait (write_fails r e c) = v.queued
  Step-AllWait (advance r e) = v.queued
  Step-AllWait (read_answer p n e m) =
      AllWait-update s.client s.queue p (printed n) (inl (idle p reading e (λ w. w))) v.queued
  Step-AllWait (fail p c) = AllWait-update s.client s.queue p gone (inr tt) v.queued
  Step-AllWait (kill p c) = AllWait-update s.client s.queue p killed (inr tt) v.queued

  pub Step-OneEach : {u : State} → Step len s u → OneEach u.queue
  Step-OneEach (make_fifo p e) = v.one_each
  Step-OneEach (send p e) =
      OneEach-append s.queue (request len p) v.one_each (idle p registered e (λ w. w))
  Step-OneEach (receive r rest e q) = ground (arith, v.one_each)
  Step-OneEach (open_fails r e h) = v.one_each
  Step-OneEach (read_fails e) = v.one_each
  Step-OneEach (open_errors r e) = v.one_each
  Step-OneEach (find_fifo r e h) = v.one_each
  Step-OneEach (open_client r e c) = v.one_each
  Step-OneEach (write r e c) = v.one_each
  Step-OneEach (write_fails r e c) = v.one_each
  Step-OneEach (advance r e) = v.one_each
  Step-OneEach (read_answer p n e m) = v.one_each
  Step-OneEach (fail p c) = v.one_each
  Step-OneEach (kill p c) = v.one_each

  at_send :
      (p : ℕ) (q : ServerPc)
      → s.client p ≡ registered
      → AtServer s q
      → AtServer
          (record s { client = update s.client p sent; queue = s.queue ++ (request len p ∷ []) })
          q
  at_send p (opening r) e (w, o) =
      (ground arith, Others-append r.pid s.queue (request len p) o (λ f. ground arith))
  at_send p (blocked r) e (w, o) =
      (ground arith, Others-append r.pid s.queue (request len p) o (λ f. ground arith))
  at_send p listening e h = tt
  at_send p (sending r) e h = tt
  at_send p (closing r) e h = tt

  pub Step-AtServer : {u : State} → Step len s u → AtServer u u.server
  Step-AtServer (make_fifo p e) = ground (arith, v.at_server)
  Step-AtServer (send p e) = at_send p s.server e v.at_server
  Step-AtServer (receive r rest e q) = ground (arith, v.queued, v.one_each)
  Step-AtServer (open_fails r e h) = tt
  Step-AtServer (read_fails e) = ground (arith, v.at_server)
  Step-AtServer (open_errors r e) = tt
  Step-AtServer (find_fifo r e h) = ground (arith, v.at_server)
  Step-AtServer (open_client r e c) = tt
  Step-AtServer (write r e c) = tt
  Step-AtServer (write_fails r e c) = tt
  Step-AtServer (advance r e) = tt
  Step-AtServer (read_answer p n e m) = ground (arith, v.at_server)
  Step-AtServer (fail p c) = ground (arith, v.at_server)
  Step-AtServer (kill p c) = ground (arith, v.at_server)

  -- A request that is gone stays so, and one is gone with the round that drops it.
  still-Dropped :
      (t : Round) (j : ℕ) → IsDropped len s j → Has (no_fifo (request len j)) (s.rounds ++ (t ∷ []))
  still-Dropped t j h = Has-append_left (no_fifo (request len j)) s.rounds (t ∷ []) h

  now-Dropped :
      (r : Request) (j : ℕ)
      → r ≡ request len j
      → Has (no_fifo (request len j)) (s.rounds ++ (no_fifo r ∷ []))
  now-Dropped r j e =
      Has-append_right (no_fifo (request len j)) s.rounds (no_fifo r ∷ []) (inl (ap no_fifo e))

  Placed-send :
      (p j : ℕ) (c : ClientPc)
      → Placed len s j c
      → Placed len
          (record s { client = update s.client p sent; queue = s.queue ++ (request len p ∷ []) })
          j
          c
  Placed-send p j sent (inl h) =
      inl (Has-append_left (request len j) s.queue (request len p ∷ []) h)
  Placed-send p j sent (inr h) = inr h
  Placed-send p j reading h = h
  Placed-send p j starting h = tt
  Placed-send p j registered h = tt
  Placed-send p j (printed n) h = tt
  Placed-send p j gone h = tt
  Placed-send p j killed h = tt

  pub Step-Placed :
      {u : State} → InStep len s s.server → Step len s u → (j : ℕ) → Placed len u j (u.client j)
  Step-Placed i (make_fifo p e) j = ground (arith, v.placed j)
  Step-Placed i (send p e) j =
      let u = (record s {
        client = update s.client p sent;
        queue = s.queue ++ (request len p ∷ []);
      }) in
      elim (Bool-cases (p == j)) [
        | inl y ↦
            let here : p ≡ j = ground arith in
            let now : sent ≡ u.client j = ground arith in
            subst (Placed len u j) now (
              inl (
                Has-append_right (request len j) s.queue (request len p ∷ [])
                  (inl (ap (request len) here))))
        | inr o ↦
            let same : s.client j ≡ u.client j = ground arith in
            subst (Placed len u j) same (Placed-send p j (s.client j) (v.placed j))
      ]
  Step-Placed i (receive r rest e q) j = ground (arith, v.placed j)
  Step-Placed i (open_fails r e h) j = ground (arith, v.placed j, still-Dropped (no_fifo r) j)
  Step-Placed i (read_fails e) j = ground (arith, v.placed j, still-Dropped short_read j)
  Step-Placed i (open_errors r e) j =
      ground (arith, v.placed j, still-Dropped (no_fifo r) j, now-Dropped r j)
  Step-Placed i (find_fifo r e h) j = ground (arith, v.placed j)
  Step-Placed i (open_client r e c) j = ground (arith, v.placed j, i)
  Step-Placed i (write r e c) j = ground (arith, v.placed j, still-Dropped (replied r) j)
  Step-Placed i (write_fails r e c) j = ground (arith, v.placed j, still-Dropped (short_write r) j)
  Step-Placed i (advance r e) j = ground (arith, v.placed j)
  Step-Placed i (read_answer p n e m) j = ground (arith, v.placed j)
  Step-Placed i (fail p c) j = ground (arith, v.placed j)
  Step-Placed i (kill p c) j = ground (arith, v.placed j)
