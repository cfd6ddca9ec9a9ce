-- ===== src/Seqnum/Network/Deadlock.antt =====
-- chapter44: what a client that waits for its number can be left waiting for.
use the_linux_programming_in.Prelude.{
  ℕ, ◌≡◌, refl, sym, ◌≢◌, ◌⊎◌, inl, inr, List, [], ◌∷◌, arith, Option-cases,
}
use the_linux_programming_in.Prelude.Int.{ℤ}
use the_linux_programming_in.Seqnum.{Request}
use the_linux_programming_in.Seqnum.Network.{
  ServerPc, listening, opening, blocked, sending, closing, ClientPc, starting, registered, sent,
  reading, printed, gone, killed, State, init, request, NoFifo, NoReader, Step, make_fifo, send,
  receive, open_fails, read_fails, open_errors, find_fifo, open_client, write, write_fails, advance,
  read_answer, fail, kill,
}
use the_linux_programming_in.Seqnum.Network.Refinement.{IsValid, init-IsValid, Step-IsValid}
use the_linux_programming_in.Seqnum.Network.Waiting.{Waits, AtServer, IsDropped, Placed, IsLive}
use the_linux_programming_in.Seqnum.Network.Progress.{
  Step-AllWait, Step-OneEach, Step-AtServer, Step-Placed,
}
use the_linux_programming_in.Prelude.{Has, update}
use the_linux_programming_in.Prelude.{Run, Run-keeps}
use mathlib.Core.Path.{subst}

-- A client that waits for its number, its request written
abbrev pub InFlight : ClientPc → Type 0
InFlight sent = Unit
InFlight reading = Unit
InFlight c = ⊥

-- A step on the way of a request and its number. None of these brings a new request or ends a client,
-- and in none does a call fail but an `open` without a FIFO and a `write` without a reader.
abbrev pub Works : {len : ℕ → ℤ} {s u : State} → Step len s u → Type 0
Works (make_fifo p e) = ⊥
Works (send p e) = ⊥
Works (read_fails e) = ⊥
Works (open_errors r e) = ⊥
Works (fail p c) = ⊥
Works (kill p c) = ⊥
Works x = Unit

abbrev pub Moves : (ℕ → ℤ) → State → Type 0
Moves len s = (u : State) × (x : Step len s u) × Works x

abbrev pub Lost : ClientPc → Type 0
Lost gone = Unit
Lost killed = Unit
Lost c = ⊥

-- The server is in `open` of the FIFO of a client that is no more.
abbrev pub IsStuck : State → Request → Type 0
IsStuck s r = (s.server ≡ blocked r) × Lost (s.client r.pid)

abbrev Stuck : State → Type 0
Stuck s = (r : Request) × IsStuck s r

abbrev GoesOn : (ℕ → ℤ) → State → Type 0
GoesOn len s = Moves len s ⊎ Stuck s

init-IsLive : (len : ℕ → ℤ) → IsLive len init
init-IsLive len = record { queued = tt; one_each = tt; at_server = tt; placed = λ p. tt }

abbrev Both : (ℕ → ℤ) → State → Type 0
Both len s = IsValid len s × IsLive len s

Step-Both : (len : ℕ → ℤ) (s u : State) → Both len s → Step len s u → Both len u
Step-Both len s u (v, w) x = (
  Step-IsValid len s u v x,
  record {
    queued = Step-AllWait w x;
    one_each = Step-OneEach w x;
    at_server = Step-AtServer w x;
    placed = Step-Placed w v.in_step x;
  },
)

opening-Moves :
    (len : ℕ → ℤ) (s : State) (r : Request) (c : ClientPc)
    → s.server ≡ opening r
    → s.client r.pid ≡ c
    → Waits c
    → Moves len s
opening-Moves len s r sent e f w = (_, find_fifo r e (subst (λ c. ¬ NoFifo c) (sym f) (λ x. x)), tt)
opening-Moves len s r gone e f w = (_, open_fails r e (subst NoFifo (sym f) tt), tt)
opening-Moves len s r killed e f w =
    (_, find_fifo r e (subst (λ c. ¬ NoFifo c) (sym f) (λ x. x)), tt)
opening-Moves len s r starting e f w = absurd w
opening-Moves len s r registered e f w = absurd w
opening-Moves len s r reading e f w = absurd w
opening-Moves len s r (printed n) e f w = absurd w

blocked-GoesOn :
    (len : ℕ → ℤ) (s : State) (r : Request) (c : ClientPc)
    → s.server ≡ blocked r
    → s.client r.pid ≡ c
    → Waits c
    → GoesOn len s
blocked-GoesOn len s r sent e f w = inl (_, open_client r e f, tt)
blocked-GoesOn len s r gone e f w = inr (r, (e, subst Lost (sym f) tt))
blocked-GoesOn len s r killed e f w = inr (r, (e, subst Lost (sym f) tt))
blocked-GoesOn len s r starting e f w = absurd w
blocked-GoesOn len s r registered e f w = absurd w
blocked-GoesOn len s r reading e f w = absurd w
blocked-GoesOn len s r (printed n) e f w = absurd w

sending-Moves :
    (len : ℕ → ℤ) (s : State) (r : Request) (c : ClientPc)
    → s.server ≡ sending r
    → s.client r.pid ≡ c
    → Moves len s
sending-Moves len s r reading e f = (_, write r e f, tt)
sending-Moves len s r sent e f = (_, write_fails r e (subst NoReader (sym f) tt), tt)
sending-Moves len s r gone e f = (_, write_fails r e (subst NoReader (sym f) tt), tt)
sending-Moves len s r killed e f = (_, write_fails r e (subst NoReader (sym f) tt), tt)
sending-Moves len s r starting e f = (_, write_fails r e (subst NoReader (sym f) tt), tt)
sending-Moves len s r registered e f = (_, write_fails r e (subst NoReader (sym f) tt), tt)
sending-Moves len s r (printed n) e f = (_, write_fails r e (subst NoReader (sym f) tt), tt)

-- The server goes on, unless it listens on an empty FIFO.
server-GoesOn :
    (len : ℕ → ℤ) (s : State) (q : ServerPc) (rs : List Request)
    → s.server ≡ q
    → s.queue ≡ rs
    → IsLive len s
    → (q ≢ listening) ⊎ (rs ≢ [])
    → GoesOn len s
server-GoesOn len s listening [] e f v (inl ne) = absurd (ne refl)
server-GoesOn len s listening [] e f v (inr ne) = absurd (ne refl)
server-GoesOn len s listening (r ∷ rs) e f v ne = inl (_, receive r rs e f, tt)
server-GoesOn len s (opening r) rs e f v ne =
    inl (opening-Moves len s r (s.client r.pid) e refl (subst (AtServer s) e v.at_server).0)
server-GoesOn len s (blocked r) rs e f v ne =
    blocked-GoesOn len s r (s.client r.pid) e refl (subst (AtServer s) e v.at_server).0
server-GoesOn len s (sending r) rs e f v ne = inl (sending-Moves len s r (s.client r.pid) e refl)
server-GoesOn len s (closing r) rs e f v ne = inl (_, advance r e, tt)

client-GoesOn :
    (len : ℕ → ℤ) (s : State) (p : ℕ) (c : ClientPc)
    → s.client p ≡ c
    → Placed len s p c
    → IsLive len s
    → InFlight c
    → IsDropped len s p ⊎ GoesOn len s
client-GoesOn len s p sent e (inl there) v w = inr (
    server-GoesOn len s s.server s.queue refl refl v
      (inr (λ q. subst (Has (request len p)) q there)))
client-GoesOn len s p sent e (inr (inl (inl at))) v w =
    inr (server-GoesOn len s s.server s.queue refl refl v (inl (λ q. ground arith)))
client-GoesOn len s p sent e (inr (inl (inr at))) v w =
    inr (server-GoesOn len s s.server s.queue refl refl v (inl (λ q. ground arith)))
client-GoesOn len s p sent e (inr (inr gone_by)) v w = inl gone_by
client-GoesOn len s p reading e (inl at) v w =
    inr (server-GoesOn len s s.server s.queue refl refl v (inl (λ q. ground arith)))
client-GoesOn len s p reading e (inr there) v w = elim (Option-cases (s.mail p)) [
  | inl empty ↦ absurd (there empty)
  | inr (n, f) ↦ inr (inl (_, read_answer p n e f, tt))
]
client-GoesOn len s p registered e h v w = absurd w
client-GoesOn len s p starting e h v w = absurd w
client-GoesOn len s p (printed n) e h v w = absurd w
client-GoesOn len s p gone e h v w = absurd w
client-GoesOn len s p killed e h v w = absurd w

-- A client that is no more stays so.
update-Lost :
    (c : ℕ → ClientPc) (p q : ℕ) (d : ClientPc)
    → (p ≢ q) ⊎ Lost d
    → Lost (c q)
    → Lost (update c p d q)
update-Lost c p q d (inl ne) w = ground arith
update-Lost c p q d (inr l) w = ground (arith, l)

not-Lost :
    (s : State) (p q : ℕ) (c : ClientPc) → s.client p ≡ c → ¬ Lost c → Lost (s.client q) → p ≢ q
not-Lost s p q c e h w y = h (subst Lost e (subst (λ x. Lost (s.client x)) (sym y) w))

Step-IsStuck : (len : ℕ → ℤ) (r : Request) (s u : State) → IsStuck s r → Step len s u → IsStuck u r
Step-IsStuck len r s u (b, w) (make_fifo p e) =
    (b, update-Lost s.client p r.pid _ (inl (not-Lost s p r.pid _ e (λ x. x) w)) w)
Step-IsStuck len r s u (b, w) (send p e) =
    (b, update-Lost s.client p r.pid _ (inl (not-Lost s p r.pid _ e (λ x. x) w)) w)
Step-IsStuck len r s u (b, w) (read_fails e) = ground arith
Step-IsStuck len r s u (b, w) (receive q rest e f) = ground arith
Step-IsStuck len r s u (b, w) (open_fails q e h) = ground arith
Step-IsStuck len r s u (b, w) (open_errors q e) = ground arith
Step-IsStuck len r s u (b, w) (find_fifo q e h) = ground arith
Step-IsStuck len r s u (b, w) (open_client q e c) =
    absurd (not-Lost s q.pid r.pid _ c (λ x. x) w (ground arith))
Step-IsStuck len r s u (b, w) (write q e c) = ground arith
Step-IsStuck len r s u (b, w) (write_fails q e c) = ground arith
Step-IsStuck len r s u (b, w) (advance q e) = ground arith
Step-IsStuck len r s u (b, w) (read_answer p n e m) =
    (b, update-Lost s.client p r.pid _ (inl (not-Lost s p r.pid _ e (λ x. x) w)) w)
Step-IsStuck len r s u (b, w) (fail p c) = (b, update-Lost s.client p r.pid _ (inr tt) w)
Step-IsStuck len r s u (b, w) (kill p c) = (b, update-Lost s.client p r.pid _ (inr tt) w)

-- In every run, while a client that has written its request waits for its number, either the server has
-- failed to open the FIFO of that client in a round so far, or the request or number of some client can
-- be taken a step further with no call failing but an `open` without a FIFO and a `write` without a
-- reader, or the server is in `open` of the FIFO of a client that has failed or been killed, and then
-- it stays in that `open` in every continuation of the run.
pub network_goes_on :
    (len : ℕ → ℤ) (k p : ℕ) (s : State)
    → Run (Step len) init k s
    → InFlight (s.client p)
    → IsDropped len s p
      ⊎ (((u : State) × (x : Step len s u) × Works x)
          ⊎ ((r : Request) × IsStuck s r
              × ((j : ℕ) (u : State) → Run (Step len) s j u → IsStuck u r)))
network_goes_on len k p s r w =
    let (v, live) = Run-keeps (Both len) (Step-Both len) (init-IsValid len, init-IsLive len) r in
    elim (client-GoesOn len s p (s.client p) refl (live.placed p) live w) [
      | inl x ↦ inl x
      | inr (inl x) ↦ inr (inl x)
      | inr (inr (q, stuck)) ↦
          inr (inr (q, stuck, λ j u g. Run-keeps (λ t. IsStuck t q) (Step-IsStuck len q) stuck g))
    ]
