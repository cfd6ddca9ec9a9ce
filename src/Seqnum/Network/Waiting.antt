-- ===== src/Seqnum/Network/Waiting.antt =====
-- chapter44: where the requests and the numbers of the clients that wait are, as a predicate.
use the_linux_programming_in.Prelude.{
  ℕ, ◌≡◌, sym, ◌≢◌, ◌⊎◌, inl, inr, none, List, [], ◌∷◌, ◌++◌, arith,
}
use the_linux_programming_in.Prelude.{update}
use the_linux_programming_in.Prelude.Int.{ℤ}
use the_linux_programming_in.Seqnum.{Request, no_fifo}
use the_linux_programming_in.Seqnum.Network.{
  ServerPc, opening, blocked, sending, ClientPc, sent, reading, gone, killed, State, request,
}
use the_linux_programming_in.Prelude.{Has}
use mathlib.Core.Path.{subst}

-- A client whose request is on its way
abbrev pub Waits : ClientPc → Type 0
Waits sent = Unit
Waits gone = Unit
Waits killed = Unit
Waits c = ⊥

abbrev pub AllWait : (ℕ → ClientPc) → List Request → Type 0
AllWait c [] = Unit
AllWait c (r ∷ rs) = Waits (c r.pid) × AllWait c rs

abbrev pub Others : ℕ → List Request → Type 0
Others p [] = Unit
Others p (r ∷ rs) = (r.pid ≢ p) × Others p rs

abbrev pub OneEach : List Request → Type 0
OneEach [] = Unit
OneEach (r ∷ rs) = Others r.pid rs × OneEach rs

-- The request that the server is at, and the client of it
abbrev pub AtServer : State → ServerPc → Type 0
AtServer s (opening r) = Waits (s.client r.pid) × Others r.pid s.queue
AtServer s (blocked r) = Waits (s.client r.pid) × Others r.pid s.queue
AtServer s p = Unit

-- The server has failed to open the FIFO of the client, and its request is gone.
abbrev pub IsDropped : (ℕ → ℤ) → State → ℕ → Type 0
IsDropped len s p = Has (no_fifo (request len p)) s.rounds

-- Where the request of a client is, or its number
abbrev pub Placed : (ℕ → ℤ) → State → ℕ → ClientPc → Type 0
Placed len s p sent =
    Has (request len p) s.queue
    ⊎ (((s.server ≡ opening (request len p)) ⊎ (s.server ≡ blocked (request len p)))
        ⊎ IsDropped len s p)
Placed len s p reading = (s.server ≡ sending (request len p)) ⊎ (s.mail p ≢ none)
Placed len s p c = Unit

pub record IsLive (len : ℕ → ℤ) (s : State) : Type 0 where
  pub queued : AllWait s.client s.queue
  pub one_each : OneEach s.queue
  pub at_server : AtServer s s.server
  pub placed : (p : ℕ) → Placed len s p (s.client p)

pub AllWait-update :
    (c : ℕ → ClientPc) (rs : List Request) (p : ℕ) (d : ClientPc)
    → Others p rs ⊎ Waits d
    → AllWait c rs
    → AllWait (update c p d) rs
AllWait-update c [] p d h w = tt
AllWait-update c (r ∷ rs) p d (inl (ne, h)) (w, ws) =
    (ground arith, AllWait-update c rs p d (inl h) ws)
AllWait-update c (r ∷ rs) p d (inr h) (w, ws) = (ground arith, AllWait-update c rs p d (inr h) ws)

-- A client that does not wait has no request on its way.
pub AllWait-Others :
    (c : ℕ → ClientPc) (rs : List Request) (p : ℕ) → AllWait c rs → ¬ Waits (c p) → Others p rs
AllWait-Others c [] p w h = tt
AllWait-Others c (r ∷ rs) p (w, ws) h =
    (λ e. h (subst (λ q. Waits (c q)) e w), AllWait-Others c rs p ws h)

pub AllWait-append :
    (c : ℕ → ClientPc) (rs : List Request) (r : Request)
    → AllWait c rs
    → Waits (c r.pid)
    → AllWait c (rs ++ (r ∷ []))
AllWait-append c [] r w h = (h, tt)
AllWait-append c (x ∷ rs) r (w, ws) h = (w, AllWait-append c rs r ws h)

pub Others-append :
    (p : ℕ) (rs : List Request) (r : Request) → Others p rs → r.pid ≢ p → Others p (rs ++ (r ∷ []))
Others-append p [] r h ne = (ne, tt)
Others-append p (x ∷ rs) r (h, hs) ne = (h, Others-append p rs r hs ne)

pub OneEach-append :
    (rs : List Request) (r : Request) → OneEach rs → Others r.pid rs → OneEach (rs ++ (r ∷ []))
OneEach-append [] r h o = (tt, tt)
OneEach-append (x ∷ rs) r (h, hs) (o, os) =
    (Others-append x.pid rs r h (λ e. o (sym e)), OneEach-append rs r hs os)
