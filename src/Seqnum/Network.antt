-- ===== src/Seqnum/Network.antt =====
-- chapter44/fifo_seqnum_server.c and fifo_seqnum_client.c: the server and any number of clients, with
-- the FIFOs between them. Here stand the states and the steps; the children hold the proofs. Each
-- process ID is used for one client.
mod Rounds
pub mod Refinement
pub mod Disjoint
mod Waiting
mod Progress
pub mod Deadlock
mod Tests
use the_linux_programming_in.Prelude.{
  ℕ, zero, suc, ◌+◌, ◌-◌, ◌*◌, ◌/◌, ◌%◌, ◌^◌, ◌≤◌, ◌<◌, ◌≡◌, refl, sym, ap, ◌∙◌, ◌≢◌, ◌↔◌, ◌⊎◌, inl,
  inr, Bool, true, false, ◌&&◌, ◌||◌, not, Option, none, some, List, [], ◌∷◌, ◌++◌, map,
  append_assoc, append-nil, arith, ltb, leb, ◌==◌, if◌then◌else◌, ltb→lt, lt→ltb, leb→le, ==_iff,
  Bool-cases, Option-cases, length, get_elem?, set, length-append, length-set, get_elem?-set_self,
  get_elem?-set_ne, get_or, take, drop, replicate, length-map, Bytes, bytes_eq, bytes_eq_refl,
  bytes_eq_sound, bytes_eq_ne,
}
use the_linux_programming_in.Prelude.{update}
use the_linux_programming_in.Prelude.Int.{ℤ, pos, ◌+ℤ◌, ◌≤ℤ◌, pos_part, neg_part, int_laws}
use the_linux_programming_in.Seqnum.{
  Request, Round, short_read, no_fifo, short_write, replied, Reply, reply_to, serve,
}

-- Where the server is in its loop
pub data ServerPc : Type 0 where
  listening : ServerPc  -- in `read`
  opening : Request → ServerPc  -- at `open` of the client's FIFO
  blocked : Request → ServerPc  -- in it: the FIFO is there, and `open` waits for a reader
  sending : Request → ServerPc
  closing : Request → ServerPc  -- `write` has returned, `seqNum` is not stepped yet

-- Where a client is
pub data ClientPc : Type 0 where
  starting : ClientPc
  registered : ClientPc  -- its FIFO is made, and the exit handler registered
  sent : ClientPc  -- the request is written, and it is in `open` of its FIFO
  reading : ClientPc
  printed : ℤ → ClientPc  -- it has printed its number, and exits
  gone : ClientPc  -- it has failed, and has removed its FIFO
  killed : ClientPc  -- by a signal: its FIFO is still there

pub record State : Type 0 where
  pub server : ServerPc
  pub seq_num : ℤ
  pub queue : List Request  -- what the server's FIFO holds
  pub client : ℕ → ClientPc
  pub mail : ℕ → Option ℤ  -- what the FIFO of a client holds
  pub rounds : List Round  -- the rounds of the server so far, for the proofs

abbrev pub init : State
init = record {
  server = listening;
  seq_num = pos 0;
  queue = [];
  client = λ p. starting;
  mail = λ p. none;
  rounds = [];
}

-- The request of a client, with the number of its argument
abbrev pub request : (ℕ → ℤ) → ℕ → Request
request len p = record { pid = p; seq_len = len p }

-- There is no FIFO of the client.
abbrev pub NoFifo : ClientPc → Type 0
NoFifo starting = Unit
NoFifo (printed n) = Unit
NoFifo gone = Unit
NoFifo c = ⊥

-- No process has the client's FIFO open for reading.
abbrev pub NoReader : ClientPc → Type 0
NoReader reading = ⊥
NoReader c = Unit

-- A client can fail once its FIFO is made, and as long as it has not printed its number.
abbrev pub CanFail : ClientPc → Type 0
CanFail registered = Unit
CanFail sent = Unit
CanFail reading = Unit
CanFail c = ⊥

-- A step of the server or of a client. A request is shorter than PIPE_BUF, so it is written whole;
-- `open` finds the FIFO, and waits for the other end, or fails: where there is no FIFO, or for want of
-- some resource. One that waits goes on waiting when the FIFO is removed.
pub data Step (len : ℕ → ℤ) (s : State) : State → Type 0 where
  make_fifo :
      (p : ℕ)
      → s.client p ≡ starting
      → Step len s (record s { client = update s.client p registered })
  send :
      (p : ℕ)
      → s.client p ≡ registered
      → Step len s
          (record s { client = update s.client p sent; queue = s.queue ++ (request len p ∷ []) })
  read_fails :
      s.server ≡ listening → Step len s (record s { rounds = s.rounds ++ (short_read ∷ []) })
  receive :
      (r : Request) (rest : List Request)
      → s.server ≡ listening
      → s.queue ≡ r ∷ rest
      → Step len s (record s { server = opening r; queue = rest })
  open_fails :
      (r : Request)
      → s.server ≡ opening r
      → NoFifo (s.client r.pid)
      → Step len s (record s { server = listening; rounds = s.rounds ++ (no_fifo r ∷ []) })
  open_errors :
      (r : Request)
      → s.server ≡ opening r
      → Step len s (record s { server = listening; rounds = s.rounds ++ (no_fifo r ∷ []) })
  find_fifo :
      (r : Request)
      → s.server ≡ opening r
      → ¬ NoFifo (s.client r.pid)
      → Step len s (record s { server = blocked r })
  open_client :
      (r : Request)
      → s.server ≡ blocked r
      → s.client r.pid ≡ sent
      → Step len s (record s { server = sending r; client = update s.client r.pid reading })
  write :
      (r : Request)
      → s.server ≡ sending r
      → s.client r.pid ≡ reading
      → Step len s (record s {
        server = closing r;
        mail = update s.mail r.pid (some s.seq_num);
        rounds = s.rounds ++ (replied r ∷ []);
      })
  write_fails :
      (r : Request)
      → s.server ≡ sending r
      → NoReader (s.client r.pid)
      → Step len s (record s { server = closing r; rounds = s.rounds ++ (short_write r ∷ []) })
  advance :
      (r : Request)
      → s.server ≡ closing r
      → Step len s (record s { server = listening; seq_num = s.seq_num +ℤ r.seq_len })
  read_answer :
      (p : ℕ) (n : ℤ)
      → s.client p ≡ reading
      → s.mail p ≡ some n
      → Step len s
          (record s { client = update s.client p (printed n); mail = update s.mail p none })
  fail :
      (p : ℕ)
      → CanFail (s.client p)
      → Step len s (record s { client = update s.client p gone; mail = update s.mail p none })
  kill :
      (p : ℕ)
      → CanFail (s.client p)
      → Step len s (record s { client = update s.client p killed; mail = update s.mail p none })
