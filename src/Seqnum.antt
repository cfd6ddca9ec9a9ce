-- ===== src/Seqnum.antt =====
-- chapter44/fifo_seqnum_server.c and fifo_seqnum_client.c: a server hands out sequence numbers through
-- FIFOs. Here stand the data and the code; the children hold the proofs. The numbers have no bound: a
-- run in which `seqNum` leaves the range of `int` is undefined in C, and is not modelled.
pub mod Allocation
pub mod Cleanup
pub mod Network
mod Tests
use the_linux_programming_in.Prelude.{
  ℕ, zero, suc, ◌+◌, ◌-◌, ◌*◌, ◌/◌, ◌%◌, ◌^◌, ◌≤◌, ◌<◌, ◌≡◌, refl, sym, ap, ◌∙◌, ◌≢◌, ◌↔◌, ◌⊎◌, inl,
  inr, Bool, true, false, ◌&&◌, ◌||◌, not, Option, none, some, List, [], ◌∷◌, ◌++◌, map,
  append_assoc, append-nil, arith, ltb, leb, ◌==◌, if◌then◌else◌, ltb→lt, lt→ltb, leb→le, ==_iff,
  Bool-cases, Option-cases, length, get_elem?, set, length-append, length-set, get_elem?-set_self,
  get_elem?-set_ne, get_or, take, drop, replicate, length-map, Bytes, bytes_eq, bytes_eq_refl,
  bytes_eq_sound, bytes_eq_ne,
}
use the_linux_programming_in.Prelude.Int.{ℤ, pos, negsuc, ◌+ℤ◌}
use the_linux_programming_in.Prelude.Atoi.{atoi}

-- `struct request`; a `struct response` is its number.
pub record Request : Type 0 where
  pub pid : ℕ
  pub seq_len : ℤ

-- What the calls of one round of the server's loop return
pub data Round : Type 0 where
  short_read : Round  -- not a whole request
  no_fifo : Request → Round  -- the client's FIFO cannot be opened
  short_write : Request → Round  -- not a whole response
  replied : Request → Round

-- What a round does for a client: the number that it is meant to get, and whether it is written
pub record Reply : Type 0 where
  pub to : ℕ
  pub seq_num : ℤ
  pub seq_len : ℤ
  pub written : Bool

abbrev pub reply_to : Request → ℤ → Bool → Reply
reply_to r seq_num written = record {
  to = r.pid;
  seq_num = seq_num;
  seq_len = r.seq_len;
  written = written;
}

-- The loop of the server over the rounds so far, with `seqNum`: the replies and `seqNum` after them
unfoldable pub serve : List Round → ℤ → List Reply × ℤ
unfolding ◌+ℤ◌
serve [] seq_num = ([], seq_num)
serve (short_read ∷ rs) seq_num = serve rs seq_num
serve (no_fifo r ∷ rs) seq_num = serve rs seq_num
serve (short_write r ∷ rs) seq_num =
    let rest = serve rs (seq_num +ℤ r.seq_len) in (reply_to r seq_num false ∷ rest.0, rest.1)
serve (replied r ∷ rs) seq_num =
    let rest = serve rs (seq_num +ℤ r.seq_len) in (reply_to r seq_num true ∷ rest.0, rest.1)

-- How `mkfifo` ends
pub data Mkfifo : Type 0 where
  made exists failed : Mkfifo

abbrev pub is_failed : Mkfifo → Bool
is_failed failed = true
is_failed _ = false

-- What the calls return that the server makes before its loop
pub record Start : Type 0 where
  pub mkfifo : Mkfifo
  pub open_ok : Bool
  pub open_dummy_ok : Bool
  pub signal_ok : Bool

-- The server: none where it exits with a failure before its loop
unfoldable pub server : Start → List Round → Option (List Reply × ℤ)
server s rounds =
    if is_failed s.mkfifo || not s.open_ok || not s.open_dummy_ok || not s.signal_ok
    then none
    else some (serve rounds (pos 0))

-- How the `write` of a client ends: `broken` where the FIFO of the server has no reader, and SIGPIPE,
-- which the client does not ignore, kills it
pub data Write : Type 0 where
  whole partial broken : Write

-- What the calls of a client return; `answer` is none where it reads no whole response.
pub record Client : Type 0 where
  pub pid : ℕ
  pub argument : Option Bytes
  pub mkfifo : Mkfifo
  pub atexit_ok : Bool
  pub open_server_ok : Bool
  pub write : Write
  pub close_server_ok : Bool
  pub open_own_ok : Bool
  pub answer : Option ℤ
  pub close_own_ok : Bool

-- How a client ends: the exit status, none where a signal kills it, whether its FIFO is still there, the request that it has sent
-- and the number that it has printed
pub record End : Type 0 where
  pub status : Option ℕ
  pub fifo_left : Bool
  pub sent : Option Request
  pub printed : Option ℤ

abbrev pub request_of : Client → Request
request_of c = record { pid = c.pid; seq_len = elim c.argument [ none ↦ pos 1 | some a ↦ atoi a ] }

-- `exit` runs `removeFifo` once it is registered.
abbrev pub exit_with : ℕ → Bool → Option Request → Option ℤ → End
exit_with status fifo_left sent printed = record {
  status = some status;
  fifo_left = fifo_left;
  sent = sent;
  printed = printed;
}

-- A signal kills the client: `removeFifo` does not run.
abbrev pub killed_by_signal : End
killed_by_signal = record { status = none; fifo_left = true; sent = none; printed = none }

-- From the registration of `removeFifo` on
unfoldable pub talk : Client → End
talk c =
    let req = request_of c in
    if not c.open_server_ok then exit_with 1 false none none else elim c.write [
      | broken ↦ killed_by_signal
      | partial ↦ exit_with 1 false none none
      | whole ↦
          if not c.close_server_ok || not c.open_own_ok
          then exit_with 1 false (some req) none
          else elim c.answer [
            | none ↦ exit_with 1 false (some req) none
            | some n ↦
                if not c.close_own_ok
                then exit_with 1 false (some req) (some n)
                else exit_with 0 false (some req) (some n)
          ]
    ]

-- `main` of the client; a FIFO that cannot be made is taken not to be there.
unfoldable pub client : Client → End
client c =
    if is_failed c.mkfifo
    then exit_with 1 false none none
    else (if not c.atexit_ok then exit_with 1 true none none else talk c)
