-- ===== src/SigWait.antt =====
-- chapter32/pthread_signal.c: a thread that waits for signals, and one that sends them. Here stand the
-- states and the steps; the children hold the proofs. A failing call ends the program, and has no step;
-- signals from elsewhere are left out.
pub mod Laws
pub mod Progress
mod Tests
use the_linux_programming_in.Prelude.{
  ℕ, zero, suc, ◌+◌, ◌-◌, ◌*◌, ◌/◌, ◌%◌, ◌^◌, ◌≤◌, ◌<◌, ◌≡◌, refl, sym, ap, ◌∙◌, ◌≢◌, ◌↔◌, ◌⊎◌, inl,
  inr, Bool, true, false, ◌&&◌, ◌||◌, not, Option, none, some, List, [], ◌∷◌, ◌++◌, map,
  append_assoc, append-nil, arith, ltb, leb, ◌==◌, if◌then◌else◌, ltb→lt, lt→ltb, leb→le, ==_iff,
  Bool-cases, Option-cases, length, get_elem?, set, length-append, length-set, get_elem?-set_self,
  get_elem?-set_ne, get_or, take, drop, replicate, length-map, Bytes, bytes_eq, bytes_eq_refl,
  bytes_eq_sound, bytes_eq_ne,
}
use the_linux_programming_in.Prelude.{update}

pub data Signal : Type 0 where
  usr1 usr2 int term : Signal

-- To whom a signal is sent
pub data Target : Type 0 where
  to_sender to_waiter to_process : Target

pub data MainPc : Type 0 where
  starting : MainPc
  blocking : MainPc  -- the set is blocked
  handling : MainPc  -- SIGINT has its handler
  one_made : MainPc  -- the waiter is made
  joining_sender : MainPc
  joining_waiter : MainPc  -- SIGTERM is sent to the waiter
  finished : MainPc

pub data WaiterPc : Type 0 where
  absent : WaiterPc
  waiting : WaiterPc  -- in `sigwait`
  got : Signal → WaiterPc
  ended : WaiterPc

-- Where signalSenderThread is, by what it has sent
pub data SenderPc : Type 0 where
  absent started sent_usr1 sent_usr2 sent_int ended : SenderPc

pub record State : Type 0 where
  pub main : MainPc
  pub waiter : WaiterPc
  pub sender : SenderPc
  pub blocked : Bool  -- whether the main thread has blocked the set; the others take over its mask
  pub waiter_blocked : Bool
  pub sender_blocked : Bool
  pub int_handled : Bool
  pub pending : Target → Signal → Bool
  pub handler_calls : ℕ
  pub killed : Bool  -- by the default action of a signal

abbrev pub init : State
init = record {
  main = starting;
  waiter = WaiterPc.absent;
  sender = SenderPc.absent;
  blocked = false;
  waiter_blocked = false;
  sender_blocked = false;
  int_handled = false;
  pending = λ t sig. false;
  handler_calls = 0;
  killed = false;
}

-- The set that main blocks and the waiter waits for
abbrev pub in_set : Signal → Bool
in_set usr1 = true
in_set usr2 = true
in_set sig = false

abbrev pub same_signal : Signal → Signal → Bool
same_signal usr1 usr1 = true
same_signal usr2 usr2 = true
same_signal int int = true
same_signal term term = true
same_signal a b = false

abbrev pub same_target : Target → Target → Bool
same_target to_sender to_sender = true
same_target to_waiter to_waiter = true
same_target to_process to_process = true
same_target a b = false

-- A signal is made pending, or taken.
abbrev pub mark : Target → Signal → Bool → (Target → Signal → Bool) → Target → Signal → Bool
mark t sig b f t' sig' = if same_target t t' && same_signal sig sig' then b else f t' sig'

-- Whether a thread has the signal in its mask
abbrev pub masks : Target → Signal → State → Bool
masks to_sender sig s = s.sender_blocked && in_set sig
masks to_waiter sig s = s.waiter_blocked && in_set sig
masks to_process sig s = s.blocked && in_set sig && s.waiter_blocked && s.sender_blocked

-- A step of the process, while it lives. `pthread_self()` in the sender is the sender.
pub data Step (s : State) : State → Type 0 where
  block :
      s.killed ≡ false → s.main ≡ starting → Step s (record s { main = blocking; blocked = true })
  handle_int :
      s.killed ≡ false
      → s.main ≡ blocking
      → Step s (record s { main = handling; int_handled = true })
  make_waiter :
      s.killed ≡ false
      → s.main ≡ handling
      → Step s (record s { main = one_made; waiter = waiting; waiter_blocked = s.blocked })
  make_sender :
      s.killed ≡ false
      → s.main ≡ one_made
      → Step s (record s { main = joining_sender; sender = started; sender_blocked = s.blocked })
  send_usr1 :
      s.killed ≡ false
      → s.sender ≡ started
      → Step s (record s { sender = sent_usr1; pending = mark to_sender usr1 true s.pending })
  send_usr2 :
      s.killed ≡ false
      → s.sender ≡ sent_usr1
      → Step s (record s { sender = sent_usr2; pending = mark to_sender usr2 true s.pending })
  send_int :
      s.killed ≡ false
      → s.sender ≡ sent_usr2
      → Step s (record s { sender = sent_int; pending = mark to_process int true s.pending })
  sender_ends :
      s.killed ≡ false
      → s.sender ≡ sent_int
      → Step s (record s {
        sender = SenderPc.ended;
        pending = mark to_sender usr1 false (mark to_sender usr2 false s.pending);
      })
  kill_waiter :
      s.killed ≡ false
      → s.main ≡ joining_sender
      → s.sender ≡ SenderPc.ended
      → Step s (record s { main = joining_waiter; pending = mark to_waiter term true s.pending })
  call_handler :
      s.killed ≡ false
      → s.pending to_process int ≡ true
      → s.int_handled ≡ true
      → Step s (record s {
        pending = mark to_process int false s.pending;
        handler_calls = s.handler_calls + 1;
      })
  default_action :
      (t : Target) (sig : Signal)
      → s.killed ≡ false
      → s.pending t sig ≡ true
      → masks t sig s ≡ false
      → (sig ≢ int) ⊎ (s.int_handled ≡ false)
      → Step s (record s { killed = true })
  sigwait_returns :
      (t : Target) (sig : Signal)
      → s.killed ≡ false
      → s.waiter ≡ waiting
      → in_set sig ≡ true
      → t ≢ to_sender
      → s.pending t sig ≡ true
      → Step s (record s { waiter = got sig; pending = mark t sig false s.pending })
  loop :
      (sig : Signal)
      → s.killed ≡ false
      → s.waiter ≡ got sig
      → sig ≢ term
      → Step s (record s { waiter = waiting })
  leave : s.killed ≡ false → s.waiter ≡ got term → Step s (record s { waiter = WaiterPc.ended })
  finish :
      s.killed ≡ false
      → s.main ≡ joining_waiter
      → s.waiter ≡ WaiterPc.ended
      → Step s (record s { main = finished })
