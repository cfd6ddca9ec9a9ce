-- ===== src/SigWait/Laws.antt =====
-- chapter32/pthread_signal.c: the thread that waits is never given a signal.
use the_linux_programming_in.Prelude.{ℕ, ◌≡◌, refl, ◌≢◌, ◌⊎◌, true, false, arith}
use the_linux_programming_in.SigWait.{
  Signal, usr1, usr2, int, term, Target, to_sender, to_waiter, to_process, MainPc, starting,
  blocking, handling, one_made, joining_sender, joining_waiter, finished, WaiterPc, waiting,
  SenderPc, State, init, Step, block, handle_int, make_waiter, make_sender, send_usr1, send_usr2,
  send_int, sender_ends, kill_waiter, call_handler, default_action, sigwait_returns, loop, leave,
  finish,
}
use the_linux_programming_in.Prelude.{Run, Run-keeps}

-- What holds by where the main thread is
abbrev pub Fits : State → MainPc → Type 0
Fits s starting = (s.waiter ≡ WaiterPc.absent) × (s.sender ≡ SenderPc.absent) × (s.killed ≡ false)
Fits s blocking =
    (s.waiter ≡ WaiterPc.absent)
    × (s.sender ≡ SenderPc.absent)
    × (s.killed ≡ false)
    × (s.blocked ≡ true)
Fits s handling =
    (s.waiter ≡ WaiterPc.absent)
    × (s.sender ≡ SenderPc.absent)
    × (s.killed ≡ false)
    × (s.blocked ≡ true)
    × (s.int_handled ≡ true)
Fits s one_made =
    (s.waiter ≡ waiting)
    × (s.sender ≡ SenderPc.absent)
    × (s.killed ≡ false)
    × (s.blocked ≡ true)
    × (s.int_handled ≡ true)
Fits s joining_sender =
    (s.waiter ≡ waiting)
    × (s.sender ≢ SenderPc.absent)
    × (s.killed ≡ false)
    × (s.sender_blocked ≡ true)
    × (s.int_handled ≡ true)
Fits s joining_waiter =
    (s.waiter ≡ waiting)
    × (s.sender ≡ SenderPc.ended)
    × (s.pending to_waiter term ≡ true)
    × (s.int_handled ≡ true)
Fits s finished = ⊥

-- A signal that can be pending
abbrev pub CanPend : State → Target → Signal → Type 0
CanPend s to_sender usr1 = s.sender_blocked ≡ true
CanPend s to_sender usr2 = s.sender_blocked ≡ true
CanPend s to_process int = s.int_handled ≡ true
CanPend s to_waiter term = s.main ≡ joining_waiter
CanPend s t sig = ⊥

pub record IsValid (s : State) : Type 0 where
  pub fits : Fits s s.main
  pub can_pend : (t : Target) (sig : Signal) → s.pending t sig ≡ true → CanPend s t sig

pub init-IsValid : IsValid init
init-IsValid = record { fits = (refl, refl, refl); can_pend = λ t sig e. ground arith }

module _ {s : State} (v : IsValid s) where
  Step-Fits : {u : State} → Step s u → Fits u u.main
  Step-Fits (block a e) = ground (arith, v.fits)
  Step-Fits (handle_int a e) = ground (arith, v.fits)
  Step-Fits (make_waiter a e) = ground (arith, v.fits)
  Step-Fits (make_sender a e) = ground (arith, v.fits)
  Step-Fits (send_usr1 a e) = ground (arith, v.fits)
  Step-Fits (send_usr2 a e) = ground (arith, v.fits)
  Step-Fits (send_int a e) = ground (arith, v.fits)
  Step-Fits (sender_ends a e) = ground (arith, v.fits)
  Step-Fits (kill_waiter a e f) = ground (arith, v.fits)
  Step-Fits (call_handler a e f) = ground (arith, v.fits)
  Step-Fits (default_action t sig a e m h) = ground (arith, v.fits, v.can_pend t sig)
  Step-Fits (sigwait_returns t sig a e i n h) = ground (arith, v.fits, v.can_pend t sig)
  Step-Fits (loop sig a e n) = ground (arith, v.fits)
  Step-Fits (leave a e) = ground (arith, v.fits)
  Step-Fits (finish a e f) = ground (arith, v.fits)

  Step-CanPend :
      {u : State}
      → Step s u
      → (t : Target) (sig : Signal) → u.pending t sig ≡ true
      → CanPend u t sig
  Step-CanPend (block a e) t sig h = ground (arith, v.can_pend t sig, v.fits)
  Step-CanPend (handle_int a e) t sig h = ground (arith, v.can_pend t sig, v.fits)
  Step-CanPend (make_waiter a e) t sig h = ground (arith, v.can_pend t sig, v.fits)
  Step-CanPend (make_sender a e) t sig h = ground (arith, v.can_pend t sig, v.fits)
  Step-CanPend (send_usr1 a e) t sig h = ground (arith, v.can_pend t sig, v.fits)
  Step-CanPend (send_usr2 a e) t sig h = ground (arith, v.can_pend t sig, v.fits)
  Step-CanPend (send_int a e) t sig h = ground (arith, v.can_pend t sig, v.fits)
  Step-CanPend (sender_ends a e) t sig h = ground (arith, v.can_pend t sig, v.fits)
  Step-CanPend (kill_waiter a e f) t sig h = ground (arith, v.can_pend t sig, v.fits)
  Step-CanPend (call_handler a e f) t sig h = ground (arith, v.can_pend t sig, v.fits)
  Step-CanPend (default_action t' sig' a e m k) t sig h = v.can_pend t sig h
  Step-CanPend (sigwait_returns t' sig' a e i n k) t sig h =
      ground (arith, v.can_pend t sig, v.can_pend t' sig')
  Step-CanPend (loop sig' a e n) t sig h = v.can_pend t sig h
  Step-CanPend (leave a e) t sig h = v.can_pend t sig h
  Step-CanPend (finish a e f) t sig h = ground (arith, v.can_pend t sig, v.fits)

pub Step-IsValid : (s u : State) → IsValid s → Step s u → IsValid u
Step-IsValid s u v x = record { fits = Step-Fits v x; can_pend = Step-CanPend v x }

-- In every run, sigwait never returns and the main thread never comes past the join of the waiter: a
-- process that has ended has been killed, after the main thread has sent SIGTERM to the waiter and the
-- sender has ended.
pub waiter_gets_nothing :
    (k : ℕ) (s : State)
    → Run Step init k s
    → (s.waiter ≡ WaiterPc.absent ⊎ s.waiter ≡ waiting)
      × (s.main ≢ finished)
      × (s.killed ≡ true → (s.main ≡ joining_waiter) × (s.sender ≡ SenderPc.ended))
waiter_gets_nothing k s r =
    let v = Run-keeps IsValid Step-IsValid init-IsValid r in
    (ground (arith, v.fits), ground (arith, v.fits), λ e. ground (arith, v.fits))
