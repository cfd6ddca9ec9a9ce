-- ===== src/SigWait/Progress.antt =====
-- chapter32/pthread_signal.c: the end of the program.
use the_linux_programming_in.Prelude.{
  ℕ, ◌+◌, ◌≤◌, ◌<◌, ◌≡◌, refl, inl, Bool, true, false, not, arith,
}
use the_linux_programming_in.SigWait.{
  int, term, to_waiter, to_process, MainPc, starting, blocking, handling, one_made, joining_sender,
  joining_waiter, finished, SenderPc, started, sent_usr1, sent_usr2, sent_int, State, init, Step,
  block, handle_int, make_waiter, make_sender, send_usr1, send_usr2, send_int, sender_ends,
  kill_waiter, call_handler, default_action, sigwait_returns, loop, leave, finish,
}
use the_linux_programming_in.SigWait.Laws.{IsValid, init-IsValid, Step-IsValid}
use the_linux_programming_in.Prelude.{Run, Run-keeps, Run-bounded}

abbrev main_place : MainPc → ℕ
main_place starting = 5
main_place blocking = 4
main_place handling = 3
main_place one_made = 2
main_place joining_sender = 1
main_place p = 0

abbrev sender_place : SenderPc → ℕ
sender_place SenderPc.absent = 5
sender_place started = 5
sender_place sent_usr1 = 4
sender_place sent_usr2 = 3
sender_place sent_int = 1
sender_place SenderPc.ended = 0

abbrev one_if : Bool → ℕ
one_if true = 1
one_if false = 0

abbrev measure : State → ℕ
measure s =
    main_place s.main
    + sender_place s.sender
    + one_if (s.pending to_process int)
    + one_if (not s.killed)

Step-measure : (s u : State) → IsValid s → Step s u → measure u < measure s
Step-measure s u v (block a e) = ground arith
Step-measure s u v (handle_int a e) = ground arith
Step-measure s u v (make_waiter a e) = ground arith
Step-measure s u v (make_sender a e) = ground (arith, v.fits)
Step-measure s u v (send_usr1 a e) = ground arith
Step-measure s u v (send_usr2 a e) = ground arith
Step-measure s u v (send_int a e) = ground arith
Step-measure s u v (sender_ends a e) = ground arith
Step-measure s u v (kill_waiter a e f) = ground arith
Step-measure s u v (call_handler a e f) = ground arith
Step-measure s u v (default_action t sig a e m h) = ground arith
Step-measure s u v (sigwait_returns t sig a e i n h) =
    absurd (ground (arith, v.can_pend t sig, v.fits))
Step-measure s u v (loop sig a e n) = absurd (ground (arith, v.fits))
Step-measure s u v (leave a e) = absurd (ground (arith, v.fits))
Step-measure s u v (finish a e f) = absurd (ground (arith, v.fits))

sender_step :
    (s : State) (p : SenderPc)
    → s.sender ≡ p
    → s.killed ≡ false
    → s.main ≡ joining_sender
    → IsValid s
    → (u : State) × Step s u
sender_step s SenderPc.absent e a m v = absurd (ground (arith, v.fits))
sender_step s started e a m v = (_, send_usr1 a e)
sender_step s sent_usr1 e a m v = (_, send_usr2 a e)
sender_step s sent_usr2 e a m v = (_, send_int a e)
sender_step s sent_int e a m v = (_, sender_ends a e)
sender_step s SenderPc.ended e a m v = (_, kill_waiter a m e)

exists_step :
    (s : State) (p : MainPc) → s.main ≡ p → s.killed ≡ false → IsValid s → (u : State) × Step s u
exists_step s starting e a v = (_, block a e)
exists_step s blocking e a v = (_, handle_int a e)
exists_step s handling e a v = (_, make_waiter a e)
exists_step s one_made e a v = (_, make_sender a e)
exists_step s joining_sender e a v = sender_step s s.sender refl a e v
exists_step s joining_waiter e a v = (
  _,
  default_action to_waiter term a (ground (arith, v.fits)) (ground arith) (inl (ground arith)),
)
exists_step s finished e a v = absurd (ground (arith, v.fits))

-- Every run ends with the process killed by a signal: until then some step is possible, and no run has
-- more than 11 steps.
pub process_killed :
    (k : ℕ) (s : State) → Run Step init k s → (k ≤ 11) × (s.killed ≡ false → (u : State) × Step s u)
process_killed k s r = (
  omega (arith, Run-bounded IsValid measure Step-IsValid Step-measure init-IsValid r),
  λ a. exists_step s s.main refl a (Run-keeps IsValid Step-IsValid init-IsValid r),
)
