-- ===== src/Seqnum/Network/Tests.antt =====
-- chapter44: two clients, 5 and 6, that ask for 3 and 2 numbers, and a client on its way.
use the_linux_programming_in.Prelude.{
  ℕ, ◌≡◌, refl, ◌⊎◌, true, none, some, [], ◌∷◌, arith, ◌==◌, if◌then◌else◌,
}
use the_linux_programming_in.Prelude.{update}
use the_linux_programming_in.Prelude.Int.{ℤ, pos, ◌+ℤ◌, ◌≤ℤ◌, int_laws}
use the_linux_programming_in.Seqnum.{Request, replied, reply_to, serve}
use the_linux_programming_in.Seqnum.Network.{
  listening, blocked, closing, registered, sent, reading, printed, killed, State, init, request,
  Step, make_fifo, send, receive, find_fifo, open_client, write, advance, read_answer, kill,
}
use the_linux_programming_in.Seqnum.Network.Refinement.{Run-serve}
use the_linux_programming_in.Seqnum.Allocation.{InRange}
use the_linux_programming_in.Seqnum.Network.Disjoint.{int_max, clients_disjoint}
use the_linux_programming_in.Seqnum.Network.Deadlock.{Works, IsStuck, network_goes_on}
use the_linux_programming_in.Seqnum.Network.Waiting.{IsDropped}
use the_linux_programming_in.Prelude.{Has}
use the_linux_programming_in.Prelude.{Run, start, step}

abbrev asks : ℕ → ℤ
asks p = if p == 5 then pos 3 else pos 2

asks-positive : (c : ℕ) → pos 1 ≤ℤ asks c
asks-positive c = ground arith

abbrev five : Request
five = request asks 5

abbrev six : Request
six = request asks 6

-- Both requests are in the FIFO of the server.
abbrev both_sent : State
both_sent = record init {
  client = update (update (update (update init.client 5 registered) 6 registered) 5 sent) 6 sent;
  queue = five ∷ six ∷ [];
}

to_both_sent : Run (Step asks) init 4 both_sent
to_both_sent =
    step (step (step (step start (make_fifo 5 refl)) (make_fifo 6 refl)) (send 5 refl))
      (send 6 refl)

abbrev both_printed : State
both_printed = record {
  server = closing six;
  seq_num = pos 0 +ℤ pos 3;
  queue = [];
  client =
      update (update (update (update both_sent.client 5 reading) 5 (printed (pos 0))) 6 reading) 6
        (printed (pos 0 +ℤ pos 3));
  mail =
      update (update (update (update init.mail 5 (some (pos 0))) 5 none) 6 (some (pos 0 +ℤ pos 3)))
        6 none;
  rounds = replied five ∷ replied six ∷ [];
}

to_both_printed : Run (Step asks) init 15 both_printed
to_both_printed =
    let five_open : Run (Step asks) init 7 _ =
      step
        (step (step to_both_sent (receive five (six ∷ []) refl refl))
          (find_fifo five refl (λ x. x)))
        (open_client five refl refl) in
    let five_done : Run (Step asks) init 10 _ =
      step (step (step five_open (write five refl refl)) (read_answer 5 (pos 0) refl refl))
        (advance five refl) in
    step
      (step
        (step (step (step five_done (receive six [] refl refl)) (find_fifo six refl (λ x. x)))
          (open_client six refl refl))
        (write six refl refl))
      (read_answer 6 (pos 0 +ℤ pos 3) refl refl)

Run-serve_example :
    (both_printed.server ≡ listening → both_printed.seq_num ≡ (serve both_printed.rounds (pos 0)).1)
    × ((p : ℕ) (n : ℤ)
        → both_printed.client p ≡ printed n
        → Has (reply_to (request asks p) n true) (serve both_printed.rounds (pos 0)).0)
Run-serve_example = Run-serve asks 15 both_printed to_both_printed

five_given : (serve both_printed.rounds (pos 0)).1 ≤ℤ pos int_max
unfolding serve
five_given = omega int_laws

clients_disjoint_example :
    (pos 0 +ℤ pos 3 ≤ℤ pos int_max)
    × (pos 0 +ℤ pos 3 +ℤ pos 2 ≤ℤ pos int_max)
    × ((x : ℤ)
        → InRange x (reply_to five (pos 0) true)
        → ¬ InRange x (reply_to six (pos 0 +ℤ pos 3) true))
clients_disjoint_example =
    clients_disjoint asks 15 5 6 both_printed (pos 0) (pos 0 +ℤ pos 3) asks-positive to_both_printed
      five_given (omega arith) refl refl

-- The client 5 is killed while the server is in `open` of its FIFO, and 6 waits.
abbrev five_killed : State
five_killed = record both_sent {
  server = blocked five;
  queue = six ∷ [];
  client = update both_sent.client 5 killed;
  mail = update both_sent.mail 5 none;
}

to_five_killed : Run (Step asks) init 7 five_killed
to_five_killed =
    step
      (step (step to_both_sent (receive five (six ∷ []) refl refl)) (find_fifo five refl (λ x. x)))
      (kill 5 tt)

network_goes_on_example :
    IsDropped asks five_killed 6
    ⊎ (((u : State) × (x : Step asks five_killed u) × Works x)
        ⊎ ((r : Request) × IsStuck five_killed r
            × ((j : ℕ) (u : State) → Run (Step asks) five_killed j u → IsStuck u r)))
network_goes_on_example = network_goes_on asks 7 6 five_killed to_five_killed tt
