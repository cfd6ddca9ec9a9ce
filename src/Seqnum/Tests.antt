-- ===== src/Seqnum/Tests.antt =====
-- chapter44: a server that hands out numbers to four clients, one of which cannot be reached.
use the_linux_programming_in.Prelude.{ℕ, ◌≡◌, refl, true, false, some, List, [], ◌∷◌, ◌++◌}
use the_linux_programming_in.Prelude.Int.{pos, ◌+ℤ◌}
use the_linux_programming_in.Seqnum.{
  whole, broken, Request, Round, short_read, no_fifo, short_write, replied, Reply, reply_to, serve,
  made, exists, Start, server, Client, exit_with, talk, client,
}
use the_linux_programming_in.Prelude.Atoi.{atoi}

abbrev ask : ℕ → ℕ → Request
ask pid n = record { pid = pid; seq_len = pos n }

abbrev ready : Start
ready = record { mkfifo = exists; open_ok = true; open_dummy_ok = true; signal_ok = true }

abbrev rounds : List Round
rounds =
    replied (ask 71 3)
    ∷ short_read
    ∷ no_fifo (ask 72 9)
    ∷ short_write (ask 73 2)
    ∷ replied (ask 74 1)
    ∷ []

abbrev replies : List Reply
replies =
    reply_to (ask 71 3) (pos 0) true
    ∷ reply_to (ask 73 2) (pos 3) false
    ∷ reply_to (ask 74 1) (pos 5) true
    ∷ []

server_runs : server ready rounds ≡ some (replies, pos 6)
unfolding server serve ◌+ℤ◌
server_runs = refl

abbrev greedy : List Reply
greedy =
    reply_to (ask 5 2) (pos 0) true
    ∷ reply_to (ask 6 0) (pos 2) true
    ∷ reply_to (ask 7 1) (pos 2) true
    ∷ []

twice_runs :
    server ready ((replied (ask 5 2) ∷ []) ++ replied (ask 6 0) ∷ replied (ask 7 1) ∷ [])
    ≡ some (greedy, pos 3)
unfolding server serve ◌+ℤ◌
twice_runs = refl

-- The answer is 5; the argument is "3".
abbrev c71 : Client
c71 = record {
  pid = 71;
  argument = some (b'3' ∷ []);
  mkfifo = made;
  atexit_ok = true;
  open_server_ok = true;
  write = whole;
  close_server_ok = true;
  open_own_ok = true;
  answer = some (pos 5);
  close_own_ok = true;
}

client_runs : client c71 ≡ exit_with 0 false (some (ask 71 3)) (some (pos 5))
unfolding client talk atoi
client_runs = refl

-- The server is gone.
abbrev unread : Client
unread = record c71 { write = broken }
