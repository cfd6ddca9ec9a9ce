-- ===== src/Seqnum/Cleanup.antt =====
-- chapter44/fifo_seqnum_client.c: what a client leaves behind, and when it succeeds.
use the_linux_programming_in.Prelude.{Bool, true, false, ◌&&◌, not}
use the_linux_programming_in.Seqnum.{is_failed, Write, whole, broken, Client}

abbrev pub is_whole : Write → Bool
is_whole whole = true
is_whole w = false

abbrev pub is_broken : Write → Bool
is_broken broken = true
is_broken w = false

abbrev pub all_succeed : Client → Bool
all_succeed c =
    not (is_failed c.mkfifo)
    && c.atexit_ok
    && c.open_server_ok
    && is_whole c.write
    && c.close_server_ok
    && c.open_own_ok
    && c.close_own_ok

-- The client has a FIFO: it has made it, or there is one of this name.
abbrev pub has_fifo : Client → Bool
has_fifo c = not (is_failed c.mkfifo)
