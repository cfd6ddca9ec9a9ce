-- ===== src/Seqnum/Network/Rounds.antt =====
-- chapter44/fifo_seqnum_server.c: the loop of the server with one more round.
use the_linux_programming_in.Prelude.{◌≡◌, refl, sym, ap, inl, true, List, [], ◌∷◌, ◌++◌}
use the_linux_programming_in.Prelude.Int.{ℤ, pos, ◌+ℤ◌}
use the_linux_programming_in.Seqnum.{
  Request, Round, short_read, no_fifo, short_write, replied, Reply, reply_to, serve,
}
use the_linux_programming_in.Prelude.{Has}
use the_linux_programming_in.Prelude.{Has-append_left, Has-append_right}
use mathlib.Core.Path.{subst}

pub serve-append :
    (rs ts : List Round) (n : ℤ)
    → serve (rs ++ ts) n
      ≡ ((serve rs n).0 ++ (serve ts (serve rs n).1).0, (serve ts (serve rs n).1).1)
unfolding serve
serve-append [] ts n = refl
serve-append (short_read ∷ rs) ts n = serve-append rs ts n
serve-append (no_fifo r ∷ rs) ts n = serve-append rs ts n
serve-append (short_write r ∷ rs) ts n = rw (serve-append rs ts (n +ℤ r.seq_len)) refl
serve-append (replied r ∷ rs) ts n = rw (serve-append rs ts (n +ℤ r.seq_len)) refl

-- The replies and the sum that the loop gives for the rounds so far
abbrev pub replies : List Round → List Reply
replies rs = (serve rs (pos 0)).0

abbrev pub next_num : List Round → ℤ
next_num rs = (serve rs (pos 0)).1

pub grown :
    (rs : List Round) (t : Round) (x : Reply)
    → Has x (replies rs)
    → Has x (replies (rs ++ (t ∷ [])))
grown rs t x h =
    subst (Has x) (sym (ap (λ y. y.0) (serve-append rs (t ∷ []) (pos 0))))
      (Has-append_left x (replies rs) (serve (t ∷ []) (next_num rs)).0 h)

pub short_read-next_num : (rs : List Round) → next_num (rs ++ (short_read ∷ [])) ≡ next_num rs
unfolding serve
short_read-next_num rs = ap (λ y. y.1) (serve-append rs (short_read ∷ []) (pos 0))

pub no_fifo-next_num :
    (rs : List Round) (r : Request) → next_num (rs ++ (no_fifo r ∷ [])) ≡ next_num rs
unfolding serve
no_fifo-next_num rs r = ap (λ y. y.1) (serve-append rs (no_fifo r ∷ []) (pos 0))

pub short_write-next_num :
    (rs : List Round) (r : Request)
    → next_num (rs ++ (short_write r ∷ [])) ≡ next_num rs +ℤ r.seq_len
unfolding serve
short_write-next_num rs r = ap (λ y. y.1) (serve-append rs (short_write r ∷ []) (pos 0))

pub replied-next_num :
    (rs : List Round) (r : Request) → next_num (rs ++ (replied r ∷ [])) ≡ next_num rs +ℤ r.seq_len
unfolding serve
replied-next_num rs r = ap (λ y. y.1) (serve-append rs (replied r ∷ []) (pos 0))

-- The round that has just been gives its reply.
pub Has-replied :
    (rs : List Round) (r : Request)
    → Has (reply_to r (next_num rs) true) (replies (rs ++ (replied r ∷ [])))
unfolding serve
Has-replied rs r =
    let x = reply_to r (next_num rs) true in
    subst (Has x) (sym (ap (λ y. y.0) (serve-append rs (replied r ∷ []) (pos 0))))
      (Has-append_right x (replies rs) (x ∷ []) (inl refl))
