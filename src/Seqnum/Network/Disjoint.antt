-- ===== src/Seqnum/Network/Disjoint.antt =====
-- chapter44: two clients never print numbers whose ranges overlap.
use the_linux_programming_in.Prelude.{
  ℕ, suc, ◌≡◌, refl, sym, ap, ◌≢◌, inl, inr, true, false, some, List, [], ◌∷◌, ◌++◌, arith, ltb,
  ltb→lt, Bool-cases, get_elem?,
}
use the_linux_programming_in.Prelude.Int.{ℤ, pos, ◌+ℤ◌, ◌≤ℤ◌, int_laws}
use the_linux_programming_in.Seqnum.{
  Request, Round, short_read, no_fifo, short_write, replied, Reply, reply_to, serve,
}
use the_linux_programming_in.Seqnum.Network.{
  sending, printed, State, init, request, Step, make_fifo, send, receive, open_fails, read_fails,
  open_errors, find_fifo, open_client, write, write_fails, advance, read_answer, fail, kill,
}
use the_linux_programming_in.Seqnum.Network.Rounds.{replies}
use the_linux_programming_in.Seqnum.Network.Refinement.{
  Own, AllOwn, InStep, IsValid, init-IsValid, AllOwn-append, Step-IsValid,
}
use the_linux_programming_in.Seqnum.Allocation.{
  reached, AllPositive, InRange, IsOrdered, serve-IsOrdered, IsOrdered-disjoint,
}
use the_linux_programming_in.Prelude.{Has}
use the_linux_programming_in.Prelude.{Run, Run-keeps}
use mathlib.Core.Path.{subst}

reached-append : (rs ts : List Round) → reached (rs ++ ts) ≡ reached rs ++ reached ts
reached-append [] ts = refl
reached-append (short_read ∷ rs) ts = reached-append rs ts
reached-append (no_fifo r ∷ rs) ts = reached-append rs ts
reached-append (short_write r ∷ rs) ts = ap (◌∷◌ r) (reached-append rs ts)
reached-append (replied r ∷ rs) ts = ap (◌∷◌ r) (reached-append rs ts)

abbrev Both : (ℕ → ℤ) → State → Type 0
Both len s = IsValid len s × AllOwn len (reached s.rounds)

-- A round more for a request of a client
AllOwn-reached :
    (len : ℕ → ℤ) (rs : List Round) (t : Round)
    → AllOwn len (reached rs)
    → AllOwn len (reached (t ∷ []))
    → AllOwn len (reached (rs ++ (t ∷ [])))
AllOwn-reached len rs t h k =
    subst (AllOwn len) (sym (reached-append rs (t ∷ [])))
      (AllOwn-append len (reached rs) (reached (t ∷ [])) h k)

sent-Own :
    (len : ℕ → ℤ) (s : State) (r : Request) → IsValid len s → s.server ≡ sending r → Own len r
sent-Own len s r v e = (subst (InStep len s) e v.in_step).1

Step-reached :
    (len : ℕ → ℤ) (s u : State) → Both len s → Step len s u → AllOwn len (reached u.rounds)
Step-reached len s u (v, w) (make_fifo p e) = w
Step-reached len s u (v, w) (send p e) = w
Step-reached len s u (v, w) (receive r rest e q) = w
Step-reached len s u (v, w) (open_fails r e h) = AllOwn-reached len s.rounds (no_fifo r) w tt
Step-reached len s u (v, w) (read_fails e) = AllOwn-reached len s.rounds short_read w tt
Step-reached len s u (v, w) (open_errors r e) = AllOwn-reached len s.rounds (no_fifo r) w tt
Step-reached len s u (v, w) (find_fifo r e h) = w
Step-reached len s u (v, w) (open_client r e c) = w
Step-reached len s u (v, w) (write r e c) =
    AllOwn-reached len s.rounds (replied r) w (sent-Own len s r v e, tt)
Step-reached len s u (v, w) (write_fails r e c) =
    AllOwn-reached len s.rounds (short_write r) w (sent-Own len s r v e, tt)
Step-reached len s u (v, w) (advance r e) = w
Step-reached len s u (v, w) (read_answer p n e m) = w
Step-reached len s u (v, w) (fail p c) = w
Step-reached len s u (v, w) (kill p c) = w

Step-Both : (len : ℕ → ℤ) (s u : State) → Both len s → Step len s u → Both len u
Step-Both len s u h x = (Step-IsValid len s u h.0 x, Step-reached len s u h x)

AllOwn-AllPositive :
    (len : ℕ → ℤ) (rs : List Request) → ((c : ℕ) → pos 1 ≤ℤ len c) → AllOwn len rs → AllPositive rs
AllOwn-AllPositive len [] h k = tt
AllOwn-AllPositive len (r ∷ rs) h (own, k) =
    (subst (λ x. pos 1 ≤ℤ x.seq_len) own (h r.pid), AllOwn-AllPositive len rs h k)

Has-get_elem? : (x : Reply) (xs : List Reply) → Has x xs → (i : ℕ) × (get_elem? xs i ≡ some x)
Has-get_elem? x [] h = absurd h
Has-get_elem? x (y ∷ xs) (inl e) = (0, ap some e)
Has-get_elem? x (y ∷ xs) (inr h) = let (i, e) = Has-get_elem? x xs h in (suc i, e)

-- Replies to two clients have no number in common.
apart :
    (rs : List Reply) (a b : Reply) (x : ℤ)
    → IsOrdered rs
    → a.to ≢ b.to
    → Has a rs
    → Has b rs
    → InRange x a
    → ¬ InRange x b
apart rs a b x ordered ne ha hb ia ib =
    let (i, ei) = Has-get_elem? a rs ha in
    let (j, ej) = Has-get_elem? b rs hb in
    elim (Bool-cases (ltb i j)) [
      | inl l ↦ IsOrdered-disjoint rs i j a b x ordered (ltb→lt i j l) ei ej ia ib
      | inr l ↦ elim (Bool-cases (ltb j i)) [
        | inl g ↦ IsOrdered-disjoint rs j i b a x ordered (ltb→lt j i g) ej ei ib ia
        | inr g ↦ ground (arith, ei, ej)
      ]
    ]

abbrev pub int_max : ℕ
int_max = 2147483647

≤ℤ-trans : (a b c : ℤ) → a ≤ℤ b → b ≤ℤ c → a ≤ℤ c
≤ℤ-trans a b c h k = omega int_laws

below-cons :
    (x : Reply) (xs : List Reply) (top : ℤ)
    → x.seq_num +ℤ x.seq_len ≤ℤ top
    → ((a : Reply) → Has a xs → a.seq_num +ℤ a.seq_len ≤ℤ top)
    → (a : Reply) → Has a (x ∷ xs)
    → a.seq_num +ℤ a.seq_len ≤ℤ top
below-cons x xs top le h a (inl e) = subst (λ y. y.seq_num +ℤ y.seq_len ≤ℤ top) e le
below-cons x xs top le h a (inr e) = h a e

below-first :
    (x : Reply) (xs : List Reply) (top : ℤ)
    → pos 1 ≤ℤ x.seq_len
    → (x.seq_num +ℤ x.seq_len ≤ℤ top) × ((a : Reply) → Has a xs → a.seq_num +ℤ a.seq_len ≤ℤ top)
    → (x.seq_num ≤ℤ top) × ((a : Reply) → Has a (x ∷ xs) → a.seq_num +ℤ a.seq_len ≤ℤ top)
below-first x xs top positive (le, h) = (omega (int_laws, positive, le), below-cons x xs top le h)

-- Each range ends at or below the number that the loop comes to.
serve-AllBelow :
    (rs : List Round) (n : ℤ)
    → AllPositive (reached rs)
    → (n ≤ℤ (serve rs n).1)
      × ((a : Reply) → Has a (serve rs n).0 → a.seq_num +ℤ a.seq_len ≤ℤ (serve rs n).1)
unfolding serve
serve-AllBelow [] n h = (omega int_laws, λ a e. absurd e)
serve-AllBelow (short_read ∷ rs) n h = serve-AllBelow rs n h
serve-AllBelow (no_fifo r ∷ rs) n h = serve-AllBelow rs n h
serve-AllBelow (short_write r ∷ rs) n h =
    below-first (reply_to r n false) _ (serve rs (n +ℤ r.seq_len)).1 h.0
      (serve-AllBelow rs (n +ℤ r.seq_len) h.1)
serve-AllBelow (replied r ∷ rs) n h =
    below-first (reply_to r n true) _ (serve rs (n +ℤ r.seq_len)).1 h.0
      (serve-AllBelow rs (n +ℤ r.seq_len) h.1)

-- In every run of the server with clients that each ask for at least one number, in which the counts
-- asked for by the clients it has reached come to 2 ^ 31 - 1 at most, so that its `int` does not
-- overflow: if two clients have printed their numbers, the range of each ends at 2 ^ 31 - 1 or below,
-- and no number lies in the ranges of both, whichever of the reads, opens and writes fail and
-- whichever clients are killed.
pub clients_disjoint :
    (len : ℕ → ℤ) (k p q : ℕ) (s : State) (m n : ℤ)
    → ((c : ℕ) → pos 1 ≤ℤ len c)
    → Run (Step len) init k s
    → (serve s.rounds (pos 0)).1 ≤ℤ pos int_max
    → p ≢ q
    → s.client p ≡ printed m
    → s.client q ≡ printed n
    → (m +ℤ len p ≤ℤ pos int_max)
      × (n +ℤ len q ≤ℤ pos int_max)
      × ((x : ℤ)
          → InRange x (reply_to (request len p) m true)
          → ¬ InRange x (reply_to (request len q) n true))
clients_disjoint len k p q s m n positive r bound ne ep eq =
    let (v, w) = Run-keeps (Both len) (Step-Both len) (init-IsValid len, tt) r in
    let all_positive = AllOwn-AllPositive len (reached s.rounds) positive w in
    let below = (serve-AllBelow s.rounds (pos 0) all_positive).1 in
    (
      ≤ℤ-trans (m +ℤ len p) (serve s.rounds (pos 0)).1 (pos int_max)
          (below (reply_to (request len p) m true) (v.shown p m ep)) bound,
      ≤ℤ-trans (n +ℤ len q) (serve s.rounds (pos 0)).1 (pos int_max)
          (below (reply_to (request len q) n true) (v.shown q n eq)) bound,
      λ x.
          apart (replies s.rounds) (reply_to (request len p) m true)
            (reply_to (request len q) n true) x (serve-IsOrdered s.rounds (pos 0) all_positive).1 ne
            (v.shown p m ep) (v.shown q n eq),
    )
