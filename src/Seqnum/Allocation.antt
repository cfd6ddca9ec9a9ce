-- ===== src/Seqnum/Allocation.antt =====
-- chapter44/fifo_seqnum_server.c: the ranges of numbers that the server hands out.
use the_linux_programming_in.Prelude.{
  ℕ, zero, suc, ◌<◌, ◌≡◌, refl, sym, ap, ◌∙◌, inl, inr, true, some, List, [], ◌∷◌, ◌++◌, map, arith,
  get_elem?,
}
use the_linux_programming_in.Prelude.Int.{ℤ, pos, ◌+ℤ◌, ◌≤ℤ◌, pos_part, neg_part, int_laws}
use the_linux_programming_in.Seqnum.{
  Request, Round, short_read, no_fifo, short_write, replied, Reply, reply_to, serve, Start, server,
}
use the_linux_programming_in.Prelude.{Has}
use mathlib.Core.Path.{subst}

-- The request of each round whose client can be reached
abbrev pub reached : List Round → List Request
reached [] = []
reached (short_read ∷ rs) = reached rs
reached (no_fifo r ∷ rs) = reached rs
reached (short_write r ∷ rs) = r ∷ reached rs
reached (replied r ∷ rs) = r ∷ reached rs

abbrev pub AllPositive : List Request → Type 0
AllPositive [] = Unit
AllPositive (r ∷ rs) = (pos 1 ≤ℤ r.seq_len) × AllPositive rs

-- A number lies in the range of a reply.
abbrev pub InRange : ℤ → Reply → Type 0
InRange n r = (r.seq_num ≤ℤ n) × (n +ℤ pos 1 ≤ℤ r.seq_num +ℤ r.seq_len)

abbrev pub AllAbove : ℤ → List Reply → Type 0
AllAbove n [] = Unit
AllAbove n (r ∷ rs) = (n ≤ℤ r.seq_num) × AllAbove n rs

-- The ranges follow one another: each ends before the later ones begin.
abbrev pub IsOrdered : List Reply → Type 0
IsOrdered [] = Unit
IsOrdered (r ∷ rs) = AllAbove (r.seq_num +ℤ r.seq_len) rs × IsOrdered rs

AllAbove-mono : (m n : ℤ) (rs : List Reply) → m ≤ℤ n → AllAbove n rs → AllAbove m rs
AllAbove-mono m n [] le h = tt
AllAbove-mono m n (r ∷ rs) le h = (omega int_laws, AllAbove-mono m n rs le h.1)

pub serve-IsOrdered :
    (rs : List Round) (n : ℤ)
    → AllPositive (reached rs)
    → AllAbove n (serve rs n).0 × IsOrdered (serve rs n).0
unfolding serve
serve-IsOrdered [] n h = (tt, tt)
serve-IsOrdered (short_read ∷ rs) n h = serve-IsOrdered rs n h
serve-IsOrdered (no_fifo r ∷ rs) n h = serve-IsOrdered rs n h
serve-IsOrdered (short_write r ∷ rs) n h =
    let (above, ordered) = serve-IsOrdered rs (n +ℤ r.seq_len) h.1 in
    (
      (omega int_laws, AllAbove-mono n (n +ℤ r.seq_len) _ (omega (int_laws, h.0)) above),
      (above, ordered),
    )
serve-IsOrdered (replied r ∷ rs) n h =
    let (above, ordered) = serve-IsOrdered rs (n +ℤ r.seq_len) h.1 in
    (
      (omega int_laws, AllAbove-mono n (n +ℤ r.seq_len) _ (omega (int_laws, h.0)) above),
      (above, ordered),
    )

unfoldable pub total : List Request → ℤ
total [] = pos 0
total (r ∷ rs) = r.seq_len +ℤ total rs

abbrev pub asked : Reply → Request
asked r = record { pid = r.to; seq_len = r.seq_len }

serve-asked : (rs : List Round) (n : ℤ) → map asked (serve rs n).0 ≡ reached rs
unfolding serve
serve-asked [] n = refl
serve-asked (short_read ∷ rs) n = serve-asked rs n
serve-asked (no_fifo r ∷ rs) n = serve-asked rs n
serve-asked (short_write r ∷ rs) n = ap (◌∷◌ r) (serve-asked rs (n +ℤ r.seq_len))
serve-asked (replied r ∷ rs) n = ap (◌∷◌ r) (serve-asked rs (n +ℤ r.seq_len))

serve-total : (rs : List Round) (n : ℤ) → (serve rs n).1 ≡ n +ℤ total (reached rs)
unfolding serve total
serve-total [] n = omega int_laws
serve-total (short_read ∷ rs) n = serve-total rs n
serve-total (no_fifo r ∷ rs) n = serve-total rs n
serve-total (short_write r ∷ rs) n = serve-total rs (n +ℤ r.seq_len) ∙ omega int_laws
serve-total (replied r ∷ rs) n = serve-total rs (n +ℤ r.seq_len) ∙ omega int_laws

AllAbove-get_elem? :
    (n : ℤ) (rs : List Reply) (i : ℕ) (r : Reply)
    → AllAbove n rs
    → get_elem? rs i ≡ some r
    → n ≤ℤ r.seq_num
AllAbove-get_elem? n [] i r h e = grind arith
AllAbove-get_elem? n (x ∷ rs) zero r h e = ground (arith, h.0)
AllAbove-get_elem? n (x ∷ rs) (suc i) r h e = AllAbove-get_elem? n rs i r h.1 e

pub IsOrdered-disjoint :
    (rs : List Reply) (i j : ℕ) (a b : Reply) (x : ℤ)
    → IsOrdered rs
    → i < j
    → get_elem? rs i ≡ some a
    → get_elem? rs j ≡ some b
    → InRange x a
    → ¬ InRange x b
IsOrdered-disjoint [] i j a b x h lt ea eb ia ib = grind arith
IsOrdered-disjoint (r ∷ rs) i zero a b x h lt ea eb ia ib = omega arith
IsOrdered-disjoint (r ∷ rs) zero (suc j) a b x h lt ea eb ia ib =
    let above = AllAbove-get_elem? (r.seq_num +ℤ r.seq_len) rs j b h.0 eb in
    let same : r ≡ a = ground arith in
    let above_a : a.seq_num +ℤ a.seq_len ≤ℤ b.seq_num =
      subst (λ y. y.seq_num +ℤ y.seq_len ≤ℤ b.seq_num) same above in
    omega (int_laws, ia.0, ia.1, ib.0, ib.1)
IsOrdered-disjoint (r ∷ rs) (suc i) (suc j) a b x h lt ea eb ia ib =
    IsOrdered-disjoint rs i j a b x h.1 (omega arith) ea eb ia ib

-- If every client that the server reaches asks for at least one number, the replies go to those
-- clients in order, each for as many numbers as were asked for, no number is below 0, no number lies
-- in the ranges of two replies, and in the end `seqNum` is the count of all numbers asked for.
pub server-Disjoint :
    (s : Start) (rounds : List Round) (replies : List Reply) (seq_num : ℤ)
    → server s rounds ≡ some (replies, seq_num)
    → AllPositive (reached rounds)
    → (map asked replies ≡ reached rounds)
      × AllAbove (pos 0) replies
      × ((i j : ℕ) (a b : Reply) (x : ℤ)
          → i < j
          → get_elem? replies i ≡ some a
          → get_elem? replies j ≡ some b
          → InRange x a
          → ¬ InRange x b)
      × (seq_num ≡ total (reached rounds))
unfolding server
server-Disjoint s rounds replies seq_num e h =
    let e2 : serve rounds (pos 0) ≡ (replies, seq_num) = ground arith in
    let (above, ordered) = serve-IsOrdered rounds (pos 0) h in
    let er : (serve rounds (pos 0)).0 ≡ replies = ap (λ p. p.0) e2 in
    let en : (serve rounds (pos 0)).1 ≡ seq_num = ap (λ p. p.1) e2 in
    (
      ap (map asked) (sym er) ∙ serve-asked rounds (pos 0),
      subst (AllAbove (pos 0)) er above,
      λ i j a b x. IsOrdered-disjoint replies i j a b x (subst IsOrdered er ordered),
      sym en ∙ serve-total rounds (pos 0) ∙ omega int_laws,
    )

abbrev pub Twice : Request → Request → List Reply → Type 0
Twice a b replies = (n : ℤ) × Has (reply_to a n true) replies × Has (reply_to b n true) replies

serve-Twice :
    (before after : List Round) (a b : Request) (n : ℤ)
    → a.seq_len ≡ pos 0
    → Twice a b (serve (before ++ replied a ∷ replied b ∷ after) n).0
unfolding serve
serve-Twice [] after a b n z =
    let same : n +ℤ a.seq_len ≡ n = omega (int_laws, ap pos_part z, ap neg_part z) in
    (n, inl refl, inr (inl (ap (λ m. reply_to b m true) same)))
serve-Twice (short_read ∷ rs) after a b n z = serve-Twice rs after a b n z
serve-Twice (no_fifo r ∷ rs) after a b n z = serve-Twice rs after a b n z
serve-Twice (short_write r ∷ rs) after a b n z =
    let (m, ha, hb) = serve-Twice rs after a b (n +ℤ r.seq_len) z in (m, inr ha, inr hb)
serve-Twice (replied r ∷ rs) after a b n z =
    let (m, ha, hb) = serve-Twice rs after a b (n +ℤ r.seq_len) z in (m, inr ha, inr hb)

-- If a client that asks for 0 numbers is served, the client that is served next is sent the same
-- number.
pub server-Twice :
    (s : Start) (before after : List Round) (a b : Request) (replies : List Reply) (seq_num : ℤ)
    → server s (before ++ replied a ∷ replied b ∷ after) ≡ some (replies, seq_num)
    → a.seq_len ≡ pos 0
    → Twice a b replies
unfolding server
server-Twice s before after a b replies seq_num e z =
    let e2 : serve (before ++ replied a ∷ replied b ∷ after) (pos 0) ≡ (replies, seq_num) =
      ground arith in
    subst (Twice a b) (ap (λ p. p.0) e2) (serve-Twice before after a b (pos 0) z)
