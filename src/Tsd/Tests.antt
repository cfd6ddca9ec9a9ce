-- ===== src/Tsd/Tests.antt =====
-- chapter31/tsd.c: a run in which a thread asks for one error number and ends.
use the_linux_programming_in.Prelude.{
  ℕ, ◌+◌, ◌≤◌, ◌≡◌, refl, ◌≢◌, true, none, some, List, [], ◌∷◌, ◌++◌, arith, ◌==◌, if◌then◌else◌,
  Bytes,
}
use the_linux_programming_in.Prelude.{update}
use the_linux_programming_in.Tsd.{
  calling, entered, allocated, formatting, returned, ended, Printed, State, init, text_of, Step,
  create_key, malloc, set_specific, write_all, print, destructor,
}
use the_linux_programming_in.Tsd.Laws.{said, printed_own}
use the_linux_programming_in.Prelude.{Run, start, step}
use the_linux_programming_in.Prelude.{Has}

abbrev own_text : ℕ → Bytes
own_text = text_of (λ err. if err == 1 then some (b'p' ∷ []) else none) (λ err. b'?' ∷ [])

abbrev asked : ℕ → List ℕ
asked t = if t == 1 then 1 ∷ [] else 2 ∷ []

abbrev before : State
before = init 1 asked

-- In the end of the run the buffer at 7 is freed.
abbrev final : State
final = record {
  keys = 0 + 1;
  once = true;
  specific = update (update before.specific 1 (some 7)) 1 none;
  heap = update (update (update before.heap 7 (some [])) 7 (some (own_text 1))) 7 none;
  pc =
      update
        (update
          (update
            (update (update (update before.pc 1 (entered 1 [])) 1 (allocated 1 7 [])) 1
              (formatting 1 7 []))
            1 (returned 1 7 []))
          1 (calling []))
        1 ended;
  output = record { thread = 1; err = 1; text = b'p' ∷ [] } ∷ [];
}

to_final : Run (Step own_text) (init 1 asked) 6 final
to_final =
    step
      (step
        (step
          (step
            (step (step start (create_key 1 1 [] refl refl)) (malloc 1 1 7 [] [] refl refl refl))
            (set_specific 1 1 7 [] refl))
          (write_all 1 1 7 [] refl))
        (print 1 1 7 [] (b'p' ∷ []) refl refl))
      (destructor 1 7 (omega arith) refl refl)

printed_own_example :
    ((l : Printed) → Has l final.output → l.text ≡ own_text l.err)
    × ((t : ℕ) → t ≤ 1 → (rest : List ℕ) × (said t final.output ++ rest ≡ asked t))
    × ((t : ℕ) → t ≤ 1 → final.pc t ≡ ended → said t final.output ≡ asked t)
    × (final.keys ≤ 1)
    × ((t u b : ℕ) → t ≢ u → final.specific t ≡ some b → final.specific u ≢ some b)
printed_own_example = printed_own own_text 1 asked 6 final to_final
