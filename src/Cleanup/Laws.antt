-- ===== src/Cleanup/Laws.antt =====
-- chapter32/pthread_cleanup.c: which handlers have run when a thread has ended.
use the_linux_programming_in.Prelude.{◌≡◌, ◌≢◌, ◌⊎◌, none, some, List, [], ◌∷◌}
use the_linux_programming_in.Cleanup.{
  Kind, normal_exit, canceled_thread, no_cleanup, Resource, first, second, Pc, starting, first_made,
  first_pushed, second_made, working, finishing, popping_second, one_popped, popping_first,
  returned, canceled, State,
}

-- What the handlers have freed when a thread of a kind has returned
abbrev pub freed_at_return : Kind → List Resource
freed_at_return no_cleanup = []
freed_at_return kind = second ∷ first ∷ []

abbrev pub popped_once : Kind → List Resource
popped_once no_cleanup = []
popped_once kind = second ∷ []

-- What holds where the thread is: what is made, pushed and freed
abbrev pub Fits : Kind → State → Pc → Type 0
Fits kind s starting = (s.made ≡ []) × (s.handlers ≡ []) × (s.freed ≡ []) × (s.running ≡ none)
Fits kind s first_made =
    (s.made ≡ first ∷ []) × (s.handlers ≡ []) × (s.freed ≡ []) × (s.running ≡ none)
Fits kind s first_pushed =
    (s.made ≡ first ∷ []) × (s.handlers ≡ first ∷ []) × (s.freed ≡ []) × (s.running ≡ none)
Fits kind s second_made =
    (s.made ≡ second ∷ first ∷ []) × (s.handlers ≡ first ∷ []) × (s.freed ≡ []) × (s.running ≡ none)
Fits kind s working =
    (s.made ≡ second ∷ first ∷ [])
    × (s.handlers ≡ second ∷ first ∷ [])
    × (s.freed ≡ [])
    × (s.running ≡ none)
Fits kind s finishing =
    (kind ≢ canceled_thread)
    × (s.made ≡ second ∷ first ∷ [])
    × (s.handlers ≡ second ∷ first ∷ [])
    × (s.freed ≡ [])
    × (s.running ≡ none)
Fits kind s popping_second =
    (kind ≡ normal_exit)
    × (s.made ≡ second ∷ first ∷ [])
    × (s.handlers ≡ first ∷ [])
    × (s.freed ≡ [])
    × (s.running ≡ some second)
Fits kind s one_popped =
    (kind ≢ canceled_thread)
    × (s.made ≡ second ∷ first ∷ [])
    × (s.handlers ≡ first ∷ [])
    × (s.freed ≡ popped_once kind)
    × (s.running ≡ none)
Fits kind s popping_first =
    (kind ≡ normal_exit)
    × (s.made ≡ second ∷ first ∷ [])
    × (s.handlers ≡ [])
    × (s.freed ≡ second ∷ [])
    × (s.running ≡ some first)
Fits kind s returned =
    (kind ≢ canceled_thread)
    × (s.made ≡ second ∷ first ∷ [])
    × (s.handlers ≡ [])
    × (s.freed ≡ freed_at_return kind)
    × (s.running ≡ none)
Fits kind s canceled =
    (s.handlers ≡ [])
    × ((s.running ≡ none) × (s.freed ≡ s.made)
        ⊎ (kind ≡ normal_exit)
          × (s.made ≡ second ∷ first ∷ [])
          × (s.running ≡ some second)
          × (s.freed ≡ first ∷ [])
        ⊎ (kind ≡ normal_exit)
          × (s.made ≡ second ∷ first ∷ [])
          × (s.running ≡ some first)
          × (s.freed ≡ second ∷ []))
