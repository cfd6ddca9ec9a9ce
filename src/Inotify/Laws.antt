-- ===== src/Inotify/Laws.antt =====
-- chapter19/demo_inotify.c and exercise_1.c: the events that the kernel writes are those that are
-- printed.
use the_linux_programming_in.Prelude.{
  ℕ, zero, suc, ◌+◌, ◌<◌, ◌≡◌, refl, ap, ◌∙◌, Bool, true, false, some, List, [], ◌∷◌, ◌++◌, map,
  append_assoc, arith, ltb, length, length-append, take, drop, Bytes, bytes_eq,
}
use the_linux_programming_in.Inotify.{
  Event, Layout, Shown, display_inotify_event, display_events, Read, got, Line, watching,
  adding_watch, count, event, going, filled, read_loop, add_watches, main, dir_tree, watch_tree,
}
use the_linux_programming_in.Inotify.Encoding.{
  Occurred, encode, encode_all, IsWritten, AllWritten, shown_of, drop-append, drop-drop,
  length-encode, fields-encode, display-encode,
}
use the_linux_programming_in.Prelude.Int.{ℤ}
use the_linux_programming_in.Prelude.{help}
use the_linux_programming_in.Prelude.{filterb}

-- What is read, and what is printed for it
abbrev pub reads_of : (Event → Bytes) → List (List Occurred) → List Read
reads_of write oss = map (λ os. got (encode_all write os)) oss

abbrev pub printed : Layout → (Event → Bytes) → List (List Occurred) → List Line
printed layout write [] = []
printed layout write (os ∷ oss) =
    count (length (encode_all write os))
    ∷ (map event (map (shown_of layout) os) ++ printed layout write oss)

-- Each read gives some events, as the kernel writes them, and the fuel is above their number.
abbrev pub AllReads : Layout → (Event → Bytes) → ℕ → List (List Occurred) → Type 0
AllReads layout write fuel [] = Unit
AllReads layout write fuel (os ∷ oss) =
    (0 < length os)
    × AllWritten layout write os
    × (length os < fuel)
    × AllReads layout write fuel oss

module _ (layout : Layout) (write : Event → Bytes) (sized : 0 < layout.size) where
  -- Behind an event stand the others.
  drop_event :
      (o : Occurred) (os : List Occurred) (p : ℕ) (buf stale : Bytes)
      → IsWritten layout write o
      → drop p buf ≡ encode_all write (o ∷ os) ++ stale
      → drop (p + layout.size + (length o.name + o.padding)) buf ≡ encode_all write os ++ stale
  drop_event o os p buf stale w e =
      let place : p + layout.size + (length o.name + o.padding) ≡ p + length (encode write o) =
        omega (arith, length-encode layout write o w) in
      rw
        (
          place,
          drop-drop p (length (encode write o)) buf,
          e,
          append_assoc (encode write o) (encode_all write os) stale,
        )
        (drop-append (encode write o) (encode_all write os ++ stale))

  -- A round of the loop
  display_events-next :
      (fuel n p len : ℕ) (buf : Bytes) (ev : Shown) (rest : List Shown)
      → ltb p n ≡ true
      → (layout.fields (take layout.size (drop p buf))).len ≡ len
      → display_inotify_event layout (drop p buf) ≡ ev
      → display_events fuel layout buf n (p + layout.size + len) ≡ some rest
      → display_events (suc fuel) layout buf n p ≡ some (ev ∷ rest)
  unfolding display_events
  display_events-next fuel n p len buf ev rest more l shown e = ground (arith, more, l, e, shown)

  display_events-encode :
      (os : List Occurred) (fuel p n : ℕ) (buf stale : Bytes)
      → AllWritten layout write os
      → length os < fuel
      → n ≡ p + length (encode_all write os)
      → drop p buf ≡ encode_all write os ++ stale
      → display_events fuel layout buf n p ≡ some (map (shown_of layout) os)
  unfolding display_events
  display_events-encode [] zero p n buf stale w lt total e = elim lt [ ]
  display_events-encode (o ∷ os) zero p n buf stale w lt total e = elim lt [ ]
  display_events-encode [] (suc fuel) p n buf stale w lt total e = ground arith
  display_events-encode (o ∷ os) (suc fuel) p n buf stale (w, ws) lt total e =
      let here : drop p buf ≡ encode write o ++ (encode_all write os ++ stale) =
        e ∙ append_assoc (encode write o) (encode_all write os) stale in
      let total' : n
          ≡ p + layout.size + (length o.name + o.padding) + length (encode_all write os) =
        omega (
          arith,
          total,
          length-append (encode write o) (encode_all write os),
          length-encode layout write o w,
        ) in
      display_events-next fuel n p (length o.name + o.padding) buf (shown_of layout o)
        (map (shown_of layout) os) (ground (arith, total', sized))
        (ap (λ q. (layout.fields (take layout.size q)).len) here
          ∙ ap (λ (h : Event). h.len)
              (fields-encode layout write o w (encode_all write os ++ stale)))
        (ap (display_inotify_event layout) here
          ∙ display-encode layout write o w (encode_all write os ++ stale))
        (display_events-encode os fuel (p + layout.size + (length o.name + o.padding)) n buf stale
          ws (omega arith) total' (drop_event o os p buf stale w e))

  read_loop-got :
      (fuel : ℕ) (bytes buf : Bytes) (rs : List Read) (events : List Shown) (lines : List Line)
      → 0 < length bytes
      → display_events fuel layout (filled bytes buf) (length bytes) 0 ≡ some events
      → read_loop fuel layout (filled bytes buf) rs ≡ some (lines, going)
      → read_loop fuel layout buf (got bytes ∷ rs)
        ≡ some (count (length bytes) ∷ (map event events ++ lines), going)
  unfolding read_loop
  read_loop-got fuel [] buf rs events lines some_there e f = elim some_there [ ]
  read_loop-got fuel (c ∷ cs) buf rs events lines some_there e f = rw (e, f) refl

  read_loop-encode :
      (oss : List (List Occurred)) (fuel : ℕ) (buf : Bytes)
      → AllReads layout write fuel oss
      → read_loop fuel layout buf (reads_of write oss) ≡ some (printed layout write oss, going)
  unfolding read_loop
  read_loop-encode [] fuel buf h = refl
  read_loop-encode ([] ∷ oss) fuel buf (there, w, lt, hs) = elim there [ ]
  read_loop-encode ((o ∷ os) ∷ oss) fuel buf (there, w, lt, hs) =
      let bytes = encode_all write (o ∷ os) in
      read_loop-got fuel bytes buf (reads_of write oss) (map (shown_of layout) (o ∷ os))
        (printed layout write oss)
        (omega (
          arith,
          sized,
          length-append (encode write o) (encode_all write os),
          length-encode layout write o w.0,
        ))
        (display_events-encode (o ∷ os) fuel 0 (length bytes) (filled bytes buf)
          (drop (length bytes) buf) w lt (omega arith) refl)
        (read_loop-encode oss fuel (filled bytes buf) hs)

add_watches-all :
    (wd : Bytes → ℤ) (paths : List Bytes)
    → add_watches (λ p. some (wd p)) paths ≡ (map (λ p. watching p (wd p)) paths, true)
add_watches-all wd [] = refl
add_watches-all wd (path ∷ paths) = rw (add_watches-all wd paths) refl

-- If demo_inotify.c gets a watch for each of its arguments, and the bytes of each read are some events
-- as the kernel writes them, one at least, it prints a line for each watch, and then for each read the
-- number of its bytes and each of its events, in order, with its flags and its name as they were
-- written; then it waits for the next read. The fuel is above the number of events of each read, and
-- the first argument is not --help.
pub main-reads_of :
    (layout : Layout) (write : Event → Bytes) (fuel : ℕ) (arg : Bytes) (args : List Bytes)
    (wd : Bytes → ℤ) (buf : Bytes) (oss : List (List Occurred))
    → 0 < layout.size
    → bytes_eq arg help ≡ false
    → AllReads layout write fuel oss
    → main fuel layout (arg ∷ args) true (λ p. some (wd p)) buf (reads_of write oss)
      ≡ some (map (λ p. watching p (wd p)) (arg ∷ args) ++ printed layout write oss, going)
unfolding main
main-reads_of layout write fuel arg args wd buf oss sized h all =
    rw (add_watches-all wd args, read_loop-encode layout write sized oss fuel buf all, h) refl

dir_tree-filterb :
    (walk : List (Bytes × Bool))
    → dir_tree walk ≡ (
      map adding_watch (map (λ e. e.0) (filterb (λ e. e.1) walk)),
      map (λ e. e.0) (filterb (λ e. e.1) walk),
    )
dir_tree-filterb [] = refl
dir_tree-filterb ((path, is_dir) ∷ walk) = ground (arith, dir_tree-filterb walk)

-- exercise_1.c asks for a watch of exactly the directories that nftw visits, in order, prints a line for
-- each of them, and then the events of the reads as demo_inotify.c does.
pub watch_tree-reads_of :
    (layout : Layout) (write : Event → Bytes) (fuel : ℕ) (walk : List (Bytes × Bool)) (buf : Bytes)
    (oss : List (List Occurred))
    → 0 < layout.size
    → AllReads layout write fuel oss
    → watch_tree fuel layout true walk true buf (reads_of write oss)
      ≡ some (
        (
          map adding_watch (map (λ e. e.0) (filterb (λ e. e.1) walk)) ++ printed layout write oss,
          going,
        ),
        map (λ e. e.0) (filterb (λ e. e.1) walk),
      )
unfolding watch_tree
watch_tree-reads_of layout write fuel walk buf oss sized all =
    rw (dir_tree-filterb walk, read_loop-encode layout write sized oss fuel buf all) refl
