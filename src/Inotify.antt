-- ===== src/Inotify.antt =====
-- chapter19/demo_inotify.c and exercise_1.c: the events of inotify, from the bytes that are read. Here
-- stand the data and the code; Laws holds the proofs.
pub mod Encoding
pub mod Laws
mod Tests
use the_linux_programming_in.Prelude.{
  ℕ, zero, suc, ◌+◌, ◌-◌, ◌*◌, ◌/◌, ◌%◌, ◌^◌, ◌≤◌, ◌<◌, ◌≡◌, refl, sym, ap, ◌∙◌, ◌≢◌, ◌↔◌, ◌⊎◌, inl,
  inr, Bool, true, false, ◌&&◌, ◌||◌, not, Option, none, some, List, [], ◌∷◌, ◌++◌, map,
  append_assoc, append-nil, arith, ltb, leb, ◌==◌, if◌then◌else◌, ltb→lt, lt→ltb, leb→le, ==_iff,
  Bool-cases, Option-cases, length, get_elem?, set, length-append, length-set, get_elem?-set_self,
  get_elem?-set_ne, get_or, take, drop, replicate, length-map, Bytes, bytes_eq, bytes_eq_refl,
  bytes_eq_sound, bytes_eq_ne,
}
use the_linux_programming_in.Prelude.Int.{ℤ, pos, negsuc}
use the_linux_programming_in.Prelude.{help}
use the_linux_programming_in.Prelude.{◌>>=◌}

-- What displayInotifyEvent tests in the mask, in the order of the code
pub data Flag : Type 0 where
  in_access in_attrib in_close_nowrite in_close_write in_create in_delete in_delete_self in_ignored
        in_isdir in_modify in_move_self in_moved_from in_moved_to in_open in_q_overflow in_unmount :
      Flag

abbrev pub tested : List Flag
tested =
    in_access ∷ in_attrib ∷ in_close_nowrite ∷ in_close_write ∷ in_create ∷ in_delete
    ∷ in_delete_self ∷ in_ignored ∷ in_isdir ∷ in_modify ∷ in_move_self ∷ in_moved_from
    ∷ in_moved_to ∷ in_open ∷ in_q_overflow ∷ in_unmount ∷ []

-- The fields of `struct inotify_event` before the name
pub record Event : Type 0 where
  pub wd : ℤ
  pub mask : ℕ
  pub cookie : ℕ
  pub len : ℕ

-- What the headers of the system say of the struct: its size, the fields that its bytes hold, and the
-- bit of each flag
pub record Layout : Type 0 where
  pub size : ℕ
  pub fields : Bytes → Event
  pub bit : Flag → ℕ

-- What is printed of an event
pub record Shown : Type 0 where
  pub wd : ℤ
  pub cookie : Option ℤ
  pub flags : List Flag
  pub name : Option Bytes

-- A uint32_t that is printed with %d
abbrev pub to_int : ℕ → ℤ
to_int n = if ltb n (2 ^ 31) then pos n else negsuc (2 ^ 32 - 1 - n)

-- `event->mask & flag`, for a flag of one bit
abbrev pub is_set : ℕ → ℕ → Bool
is_set mask bit = mask / 2 ^ bit % 2 == 1

abbrev pub flags_of : Layout → ℕ → List Flag → List Flag
flags_of layout mask [] = []
flags_of layout mask (f ∷ fs) =
    let rest = flags_of layout mask fs in if is_set mask (layout.bit f) then f ∷ rest else rest

-- What %s prints of the bytes at a pointer
abbrev pub c_string : Bytes → Bytes
c_string [] = []
c_string (c ∷ cs) = let rest = c_string cs in if c == 0 then [] else c ∷ rest

-- `p` is the memory from the pointer to the event.
unfoldable pub display_inotify_event : Layout → Bytes → Shown
display_inotify_event layout p =
    let event = layout.fields (take layout.size p) in
    record {
      wd = event.wd;
      cookie = if ltb 0 event.cookie then some (to_int event.cookie) else none;
      flags = flags_of layout event.mask tested;
      name = if ltb 0 event.len then some (c_string (drop layout.size p)) else none;
    }

-- The loop over the buffer, from the place `p` on. It has fuel, which is enough above the number of
-- bytes that are left.
unfoldable pub display_events : ℕ → Layout → Bytes → ℕ → ℕ → Option (List Shown)
display_events zero layout buf num_read p = none
display_events (suc fuel) layout buf num_read p = elim (ltb p num_read) [
  | true ↦
      let event = layout.fields (take layout.size (drop p buf)) in
      do
        rest ← display_events fuel layout buf num_read (p + layout.size + event.len)
        some (display_inotify_event layout (drop p buf) ∷ rest)
  | false ↦ some []
]

-- What a call of `read` does: it gives bytes, maybe none, or fails.
pub data Read : Type 0 where
  got : Bytes → Read
  read_failed : Read

pub data Line : Type 0 where
  watching : Bytes → ℤ → Line
  adding_watch : Bytes → Line
  count : ℕ → Line
  event : Shown → Line

pub data End : Type 0 where
  going : End  -- the reads so far are done, and the next one waits
  usage_error init_failed watch_failed nftw_failed read_returned_0 read_error : End

-- The memory of `buf` after a read
abbrev pub filled : Bytes → Bytes → Bytes
filled bytes buf = bytes ++ drop (length bytes) buf

-- The endless loop, over the reads so far
unfoldable pub read_loop : ℕ → Layout → Bytes → List Read → Option (List Line × End)
read_loop fuel layout buf [] = some ([], going)
read_loop fuel layout buf (read_failed ∷ rs) = some ([], read_error)
read_loop fuel layout buf (got [] ∷ rs) = some ([], read_returned_0)
read_loop fuel layout buf (got (c ∷ cs) ∷ rs) =
    let after = filled (c ∷ cs) buf in
    do
      events ← display_events fuel layout after (length (c ∷ cs)) 0
      (lines, end) ← read_loop fuel layout after rs
      some (count (length (c ∷ cs)) ∷ (map event events ++ lines), end)

-- The first loop of demo_inotify.c: `add` is what inotify_add_watch returns for a path, none for -1.
abbrev pub add_watches : (Bytes → Option ℤ) → List Bytes → List Line × Bool
add_watches add [] = ([], true)
add_watches add (path ∷ paths) =
    let (lines, ok) = add_watches add paths in
    elim (add path) [ some wd ↦ (watching path wd ∷ lines, ok) | none ↦ ([], false) ]

-- What the loop of reads adds to the lines before it
abbrev pub after_lines : List Line → Option (List Line × End) → Option (List Line × End)
after_lines lines none = none
after_lines lines (some (more, end)) = some (lines ++ more, end)

-- `main` of demo_inotify.c, with the arguments after the name of the program, whether inotify_init
-- succeeds, and the memory of `buf` before the first read
unfoldable pub main :
    ℕ
    → Layout
    → List Bytes
    → Bool
    → (Bytes → Option ℤ)
    → Bytes
    → List Read
    → Option (List Line × End)
main fuel layout [] init_ok add buf reads = some ([], usage_error)
main fuel layout (arg ∷ args) init_ok add buf reads =
    let (lines, ok) = add_watches add (arg ∷ args) in
    let rest = read_loop fuel layout buf reads in
    if bytes_eq arg help
    then some ([], usage_error)
    else (if not init_ok
        then some ([], init_failed)
        else (if ok then after_lines lines rest else some (lines, watch_failed)))

-- `dirTree` of exercise_1.c, for the entries that nftw visits, each with whether it is a directory: the
-- lines and the paths of the calls of inotify_add_watch, whose result the code does not use
abbrev pub dir_tree : List (Bytes × Bool) → List Line × List Bytes
dir_tree [] = ([], [])
dir_tree ((path, is_dir) ∷ rest) =
    let (lines, paths) = dir_tree rest in
    if is_dir then (adding_watch path ∷ lines, path ∷ paths) else (lines, paths)

-- `main` of exercise_1.c: `walk` is what nftw visits, and whether it returns -1 after that.
unfoldable pub watch_tree :
    ℕ
    → Layout
    → Bool
    → List (Bytes × Bool)
    → Bool
    → Bytes
    → List Read
    → Option ((List Line × End) × List Bytes)
watch_tree fuel layout init_ok walk walk_ok buf reads =
    let (lines, paths) = dir_tree walk in
    let rest = read_loop fuel layout buf reads in
    if not init_ok
    then some (([], init_failed), [])
    else (if walk_ok
        then (after_lines lines rest >>= λ r. some (r, paths))
        else some ((lines, nftw_failed), paths))
