-- ===== src/ProcessTree/Scan.antt =====
-- chapter12/exercise_2.c: what the loop of `main` over /proc collects, and where it writes past the array.
use the_linux_programming_in.Prelude.{
  ◌+◌, ◌≤◌, ◌≡◌, inl, inr, Bool, ◌&&◌, not, none, some, List, [], ◌∷◌, ◌++◌, append_assoc,
  append-nil, arith, ltb, leb, if◌then◌else◌, Bool-cases, length, length-append,
}
use the_linux_programming_in.Prelude.Int.{negsuc}
use the_linux_programming_in.Prelude.Atoi.{atoi}
use the_linux_programming_in.ProcessTree.{
  max_processes, Process, ProcFs, get_ppid, create_process, eq_ℤ, DirEntry, all_digits, scan_proc,
}

-- An entry for a process that still has a parent pid when it is read
abbrev pub is_process : ProcFs → DirEntry → Bool
is_process fs e = e.is_dir && all_digits e.name && not (eq_ℤ (get_ppid fs (atoi e.name)) (negsuc 0))

abbrev pub collected : ProcFs → List DirEntry → List Process
collected fs [] = []
collected fs (e ∷ es) =
    if is_process fs e then create_process fs (atoi e.name) ∷ collected fs es else collected fs es

scan_from :
    (fs : ProcFs) (es : List DirEntry) (ps : List Process)
    → length ps ≤ max_processes
    → scan_proc fs es ps ≡ (
        if leb (length ps + length (collected fs es)) max_processes
        then some (ps ++ collected fs es)
        else none)
unfolding scan_proc create_process
scan_from fs [] ps small = ground (arith, append-nil ps)
scan_from fs (e ∷ es) ps small =
    let p = create_process fs (atoi e.name) in
    elim (Bool-cases (is_process fs e)) [
      | inr skip ↦ rw skip (ground (arith, scan_from fs es ps small))
      | inl keep ↦ elim (Bool-cases (ltb (length ps) max_processes)) [
        | inr full ↦ ground arith
        | inl room ↦ ground (
          arith,
          length-append ps (p ∷ []),
          append_assoc ps (p ∷ []) (collected fs es),
          scan_from fs es (ps ++ (p ∷ [])),
        )
      ]
    ]

-- The loop over the directory collects the entries for processes in order, as long as there are no
-- more than the array holds; from the first one beyond on the writes are out of bounds.
pub scan_proc_lem :
    (fs : ProcFs) (es : List DirEntry)
    → scan_proc fs es []
      ≡ (if leb (length (collected fs es)) max_processes then some (collected fs es) else none)
scan_proc_lem fs es = ground (arith, scan_from fs es [] (omega arith))
