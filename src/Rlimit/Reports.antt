-- ===== src/Rlimit/Reports.antt =====
-- chapter36/rlimit.c: what the whole program prints and leaves.
use the_linux_programming_in.Prelude.{
  ℕ, ◌+◌, ◌/◌, ◌≡◌, ap, ◌∙◌, inl, inr, Bool, true, false, ◌&&◌, ◌||◌, not, List, [], ◌∷◌, ◌++◌,
  arith, ltb, if◌then◌else◌, Bool-cases, length,
}
use the_linux_programming_in.Prelude.{filterb}
use the_linux_programming_in.Rlimit.{
  Rlimit, halved, End, finished, test_files, nofile, Line, limits, MainCalls, display_rlimit,
  resources, all_shown, all_lines, report, gave_up, reported, main,
}
use the_linux_programming_in.Rlimit.Laws.{opened_fds, stray, test_files-closes, test_files_failed}

abbrev pub shows_nofile : Line → Bool
shows_nofile (limits nofile soft hard) = true
shows_nofile l = false

nofile_lines :
    (k : MainCalls) (left : Rlimit) (count : ℕ)
    → filterb shows_nofile (all_lines k left count)
      ≡ display_rlimit k nofile (k.limit nofile)
        ∷ display_rlimit k nofile (halved (k.limit nofile))
        ∷ display_rlimit k nofile left
        ∷ []
nofile_lines k left count = elim (Bool-cases (ltb count ((k.limit nofile).rlim_max / 2 + 10))) [
  | inl y ↦ elim (Bool-cases (k.child_set_ok && k.child_show_ok)) [
    | inl c ↦ ground arith
    | inr c ↦ ground arith
  ]
  | inr y ↦ elim (Bool-cases (k.child_set_ok && k.child_show_ok)) [
    | inl c ↦ ground arith
    | inr c ↦ ground arith
  ]
]

none_fails : (a b c : Bool) → a && b && c ≡ true → not a || not b || not c ≡ false
none_fails a b c h = ground arith

both_true : (a b : Bool) → a && b ≡ true → (a ≡ true) × (b ≡ true)
both_true a b h = (ground arith, ground arith)

report_complete :
    (k : MainCalls) (e : End) (left : Rlimit) (count : ℕ) (closed : List ℕ)
    → k.show_restored_ok && k.fork_ok && k.wait_ok ≡ true
    → e ≡ finished left count closed
    → report k e ≡ reported left count closed (all_lines k left count)
report_complete k e left count closed h f =
    ap (report k) f
    ∙ ap (λ b. if b then gave_up left else reported left count closed (all_lines k left count))
        (none_fails k.show_restored_ok k.fork_ok k.wait_ok h)

-- If every call of the parent but those of open succeeds, the program ends with success. The process
-- then has the limit of open files from before, and the three lines for this limit show the limit from
-- before, the halved one, and the one from before again. The count is that of the calls of open before
-- the first that fails, and close has been called with their descriptors, and with 0 once for each call
-- that was left out because of the failure.
pub main-reported :
    (k : MainCalls)
    → all_shown k resources
        && (k.files.get_ok && k.files.set_ok && k.files.show_ok && k.files.calloc_ok
            && k.files.restore_ok)
        && (k.show_restored_ok && k.fork_ok && k.wait_ok)
      ≡ true
    → (count : ℕ) × (closed : List ℕ) × (lines : List Line) × (main k
        ≡ reported (k.limit nofile) count closed lines)
      × (filterb shows_nofile lines
          ≡ display_rlimit k nofile (k.limit nofile)
            ∷ display_rlimit k nofile (halved (k.limit nofile))
            ∷ display_rlimit k nofile (k.limit nofile)
            ∷ [])
      × (count ≡ length (opened_fds k.files.opens 0 ((k.limit nofile).rlim_max / 2 + 10)))
      × (closed
          ≡ opened_fds k.files.opens 0 ((k.limit nofile).rlim_max / 2 + 10)
            ++ stray count ((k.limit nofile).rlim_max / 2 + 10))
unfolding main
main-reported k h =
    let t = k.files in
    let tests = t.get_ok && t.set_ok && t.show_ok && t.calloc_ok && t.restore_ok in
    let after = k.show_restored_ok && k.fork_ok && k.wait_ok in
    let (first, last) = both_true (all_shown k resources && tests) after h in
    let (shown, tested) = both_true (all_shown k resources) tests first in
    let (c, cs, f) = (test_files_failed k.files (k.limit nofile)).2 tested in
    let (a, b, d) = test_files-closes k.files (k.limit nofile) (k.limit nofile) c cs f in
    (
      c,
      cs,
      all_lines k (k.limit nofile) c,
      ap
            (λ x.
              if x
              then report k (test_files k.files (k.limit nofile))
              else gave_up (k.limit nofile))
            shown
          ∙ report_complete k (test_files k.files (k.limit nofile)) (k.limit nofile) c cs last f,
      nofile_lines k (k.limit nofile) c,
      b,
      d,
    )
