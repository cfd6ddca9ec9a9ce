-- ===== src/Acct/Tests.antt =====
-- chapter28: records of two bytes, the command and the time, in a file of five bytes.
use the_linux_programming_in.Prelude.{
  ◌+◌, ◌-◌, ◌*◌, ◌%◌, ◌^◌, ◌≤◌, ◌<◌, ◌≡◌, refl, true, false, none, some, List, [], ◌∷◌, ◌++◌, map,
  arith, ◌==◌, get_or, take, Bytes,
}
use the_linux_programming_in.Acct.{compt_to_ll, Calls, row, partial_read, main}
use the_linux_programming_in.Acct.Listing.{joined, main_lists_all}
use the_linux_programming_in.Acct.Compt.{comp_of, compt_to_ll-comp_of}

abbrev calls : Calls
calls = record {
  size = 2;
  decode = λ b. record {
    ac_version = 3;
    ac_comm = take 1 b;
    ac_flag = 1;
    ac_exitcode = 0;
    ac_pid = 7;
    ac_ppid = 1;
    ac_uid = 0;
    ac_gid = 0;
    ac_btime = 0;
    ac_utime = get_or b 1 0;
    ac_stime = 8192 + 3;
    ac_etime = 9;
  };
  forked = λ f. f % 2 == 1;
  superuser = λ f. false;
  signalled = λ f. false;
  dumped = λ f. false;
  user_name = λ u. none;
  group_name = λ g. none;
  local_time = λ t. none;
  open_ok = true;
  read_ok = λ i. true;
}

abbrev chunks : List Bytes
chunks = (b'a' ∷ 5 ∷ []) ∷ (b'b' ∷ 6 ∷ []) ∷ []

main_lists_all_example :
    main 3 calls true ((b'f' ∷ []) ∷ []) (joined chunks ++ (b'c' ∷ []))
    ≡ some (map (λ c. row calls true (calls.decode c)) chunks, partial_read)
main_lists_all_example =
    main_lists_all 3 calls true (b'f' ∷ []) chunks (b'c' ∷ []) refl refl (λ j. refl) (omega arith)
      (refl, (refl, tt)) (omega arith) (omega arith)

compt_to_ll-comp_of_example :
    (comp_of 7 0 100000 < 2 ^ 16)
    × (100000 < 8192 → compt_to_ll (comp_of 7 0 100000) ≡ 100000)
    × (compt_to_ll (comp_of 7 0 100000) ≤ 100000)
    × (1024 * (100000 - compt_to_ll (comp_of 7 0 100000)) ≤ 100000)
compt_to_ll-comp_of_example = compt_to_ll-comp_of 100000 (omega arith)
