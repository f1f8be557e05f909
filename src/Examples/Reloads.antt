-- ===== src/Examples/Reloads.antt =====
-- sharelib/QueueMng.cpp and Maintain.cpp: failed duties that are put again, and a duty that waits.
use octopusd.Prelude.{
  ◌≡◌, inl, refl, true, false, List, [], ◌∷◌, ◌++◌, none, some, arith, ◌==◌, if◌then◌else◌,
}
use octopusd.Prelude.Bytes.{bytes_eq}
use octopusd.Prelude.Int.{pos, negsuc}
use octopusd.Prelude.Map.{insert}
use octopusd.Prelude.Bytes.{codes}
use octopusd.Queue.{QueueMng, normal}
use octopusd.Queue.Check.{check, is_rival}
use octopusd.Queue.FailLog.{put_fail_duty2file, next_file, write_record, write_seq}
use octopusd.Queue.Put.{direct, put_duty2send_q}
use octopusd.Queue.Run.{Call, checks, takes, moves, run, step}
use octopusd.Queue.Run.Service.{Served, get_duty_f_send_q-Served}
use octopusd.Queue.Reload.{
  ReloadEnv, records_of, take_file, is_newer, reset_duty, recheck_duty, is_older, reload_record,
  get_fail_duty_f_file2duty_q, other_records,
}
use octopusd.Queue.Reload.Calls.{FileCalls, get_fail_duty_f_file2duty_q-FileCalls}
use octopusd.Queue.Reload.Saved.{get_fail_duty_f_file2duty_q-put_fail_duty2file}
use octopusd.Queue.Reload.Stale.{reload_record_stale}
use octopusd.Maintain.{Daemon}
use octopusd.Maintain.Routine.{
  RoutineEnv, check_fail_duty_exist, check_fail_duty_exist-put_fail_duty2file,
}
use octopusd.Examples.Data.{idle, busy, noon, sends_a, all_well}

-- A file of failed duties that opens, while another thread receives a file.
abbrev reload : ReloadEnv
reload = record {
  is_moved = true;
  opened = true;
  path_below = λ root path. some (root ++ path);
  modified = λ path. some 0;
  meanwhile = λ k. checks 7 noon ∷ [];
  io = all_well;
}

abbrev with_failed : QueueMng
with_failed = record idle {
  disk = record { records = (0, sends_a) ∷ (1, sends_a) ∷ []; seq_file = none; tries = 0 };
}

get_fail_duty_f_file2duty_q-FileCalls_example :
    (cs : List Call) × FileCalls reload 5 0
      (records_of 0 with_failed.disk.records)
      (take_file 0 with_failed)
      cs
    × (get_fail_duty_f_file2duty_q reload 5 0 with_failed ≡ run cs (take_file 0 with_failed))
get_fail_duty_f_file2duty_q-FileCalls_example =
    get_fail_duty_f_file2duty_q-FileCalls reload 5 0 with_failed refl refl

get_fail_duty_f_file2duty_q-put_fail_duty2file_example :
    (get_fail_duty_f_file2duty_q reload 5 0 (put_fail_duty2file all_well sends_a idle)
      ≡ (put_duty2send_q all_well 5
          (record sends_a { state = normal; nr_of_fail = 0 })
          direct
          0
          (check 5 (recheck_duty sends_a) (
            run
              (checks 7 noon ∷ [])
              (take_file 0 (put_fail_duty2file all_well sends_a idle)))).1).1)
    × ((take_file 0 (put_fail_duty2file all_well sends_a idle)).disk.records ≡ [])
unfolding put_fail_duty2file next_file write_record write_seq records_of is_newer is_older check run
    step take_file other_records insert is_rival bytes_eq recheck_duty
get_fail_duty_f_file2duty_q-put_fail_duty2file_example =
    get_fail_duty_f_file2duty_q-put_fail_duty2file all_well sends_a idle reload 5 0 (omega arith)
      (inl refl) refl refl refl refl refl refl refl refl refl

-- A later version of the file is received while the failed duty is put again.
reload_record_stale_example :
    reload_record reload 5 sends_a (run (checks 7 noon ∷ []) idle)
    ≡ (put_duty2send_q all_well 5
        (reset_duty sends_a)
        direct
        0
        (check 5 (recheck_duty sends_a) (run (checks 7 noon ∷ []) idle)).1).1
unfolding is_newer run step check insert bytes_eq
reload_record_stale_example =
    reload_record_stale reload 5 sends_a (run (checks 7 noon ∷ []) idle) (inl refl) refl (refl, tt)
      tt

abbrev asked_daemon : Daemon
asked_daemon = record {
  flags = some (λ n. if n == 3 then negsuc 0 else pos 0);
  queue = with_failed;
  pool = record { connections = []; served = []; closed = [] };
}

-- The third duty of a full queue, whose server fails in the end.
abbrev turns_of_two : List Call
turns_of_two = takes 1 0 ∷ moves ∷ takes 2 1 ∷ takes 2 0 ∷ checks 7 noon ∷ takes 1 0 ∷ []

get_duty_f_send_q-Served_example :
    Served sends_a
      (record busy { send_q = busy.send_q ++ sends_a ∷ [] })
      (turns_of_two ++ takes 3 0 ∷ [])
get_duty_f_send_q-Served_example =
    get_duty_f_send_q-Served (turns_of_two ++ takes 3 0 ∷ [])
      (record busy { send_q = busy.send_q ++ sends_a ∷ [] }) busy.send_q sends_a [] refl
      (omega arith)

-- Two hours behind a failed duty.
abbrev two_hours : RoutineEnv
two_hours = record {
  now = 10000;
  first = λ ip port. false;
  second = λ ip port. false;
  check_now = 10000;
  modified = λ n. 2800;
  mobile_list = some (codes "joe=13800000000");
  host_ip = none;
  words = λ a. codes "duties failed";
}

check_fail_duty_exist-put_fail_duty2file_example :
    check_fail_duty_exist two_hours (put_fail_duty2file all_well sends_a idle) ≡ true
check_fail_duty_exist-put_fail_duty2file_example =
    check_fail_duty_exist-put_fail_duty2file two_hours all_well sends_a idle (omega arith)
      (omega arith) refl refl refl (omega arith)
