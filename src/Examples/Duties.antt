-- ===== src/Examples/Duties.antt =====
-- sharelib/QueueMng.cpp: single calls.
use octopusd.Prelude.{◌≡◌, ◌⊎◌, inr, refl, true, [], ◌∷◌, ◌++◌, map, some, arith, length}
use octopusd.Prelude.Bytes.{bytes_eq, bytes_lt}
use octopusd.Prelude.Map.{find, get_or, nat_key}
use mathlib.Core.List.{Perm}
use octopusd.Queue.{QueueMng, giveup}
use octopusd.Queue.Check.{check, is_rival, replaces_sending, is_normal}
use octopusd.Queue.Check.Exclusive.{active, IsExclusive, check-IsExclusive}
use octopusd.Queue.Check.Freshness.{
  newer_recving, newer_sending, sending_rivals, check_gives_up, check_accepts,
}
use octopusd.Queue.FailLog.{put_fail_duty2file}
use octopusd.Queue.FailLog.Rotation.{init-put_fail_duty2file, Resumes}
use octopusd.Queue.Put.{
  max_of_error_queue, put_add_server_info, put_duty2send_q, direct, for_server,
}
use octopusd.Queue.Put.Bounds.{IsBounded, put_duty2send_q-IsBounded}
use octopusd.Queue.Put.Placement.{queued, put_add_server_info-queued, finished, site_servers}
use octopusd.Queue.Take.{get_duty_f_send_q}
use octopusd.Queue.Take.Conservation.{Taken, get_duty_f_send_q-Taken}
use octopusd.Queue.Take.Order.{ServedNormal, ServedFailed, get_duty_f_send_q_order}
use octopusd.Config.{get_site_server}
use octopusd.Queue.Upkeep.{mv_error_q2send_q}
use octopusd.Queue.Upkeep.Moves.{
  mv_error_q2send_q-queued, mv_rounds, recovered, blocked, mv_rounds_lem,
}
use octopusd.Examples.Data.{idle, busy, receiving, noon, later, sends_a, all_well}

one_active : IsExclusive receiving
one_active = record { sorted = tt; unique = λ site path. (unfold active in ground arith) }

check-IsExclusive_example : IsExclusive (check 9 later receiving).1
check-IsExclusive_example = check-IsExclusive 9 later receiving one_active

check_gives_up_example :
    let q = record receiving { recving_q = (7, later) ∷ [] } in
    (find 9 (check 9 noon q).1.recving_q ≡ some (record noon { state = giveup }))
    × ((newer_recving 9 noon (check 9 noon q).1.recving_q ≡ true)
        ⊎ (newer_sending 9 noon (check 9 noon q).1.sending_q ≡ true))
unfolding check is_rival bytes_eq bytes_lt
check_gives_up_example =
    check_gives_up 9 noon (record receiving { recving_q = (7, later) ∷ [] }) refl

-- No duty is being received, so a later duty replaces the one that is being sent.
abbrev sending : QueueMng
sending = record receiving { recving_q = [] }

replaces : (check 9 later sending).0 ≡ replaces_sending
unfolding check is_rival bytes_eq bytes_lt
replaces = refl

check_accepts_example :
    (find 9 (check 9 later sending).1.recving_q ≡ some later)
    × (sending_rivals 9 later (check 9 later sending).1.sending_q ≡ 0)
check_accepts_example =
    check_accepts 9 later sending (omega arith) (rw replaces (λ h. cc)) (rw replaces (λ h. cc))

init-put_fail_duty2file_example : Resumes idle sends_a (put_fail_duty2file all_well sends_a idle)
init-put_fail_duty2file_example =
    init-put_fail_duty2file all_well sends_a idle (omega arith) (omega arith) refl refl refl

put_duty2send_q-IsBounded_example :
    IsBounded (put_duty2send_q all_well 7 (record sends_a { nr_of_fail = 1 }) direct 0 busy).1
unfolding max_of_error_queue
put_duty2send_q-IsBounded_example =
    put_duty2send_q-IsBounded all_well 7 (record sends_a { nr_of_fail = 1 }) direct 0 busy
      (record { send = inr (omega arith); failed = (omega arith) })

put_add_server_info-queued_example :
    let q' = put_add_server_info all_well 7 sends_a receiving in
    Perm (queued q') (map (for_server sends_a) (site_servers receiving sends_a) ++ queued receiving)
    × (q'.recving_q ≡ finished 7 receiving)
unfolding get_or is_normal get_site_server find bytes_eq max_of_error_queue
put_add_server_info-queued_example =
    put_add_server_info-queued all_well 7 sends_a receiving refl (omega arith)
      (inr (omega arith), omega arith)

get_duty_f_send_q-Taken_example : Taken 8 (queued busy) (get_duty_f_send_q 8 0 busy)
get_duty_f_send_q-Taken_example = get_duty_f_send_q-Taken 8 0 busy

get_duty_f_send_q_order_example :
    ServedNormal busy.send_q busy.send_error_q busy (get_duty_f_send_q 8 0 busy)
    × ServedFailed busy.send_q busy.send_error_q busy (get_duty_f_send_q 8 1 busy)
get_duty_f_send_q_order_example = get_duty_f_send_q_order 8 busy

mv_error_q2send_q-queued_example : Perm (queued (mv_error_q2send_q busy)) (queued busy)
mv_error_q2send_q-queued_example = mv_error_q2send_q-queued busy

mv_rounds_example :
    ((mv_rounds (length busy.send_error_q) busy).send_q
      ≡ busy.send_q ++ recovered busy.send_error_q busy)
    × ((mv_rounds (length busy.send_error_q) busy).send_error_q ≡ blocked busy.send_error_q busy)
mv_rounds_example = mv_rounds_lem busy
