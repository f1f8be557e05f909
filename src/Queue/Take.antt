-- ===== src/Queue/Take.antt =====
-- sharelib/QueueMng.cpp: `getDutyFSendQ`, by which a send thread takes its next duty.
use octopusd.Prelude.{
  ℕ, ◌+◌, ◌≡◌, Bool, true, false, ◌||◌, List, [], ◌∷◌, ◌++◌, Option, none, some, ◌==◌,
  if◌then◌else◌,
}
use octopusd.Prelude.Map.{insert, nat_key}
use octopusd.Queue.{
  QueueMng, SendDuty, ip_port, protocol_upload_file, protocol_del_file, protocol_mv_file,
  protocol_cp_file, protocol_pack_file,
}
use octopusd.Queue.Check.{count_work}
use octopusd.Queue.Put.{is_failing}
pub mod Conservation
pub mod Order

-- The counters that move when a duty is taken, by its protocol.
unfoldable pub count_send : ℕ → QueueMng → QueueMng
count_send t q =
    if t == protocol_del_file
    then record q { nr_of_send_del_file = q.nr_of_send_del_file + 1 }
    else if t == protocol_upload_file || t == protocol_pack_file
    then record q { nr_of_send_upload_file = q.nr_of_send_upload_file + 1 }
    else if t == protocol_mv_file
    then record q { nr_of_send_mv_file = q.nr_of_send_mv_file + 1 }
    else if t == protocol_cp_file
    then record q { nr_of_send_cp_file = q.nr_of_send_cp_file + 1 }
    else q

-- The thread has taken the duty.
unfoldable pub start_sending : ℕ → SendDuty → QueueMng → QueueMng
unfolding count_send count_work
start_sending me d q = count_send d.protocol_type (record q {
  send_work_time = count_work me q.send_work_time;
  sending_q = insert me d q.sending_q;
})

-- The head of the normal queue. Where its server has failed by now, it goes to the error queue
-- and the thread has nothing.
unfoldable pub take_normal : ℕ → QueueMng → SendDuty → List SendDuty → Option SendDuty × QueueMng
unfolding start_sending
take_normal me q d rest =
    if is_failing (ip_port d.server_ip d.server_port) q
    then (none, record q { send_q = rest; send_error_q = q.send_error_q ++ d ∷ [] })
    else (some d, start_sending me d (record q { send_q = rest }))

-- The head of the error queue.
unfoldable pub take_failed : ℕ → QueueMng → SendDuty → List SendDuty → Option SendDuty × QueueMng
unfolding start_sending
take_failed me q d rest = (some d, start_sending me d (record q { send_error_q = rest }))

-- The choice for a thread of normal duties (`iType` 0): the error queue where the other is empty.
unfoldable pub take_type0 :
    ℕ → List SendDuty → List SendDuty → QueueMng → Option SendDuty × QueueMng
unfolding take_normal take_failed
take_type0 me [] [] q = (none, q)
take_type0 me [] (e ∷ es) q = take_failed me q e es
take_type0 me (d ∷ ds) es q = take_normal me q d ds

-- The choice for a thread of failed duties (`iType` 1).
unfoldable pub take_type1 :
    ℕ → List SendDuty → List SendDuty → QueueMng → Option SendDuty × QueueMng
unfolding take_normal take_failed
take_type1 me [] [] q = (none, q)
take_type1 me (d ∷ ds) [] q = take_normal me q d ds
take_type1 me ds (e ∷ es) q = take_failed me q e es

-- CQueueMng::getDutyFSendQ, by `iType`; `none` stands for -1.
unfoldable pub get_duty_f_send_q : ℕ → ℕ → QueueMng → Option SendDuty × QueueMng
unfolding take_type0 take_type1
get_duty_f_send_q me type q =
    if type == 0
    then take_type0 me q.send_q q.send_error_q q
    else if type == 1
    then take_type1 me q.send_q q.send_error_q q
    else (none, q)
