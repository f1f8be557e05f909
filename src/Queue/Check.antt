-- ===== src/Queue/Check.antt =====
-- sharelib/QueueMng.cpp: `check`, which decides whether a received duty is dealt with, and the
-- states of the duties in work (`judgeNormal`, `setOver`). A method runs under the class's lock,
-- so it is one step; the argument `me` is the calling thread.
use octopusd.Prelude.{
  ℕ, ◌+◌, ◌≡◌, Bool, true, false, not, ◌&&◌, ◌||◌, List, [], ◌∷◌, Option, none, some, ◌==◌,
  if◌then◌else◌,
}
use octopusd.Prelude.Bytes.{Bytes, bytes_eq, bytes_lt}
use octopusd.Prelude.Int.{ℤ, pos, negsuc}
use octopusd.Prelude.Map.{Map, insert, get_or, touch, nat_key}
use octopusd.Queue.{
  QueueMng, RecvingDuty, SendDuty, DutyState, normal, giveup, over, error, default_recving,
  default_send, protocol_upload_file, protocol_del_file, protocol_mv_file, protocol_cp_file,
  protocol_pack_file,
}
pub mod Exclusive
pub mod Freshness

unfoldable pub is_normal : DutyState → Bool
is_normal error = false
is_normal normal = true
is_normal giveup = false
is_normal over = false

-- The counters that `check` moves, by the protocol of the duty.
unfoldable pub count_recv : ℕ → QueueMng → QueueMng
count_recv t q =
    if t == protocol_upload_file || t == protocol_pack_file
    then record q { nr_of_recv_upload_file = q.nr_of_recv_upload_file + 1 }
    else if t == protocol_del_file
    then record q { nr_of_recv_del_file = q.nr_of_recv_del_file + 1 }
    else if t == protocol_mv_file
    then record q { nr_of_recv_mv_file = q.nr_of_recv_mv_file + 1 }
    else if t == protocol_cp_file
    then record q { nr_of_recv_cp_file = q.nr_of_recv_cp_file + 1 }
    else q

-- `iRet` of `check`: -1, 0, 1 and 3.
pub data Verdict : Type 0 where
  older fresh replaces_recving replaces_sending : Verdict

unfoldable pub verdict_code : Verdict → ℤ
verdict_code older = negsuc 0
verdict_code fresh = pos 0
verdict_code replaces_recving = pos 1
verdict_code replaces_sending = pos 3

-- The tests with which both loops pass an entry over: it is the thread's own, it is not in its
-- normal state, or it is for another site or file.
unfoldable pub is_rival : ℕ → RecvingDuty → ℕ → DutyState → Bytes → Bytes → Bool
unfolding is_normal
is_rival me d t state site path =
    not (t == me)
    && (is_normal state && (bytes_eq d.site_name site && bytes_eq d.dest_path_file path))

-- The loop over the duties that are being received: it ends at the first rival.
unfoldable pub scan_recving : ℕ → RecvingDuty → Map ℕ RecvingDuty → Verdict × Map ℕ RecvingDuty
scan_recving me d [] = (fresh, [])
scan_recving me d ((t, r) ∷ m) =
    let rest = scan_recving me d m in
    if is_rival me d t r.state r.site_name r.dest_path_file
    then (if bytes_lt d.sended_time r.sended_time
        then (older, (t, r) ∷ m)
        else (replaces_recving, (t, record r { state = giveup }) ∷ m))
    else (rest.0, (t, r) ∷ rest.1)

-- The loop over the duties that are being sent: several threads may send one file, so it goes on
-- behind a rival that it replaces. The first argument is `iRet` so far.
unfoldable pub scan_sending : Verdict → ℕ → RecvingDuty → Map ℕ SendDuty → Verdict × Map ℕ SendDuty
scan_sending v me d [] = (v, [])
scan_sending v me d ((t, s) ∷ m) =
    let go_on = scan_sending v me d m in
    let replace = scan_sending replaces_sending me d m in
    if is_rival me d t s.state s.site_name s.dest_path_file
    then (if bytes_lt d.sended_time s.sended_time
        then (older, (t, s) ∷ m)
        else (replace.0, (t, record s { state = giveup }) ∷ replace.1))
    else (go_on.0, (t, s) ∷ go_on.1)

-- What `check` enters for the thread: the duty itself, given up where a newer one is in work.
unfoldable pub entered : Verdict → RecvingDuty → RecvingDuty
entered older d = record d { state = giveup }
entered fresh d = d
entered replaces_recving d = d
entered replaces_sending d = d

unfoldable pub enter_recving : ℕ → Verdict → RecvingDuty → QueueMng → QueueMng
unfolding entered
enter_recving me v d q = record q { recving_q = insert me (entered v d) q.recving_q }

-- What follows the first loop, by its result.
unfoldable pub check_sending : ℕ → RecvingDuty → Verdict → QueueMng → Verdict × QueueMng
unfolding enter_recving scan_sending
check_sending me d older q = (older, enter_recving me older d q)
check_sending me d replaces_recving q = (replaces_recving, enter_recving me replaces_recving d q)
check_sending me d replaces_sending q = (replaces_sending, enter_recving me replaces_sending d q)
check_sending me d fresh q =
    let scanned = scan_sending fresh me d q.sending_q in
    if q.config.com_cfg.distribute_flag == 0
    then (fresh, enter_recving me fresh d q)
    else (scanned.0, enter_recving me scanned.0 d (record q { sending_q = scanned.1 }))

-- `m_mapRecvWorkTime[...]++`.
unfoldable pub count_work : ℕ → Map ℕ ℕ → Map ℕ ℕ
count_work me m = insert me (get_or me 0 m + 1) m

-- CQueueMng::check. The caller's duty is afterwards `entered` of the verdict.
unfoldable pub check : ℕ → RecvingDuty → QueueMng → Verdict × QueueMng
unfolding count_recv scan_recving check_sending count_work
check me d q =
    let counted =
      count_recv d.protocol_type (record q { recv_work_time = count_work me q.recv_work_time }) in
    let scanned = scan_recving me d q.recving_q in
    check_sending me d scanned.0 (record counted { recving_q = scanned.1 })

-- CQueueMng::QueueType.
pub data QueueType : Type 0 where
  recving_queue send_queue sending_queue last_suc_queue : QueueType

-- CQueueMng::judgeNormal: true for its 0. Reading by `[]` enters a thread that has no duty yet.
unfoldable pub judge_normal : ℕ → QueueType → QueueMng → Bool × QueueMng
unfolding is_normal
judge_normal t recving_queue q = (
  is_normal (get_or t default_recving q.recving_q).state,
  record q { recving_q = touch t default_recving q.recving_q },
)
judge_normal t send_queue q = (true, q)
judge_normal t sending_queue q = (
  is_normal (get_or t default_send q.sending_q).state,
  record q { sending_q = touch t default_send q.sending_q },
)
judge_normal t last_suc_queue q = (true, q)

-- CQueueMng::setOver.
unfoldable pub set_over : ℕ → QueueType → QueueMng → QueueMng
set_over t recving_queue q =
    let r = get_or t default_recving q.recving_q in
    record q { recving_q = insert t (record r { state = over }) q.recving_q }
set_over t send_queue q = q
set_over t sending_queue q =
    let s = get_or t default_send q.sending_q in
    record q { sending_q = insert t (record s { state = over }) q.sending_q }
set_over t last_suc_queue q = q
