-- ===== src/Maintain/Routine.antt =====
-- sharelib/Maintain.cpp: `routine`, which looks at the state of the daemon from time to time,
-- `checkFailDutyExist` and `sendMobileMsg`. The times, the answers of servers, the list of mobile
-- numbers and the words of an alarm are arguments.
use octopusd.Prelude.{
  ℕ, ◌+◌, ◌*◌, ◌≡◌, ◌≢◌, ◌<◌, refl, ap, ◌∙◌, Bool, true, false, not, ◌&&◌, List, [], ◌∷◌, ◌++◌,
  Option, none, some, arith, ltb, leb, ◌==◌, if◌then◌else◌, ==-false,
}
use octopusd.Prelude.Bytes.{Bytes}
use octopusd.Prelude.Int.{ℤ}
use octopusd.Prelude.Map.{Map}
use octopusd.Config.{ComCfg}
use octopusd.Text.EqualFile.{read_equal_value_file}
use octopusd.Text.Words.{get_sub_str_by_word}
use octopusd.Queue.{QueueMng, SendDuty, Disk, protocol_del_file}
use octopusd.Queue.FailLog.{
  FailIo, put_fail_duty2file, next_file, write_record, write_seq, seq_number,
}
use octopusd.Queue.FailLog.Rotation.{seq_number-seq_line}
use octopusd.Queue.Run.{run}
use octopusd.Queue.Upkeep.{get_queue_info, clear_stat_info}
use octopusd.Queue.Reload.{records_of}
use octopusd.Maintain.{Daemon, recover_servers}

-- When each job was done last.
pub record LastTimes : Type 0 where
  pub q_stat : ℕ
  pub backup_log : ℕ
  pub check_error_ip : ℕ
  pub check_run_status : ℕ

-- What is reported: so many duties wait, or duties failed, with the servers that fail.
pub data Alarm : Type 0 where
  many_duties : ℕ → Alarm
  failed_duties : List Bytes → Alarm

-- The time, the answers of checkServerStatus at its first and second call, the time within
-- checkFailDutyExist, when a file of failed duties was changed, the list of mobile numbers, the
-- address of the machine and the words of an alarm.
pub record RoutineEnv : Type 0 where
  pub now : ℕ
  pub first : Bytes → ℤ → Bool
  pub second : Bytes → ℤ → Bool
  pub check_now : ℕ
  pub modified : ℕ → ℕ
  pub mobile_list : Option Bytes
  pub host_ip : Option Bytes
  pub words : Alarm → Bytes

-- The file has a record and was changed within three hours.
unfoldable pub has_records : ℕ → List (ℕ × SendDuty) → Bool
unfolding records_of
has_records n l = elim (records_of n l) [ [] ↦ false | d ∷ ds ↦ true ]

unfoldable pub is_recent : RoutineEnv → ℕ → Disk → Bool
unfolding has_records
is_recent env n disk =
    has_records n disk.records && ltb env.check_now (env.modified n + 3 * 60 * 60)

unfoldable pub recent_file : RoutineEnv → Disk → Option (List Bytes) → Bool
unfolding is_recent seq_number
recent_file env disk none = false
recent_file env disk (some []) = false
recent_file env disk (some (line ∷ rest)) = is_recent env (seq_number line) disk

-- CMaintain::checkFailDutyExist; true stands for 1.
unfoldable pub check_fail_duty_exist : RoutineEnv → QueueMng → Bool
unfolding recent_file
check_fail_duty_exist env q = recent_file env q.disk q.disk.seq_file

-- CMaintain::sendMobileMsg: the pieces with the numbers that they are sent to.
unfoldable pub address_or : Bytes → Option Bytes → Bytes
address_or server_ip none = server_ip
address_or server_ip (some ip) = ip

-- The words in front, in the bytes of the source's encoding.
abbrev alarm_words : Bytes
alarm_words = 213 ∷ 194 ∷ 211 ∷ 227 ∷ 177 ∷ 168 ∷ 190 ∷ 175 ∷ []

unfoldable pub mobile_text : RoutineEnv → ComCfg → Bytes → Bytes
unfolding address_or
mobile_text env c info =
    let ip = address_or c.server_ip env.host_ip in
    alarm_words ++ b'[' ∷ (c.server_flag ++ (b']' ∷ (b'[' ∷ (ip ++ (b']' ∷ info)))))

unfoldable pub send_pieces : Bytes → List Bytes → List (Bytes × Bytes)
send_pieces number [] = []
send_pieces number (p ∷ ps) = (number, p) ∷ send_pieces number ps

unfoldable pub send_all : Map Bytes Bytes → List Bytes → List (Bytes × Bytes)
unfolding send_pieces
send_all [] pieces = []
send_all ((name, number) ∷ m) pieces = send_pieces number pieces ++ send_all m pieces

unfoldable pub pieces_of : Option (List Bytes) → List Bytes
pieces_of none = []
pieces_of (some pieces) = pieces

unfoldable pub send_mobile_msg : RoutineEnv → ComCfg → Bytes → List (Bytes × Bytes)
unfolding read_equal_value_file send_all pieces_of get_sub_str_by_word mobile_text
send_mobile_msg env c info = elim (read_equal_value_file env.mobile_list) [
  | none ↦ []
  | some numbers ↦ send_all numbers (pieces_of (get_sub_str_by_word (mobile_text env c info) 70))
]

unfoldable pub keys_of : Map Bytes ℕ → List Bytes
keys_of [] = []
keys_of ((key, n) ∷ m) = key ∷ keys_of m

-- The reports on the queues and on failed duties, and whether dat/maxduty.alm is written.
unfoldable pub report_queue : RoutineEnv → QueueMng → List (Bytes × Bytes) × Bool
unfolding send_mobile_msg get_queue_info
report_queue env q =
    let c = q.config.com_cfg in
    let size = get_queue_info q in
    if leb c.max_nr_of_duty_to_alarm size
    then (send_mobile_msg env c (env.words (many_duties size)), true)
    else ([], false)

unfoldable pub report_failed : RoutineEnv → QueueMng → List (Bytes × Bytes)
unfolding send_mobile_msg check_fail_duty_exist keys_of
report_failed env q =
    if check_fail_duty_exist env q
    then send_mobile_msg env q.config.com_cfg (env.words (failed_duties (keys_of q.error_ip_port)))
    else []

-- What a turn of `routine` leaves.
pub record RoutineDone : Type 0 where
  pub daemon : Daemon
  pub times : LastTimes
  pub sent : List (Bytes × Bytes)
  pub alarm_file : Bool

-- A time of 0 switches a job off.
unfoldable pub is_due : ℕ → ℕ → ℕ → Bool
is_due every last now = not (every == 0) && leb (last + every) now

unfoldable pub stat_job : ℕ → Daemon × LastTimes → Daemon × LastTimes
unfolding is_due clear_stat_info
stat_job now (d, t) =
    if is_due d.queue.config.com_cfg.time_of_thread_stat t.q_stat now
    then (record d { queue = clear_stat_info d.queue }, record t { q_stat = now })
    else (d, t)

unfoldable pub backup_job : ℕ → Daemon × LastTimes → Daemon × LastTimes
backup_job now (d, t) =
    if leb (t.backup_log + 60) now then (d, record t { backup_log = now }) else (d, t)

unfoldable pub error_ip_job : RoutineEnv → Daemon × LastTimes → Daemon × LastTimes
unfolding recover_servers run
error_ip_job env (d, t) =
    let q = run (recover_servers env.first env.second d.queue.error_ip_port) d.queue in
    if leb (t.check_error_ip + 300) env.now
    then (record d { queue = q }, record t { check_error_ip = env.now })
    else (d, t)

unfoldable pub status_job : RoutineEnv → Daemon × LastTimes → RoutineDone
unfolding is_due report_queue report_failed
status_job env (d, t) =
    let full = report_queue env d.queue in
    if is_due d.queue.config.com_cfg.time_of_check_run_status t.check_run_status env.now
    then record {
      daemon = d;
      times = record t { check_run_status = env.now };
      sent = full.0 ++ report_failed env d.queue;
      alarm_file = full.1;
    }
    else record { daemon = d; times = t; sent = []; alarm_file = false }

-- CMaintain::routine.
unfoldable pub routine : RoutineEnv → LastTimes → Daemon → RoutineDone
unfolding status_job error_ip_job backup_job stat_job
routine env t d = status_job env (error_ip_job env (backup_job env.now (stat_job env.now (d, t))))

has_records-append :
    (n : ℕ) (d : SendDuty) (l : List (ℕ × SendDuty)) → has_records n (l ++ (n, d) ∷ []) ≡ true
unfolding has_records records_of
has_records-append n d [] = ground arith
has_records-append n d ((k, e) ∷ l) = ground (arith, has_records-append n d l)

is_recent-write_record :
    (env : RoutineEnv) (io : FailIo) (d : SendDuty) (q : QueueMng)
    → io.open_record ≡ true
    → io.write_record ≡ true
    → io.open_seq ≡ true
    → env.check_now < env.modified q.file_seq + 10800
    → check_fail_duty_exist env (write_record io d q) ≡ true
unfolding check_fail_duty_exist recent_file is_recent write_record write_seq
is_recent-write_record env io d q opened written noted recent =
    rw
      (
        opened,
        written,
        noted,
        seq_number-seq_line q.file_seq,
        has_records-append q.file_seq d q.disk.records,
      )
      (ground arith)

file_seq-put_fail_duty2file :
    (io : ℕ → FailIo) (d : SendDuty) (q : QueueMng)
    → q.config.com_cfg.if_fail_log_flag ≢ 0
    → d.protocol_type ≢ protocol_del_file
    → put_fail_duty2file io d q ≡ write_record (io q.disk.tries) d (next_file q)
unfolding put_fail_duty2file
file_seq-put_fail_duty2file io d q on kept = rw (==-false on, ==-false kept) refl

-- Where failed duties are logged, a duty that deletes no file and whose record and number of the
-- file are written makes `checkFailDutyExist` answer 1 for the three hours behind the last change
-- of that file.
pub check_fail_duty_exist-put_fail_duty2file :
    (env : RoutineEnv) (io : ℕ → FailIo) (d : SendDuty) (q : QueueMng)
    → q.config.com_cfg.if_fail_log_flag ≢ 0
    → d.protocol_type ≢ protocol_del_file
    → (io q.disk.tries).open_record ≡ true
    → (io q.disk.tries).write_record ≡ true
    → (io q.disk.tries).open_seq ≡ true
    → env.check_now < env.modified (next_file q).file_seq + 10800
    → check_fail_duty_exist env (put_fail_duty2file io d q) ≡ true
check_fail_duty_exist-put_fail_duty2file env io d q on kept opened written noted recent =
    ap (check_fail_duty_exist env) (file_seq-put_fail_duty2file io d q on kept)
    ∙ is_recent-write_record env (io q.disk.tries) d (next_file q) opened written noted recent
