-- ===== src/Queue/FailLog.antt =====
-- sharelib/QueueMng.cpp: the files of failed duties, `init`, `putFailDuty2File` and
-- `saveDutyQueue2File`. What `fopen` and `fwrite` answer is an argument: the outcomes of the
-- calls, in the order in which records are tried. A short write leaves no record.
use octopusd.Prelude.{
  ℕ, suc, ◌+◌, ◌≡◌, Bool, true, false, List, [], ◌∷◌, ◌++◌, Option, none, some, ltb, leb, ◌==◌,
  if◌then◌else◌,
}
use octopusd.Prelude.Bytes.{Bytes}
use octopusd.Prelude.Int.{pos, pos_part, int_str, atoi}
use octopusd.Prelude.Map.{Map, insert, get_or, touch, nat_key}
use octopusd.Queue.{QueueMng, SendDuty, Disk, protocol_del_file}
pub mod Frame
pub mod Rotation

-- Whether the record file opens, the record is written, and failduty.seq opens.
pub record FailIo : Type 0 where
  pub open_record : Bool
  pub write_record : Bool
  pub open_seq : Bool

abbrev pub max_seq_of_fail_file_name : ℕ
max_seq_of_fail_file_name = 9999

abbrev pub max_seq_of_fail_record : ℕ
max_seq_of_fail_record = 10000

-- `sprintf(s, "%d\n", n)`.
unfoldable pub seq_line : ℕ → Bytes
unfolding int_str
seq_line n = int_str (pos n) ++ b'\n' ∷ []

-- The next file where the one in use is full, and file 0 behind the last one.
unfoldable pub next_file : QueueMng → QueueMng
next_file q =
    let r =
      if leb max_seq_of_fail_record q.record_seq
      then record q { file_seq = q.file_seq + 1; record_seq = 0 }
      else q in
    if ltb max_seq_of_fail_file_name r.file_seq then record r { file_seq = 0 } else r

-- The two lines of failduty.seq, written once a record is.
unfoldable pub write_seq : FailIo → QueueMng → QueueMng
write_seq io q =
    if io.open_seq
    then (let old = q.disk in
        record q {
          disk = record old { seq_file = some (seq_line q.file_seq ∷ seq_line q.record_seq ∷ []) };
        })
    else q

-- The record is appended to the file in use.
unfoldable pub write_record : FailIo → SendDuty → QueueMng → QueueMng
unfolding write_seq
write_record io d q =
    let old = q.disk in
    let tried = record old { tries = old.tries + 1 } in
    let failed = record q { disk = tried } in
    if io.open_record
    then (if io.write_record
        then write_seq io (record q {
          record_seq = q.record_seq + 1;
          disk = record tried { records = old.records ++ (q.file_seq, d) ∷ [] };
        })
        else failed)
    else failed

-- CQueueMng::putFailDuty2File. Nothing is kept where the files are switched off, and no duty
-- that deletes a file.
unfoldable pub put_fail_duty2file : (ℕ → FailIo) → SendDuty → QueueMng → QueueMng
put_fail_duty2file io d q =
    if q.config.com_cfg.if_fail_log_flag == 0
    then q
    else if d.protocol_type == protocol_del_file
    then q
    else write_record (io q.disk.tries) d (next_file q)

-- A number that `atoi` reads from failduty.seq, where the program writes none below 0.
unfoldable pub seq_number : Bytes → ℕ
seq_number s = pos_part (atoi s)

-- The two `fgets` of `init`: where a line is missing the buffer stays as it was.
unfoldable pub read_seq : List Bytes → ℕ × ℕ
read_seq [] = (seq_number [], seq_number [])
read_seq (a ∷ []) = (seq_number a, seq_number a)
read_seq (a ∷ b ∷ rest) = (seq_number a, seq_number b)

-- The counters that `init` sets to 0.
unfoldable pub clear_counters : QueueMng → QueueMng
clear_counters q = record q {
  file_seq = 0;
  record_seq = 0;
  total_size_of_recv_file = 0;
  nr_of_recv_upload_file = 0;
  nr_of_send_upload_file = 0;
  nr_of_recv_del_file = 0;
  nr_of_send_del_file = 0;
  nr_of_recv_mv_file = 0;
  nr_of_send_mv_file = 0;
  nr_of_recv_cp_file = 0;
  nr_of_send_cp_file = 0;
}

-- CQueueMng::init.
unfoldable pub init : QueueMng → QueueMng
unfolding clear_counters read_seq
init q = elim q.disk.seq_file [
  | none ↦ clear_counters q
  | some lines ↦ record (clear_counters q) {
    file_seq = (read_seq lines).0;
    record_seq = (read_seq lines).1;
  }
]

unfoldable pub put_all_fail : (ℕ → FailIo) → List SendDuty → QueueMng → QueueMng
put_all_fail io [] q = q
put_all_fail io (d ∷ l) q = put_all_fail io l (put_fail_duty2file io d q)

-- CQueueMng::saveDutyQueue2File: the duties in the normal queue, then those in the error queue.
unfoldable pub save_duty_queue2file : (ℕ → FailIo) → QueueMng → QueueMng
unfolding put_all_fail
save_duty_queue2file io q = put_all_fail io q.send_error_q (put_all_fail io q.send_q q)
