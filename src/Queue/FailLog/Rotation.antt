-- ===== src/Queue/FailLog/Rotation.antt =====
-- sharelib/QueueMng.cpp: where the records of failed duties go, and the restart.
use octopusd.Prelude.{ℕ, ◌+◌, ◌≤◌, ◌≡◌, ◌≢◌, refl, true, List, [], ◌∷◌, ◌++◌, arith, ==-false}
use octopusd.Prelude.Int.{atoi-int_str-append, is_digit}
use octopusd.Queue.{QueueMng, SendDuty, protocol_del_file}
use octopusd.Queue.FailLog.{
  FailIo, max_seq_of_fail_file_name, max_seq_of_fail_record, next_file, write_record,
  put_fail_duty2file, put_all_fail, save_duty_queue2file, init, seq_line, seq_number, read_seq,
}

-- The file in use has one of the 10,000 names, and at most 10,000 records have been counted in.
pub record IsRotating (q : QueueMng) : Type 0 where
  pub named : q.file_seq ≤ max_seq_of_fail_file_name
  pub counted : q.record_seq ≤ max_seq_of_fail_record

-- Writing a failed duty keeps the number of the file at most 9999 and the number of records at
-- most 10000, whatever file operations fail.
pub put_fail_duty2file-IsRotating :
    (io : ℕ → FailIo) (d : SendDuty) (q : QueueMng)
    → IsRotating q
    → IsRotating (put_fail_duty2file io d q)
unfolding put_fail_duty2file next_file write_record
put_fail_duty2file-IsRotating io d q v = ground arith

put_all_fail-IsRotating :
    (io : ℕ → FailIo) (l : List SendDuty) (q : QueueMng)
    → IsRotating q
    → IsRotating (put_all_fail io l q)
unfolding put_all_fail
put_all_fail-IsRotating io [] q v = v
put_all_fail-IsRotating io (d ∷ l) q v =
    put_all_fail-IsRotating io l _ (put_fail_duty2file-IsRotating io d q v)

-- Saving both queues keeps the number of the file at most 9999 and the number of records at most
-- 10000.
pub save_duty_queue2file-IsRotating :
    (io : ℕ → FailIo) (q : QueueMng) → IsRotating q → IsRotating (save_duty_queue2file io q)
unfolding save_duty_queue2file
save_duty_queue2file-IsRotating io q v =
    put_all_fail-IsRotating io q.send_error_q _ (put_all_fail-IsRotating io q.send_q q v)

pub seq_number-seq_line : (n : ℕ) → seq_number (seq_line n) ≡ n
unfolding seq_number seq_line is_digit
seq_number-seq_line n = rw (atoi-int_str-append n b'\n' [] refl)

next_file-disk : (q : QueueMng) → (next_file q).disk ≡ q.disk
unfolding next_file
next_file-disk q = ground arith

-- What a restart behind a written record finds.
abbrev pub Resumes : QueueMng → SendDuty → QueueMng → Type 0
Resumes q d q' =
    ((init q').file_seq ≡ q'.file_seq)
    × ((init q').record_seq ≡ q'.record_seq)
    × (q'.disk.records ≡ q.disk.records ++ (q'.file_seq, d) ∷ [])

init-write_record :
    (io : FailIo) (d : SendDuty) (q : QueueMng)
    → io.open_record ≡ true
    → io.write_record ≡ true
    → io.open_seq ≡ true
    → Resumes q d (write_record io d q)
unfolding write_record init read_seq
init-write_record io d q opened written noted =
    rw (opened, written, noted)
      (seq_number-seq_line q.file_seq, seq_number-seq_line (q.record_seq + 1), refl)

-- Where failed duties are logged, the duty deletes no file, and its record and the sequence file
-- can be written, the record is appended, and a restart goes on at the same file and the same
-- record. No record that was there is lost, also not where the numbers wrap around to a file that
-- is still there.
pub init-put_fail_duty2file :
    (io : ℕ → FailIo) (d : SendDuty) (q : QueueMng)
    → q.config.com_cfg.if_fail_log_flag ≢ 0
    → d.protocol_type ≢ protocol_del_file
    → (io q.disk.tries).open_record ≡ true
    → (io q.disk.tries).write_record ≡ true
    → (io q.disk.tries).open_seq ≡ true
    → Resumes q d (put_fail_duty2file io d q)
unfolding put_fail_duty2file next_file
init-put_fail_duty2file io d q on kept opened written noted =
    let done = init-write_record (io q.disk.tries) d (next_file q) opened written noted in
    rw (==-false on, ==-false kept) (rw (next_file-disk q) at done)
