-- ===== src/Queue/FailLog/Frame.antt =====
-- sharelib/QueueMng.cpp: what writing a record leaves alone.
use octopusd.Prelude.{ℕ, ◌≡◌, arith}
use octopusd.Queue.{QueueMng, SendDuty}
use octopusd.Queue.FailLog.{FailIo, next_file, write_record, put_fail_duty2file}

-- The duties and the tables of two states are the same.
pub record SameDuties (q q' : QueueMng) : Type 0 where
  pub config : q'.config ≡ q.config
  pub recving_q : q'.recving_q ≡ q.recving_q
  pub send_q : q'.send_q ≡ q.send_q
  pub error_ip_port : q'.error_ip_port ≡ q.error_ip_port
  pub send_error_q : q'.send_error_q ≡ q.send_error_q
  pub sending_q : q'.sending_q ≡ q.sending_q

next_file-SameDuties : (q : QueueMng) → SameDuties q (next_file q)
unfolding next_file
next_file-SameDuties q = ground arith

write_record-SameDuties :
    (io : FailIo) (d : SendDuty) (q : QueueMng) → SameDuties q (write_record io d q)
unfolding write_record
write_record-SameDuties io d q = ground arith

pub put_fail_duty2file-SameDuties :
    (io : ℕ → FailIo) (d : SendDuty) (q : QueueMng) → SameDuties q (put_fail_duty2file io d q)
unfolding put_fail_duty2file
put_fail_duty2file-SameDuties io d q =
    ground
      (arith, next_file-SameDuties q, write_record-SameDuties (io q.disk.tries) d (next_file q))
