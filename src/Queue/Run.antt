-- ===== src/Queue/Run.antt =====
-- The threads of the daemon (src/octopusd.cpp) as a sequence of calls on the one CQueueMng: each
-- method holds the lock, so a call is a step, and the order of the calls is any.
use octopusd.Prelude.{ℕ, ◌≡◌, refl, List, [], ◌∷◌, ◌++◌}
use octopusd.Prelude.Bytes.{Bytes}
use octopusd.Queue.{QueueMng, RecvingDuty, SendDuty}
use octopusd.Queue.Check.{QueueType, check, judge_normal, set_over}
use octopusd.Queue.FailLog.{FailIo}
use octopusd.Queue.Put.{PutSendType, put_duty2send_q}
use octopusd.Queue.Take.{get_duty_f_send_q}
use octopusd.Queue.Upkeep.{
  mv_error_q2send_q, clear_disabled_duty, clear_error_ip_port, init_thread_stat_info,
  clear_stat_info,
}
pub mod Exclusive
pub mod Accounts
pub mod Ledger
pub mod Appends
pub mod Service
pub mod Settings

-- A call with its arguments; the first number is the calling thread, where the method asks for it.
pub data Call : Type 0 where
  checks : ℕ → RecvingDuty → Call
  judges : ℕ → QueueType → Call
  finishes : ℕ → QueueType → Call
  puts : (ℕ → FailIo) → ℕ → SendDuty → PutSendType → ℕ → Call
  takes : ℕ → ℕ → Call
  moves : Call
  clears_disabled : Call
  clears_error : Bytes → Call
  starts_thread : ℕ → ℕ → Call
  prints_stat : Call

unfoldable pub step : Call → QueueMng → QueueMng
step (checks me d) q = (check me d q).1
step (judges me t) q = (judge_normal me t q).1
step (finishes me t) q = set_over me t q
step (puts io me d type size) q = (put_duty2send_q io me d type size q).1
step (takes me type) q = (get_duty_f_send_q me type q).1
step moves q = mv_error_q2send_q q
step clears_disabled q = clear_disabled_duty q
step (clears_error key) q = clear_error_ip_port key q
step (starts_thread type me) q = init_thread_stat_info type me q
step prints_stat q = clear_stat_info q

unfoldable pub run : List Call → QueueMng → QueueMng
unfolding step
run [] q = q
run (c ∷ cs) q = run cs (step c q)

-- Two histories, one behind the other.
pub run-append : (a b : List Call) (q : QueueMng) → run (a ++ b) q ≡ run b (run a q)
unfolding run
run-append [] b q = refl
run-append (c ∷ a) b q = run-append a b (step c q)
