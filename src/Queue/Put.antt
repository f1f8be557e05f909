-- ===== src/Queue/Put.antt =====
-- sharelib/QueueMng.cpp: `putDuty2SendQ`, which puts a duty into the queues of the send threads.
-- The counters of failures wrap as an `unsigned int` does.
use octopusd.Prelude.{
  ℕ, ◌+◌, ◌%◌, ◌^◌, ◌≡◌, Bool, true, false, not, ◌&&◌, List, [], ◌∷◌, ◌++◌, Option, none, some, ltb,
  leb, ◌==◌, if◌then◌else◌, length,
}
use octopusd.Prelude.Bytes.{Bytes}
use octopusd.Prelude.Int.{ℤ, pos, negsuc}
use octopusd.Prelude.Map.{Map, insert, get_or, touch, nat_key, bytes_key}
use octopusd.Config.{ServerInfo, get_site_server}
use octopusd.Queue.{
  QueueMng, RecvingDuty, SendDuty, over, default_recving, ip_port, max_times_to_error_ip_list,
}
use octopusd.Queue.Check.{is_normal}
use octopusd.Queue.FailLog.{FailIo, put_fail_duty2file}
pub mod Bounds
pub mod Placement

-- DefaultMaxOfErrorQueue.
abbrev pub default_max_of_error_queue : ℕ
default_max_of_error_queue = 300000

-- The failures of a server so far.
unfoldable pub fail_times : Bytes → QueueMng → ℕ
fail_times key q = get_or key 0 q.error_ip_port

-- A server with three failures is served from the error queue.
unfoldable pub is_failing : Bytes → QueueMng → Bool
is_failing key q = leb max_times_to_error_ip_list (fail_times key q)

-- The limit of the normal queue, where 0 is none.
unfoldable pub send_q_is_full : QueueMng → Bool
send_q_is_full q =
    let max = q.config.com_cfg.max_nr_of_queue_duty in not (max == 0) && leb max (length q.send_q)

-- The limit of the error queue, where 0 is the default one.
unfoldable pub max_of_error_queue : QueueMng → ℕ
max_of_error_queue q =
    let max = q.config.com_cfg.max_nr_of_queue_duty in
    if max == 0 then default_max_of_error_queue else max

unfoldable pub error_q_is_full : QueueMng → Bool
unfolding max_of_error_queue
error_q_is_full q = leb (max_of_error_queue q) (length q.send_error_q)

-- The queue for the duty's server, or the file of failed duties where that queue is full. True
-- means that the duty is queued. Both branches of `putDuty2SendQ` end in this code.
unfoldable pub enqueue : (ℕ → FailIo) → SendDuty → QueueMng → Bool × QueueMng
unfolding is_failing send_q_is_full error_q_is_full
enqueue io d q =
    if is_failing (ip_port d.server_ip d.server_port) q
    then (if error_q_is_full q
        then (false, put_fail_duty2file io d q)
        else (true, record q { send_error_q = q.send_error_q ++ d ∷ [] }))
    else if send_q_is_full q
    then (false, put_fail_duty2file io d q)
    else (true, record q { send_q = q.send_q ++ d ∷ [] })

-- The duty as it is sent to one server.
unfoldable pub for_server : SendDuty → ServerInfo → SendDuty
for_server d s = record d { nr_of_fail = 0; server_ip = s.ip; server_port = s.port }

-- The loop over the servers of the site.
unfoldable pub put_servers : (ℕ → FailIo) → SendDuty → List ServerInfo → QueueMng → QueueMng
unfolding enqueue for_server
put_servers io d [] q = q
put_servers io d (s ∷ l) q = put_servers io d l (enqueue io (for_server d s) q).1

-- `AddServerInfo`: the receiving thread is done with its duty, which goes to each server of the
-- site, unless it has been cancelled or duties are not passed on.
unfoldable pub put_add_server_info : (ℕ → FailIo) → ℕ → SendDuty → QueueMng → QueueMng
unfolding is_normal put_servers get_site_server
put_add_server_info io me d q =
    let r = get_or me default_recving q.recving_q in
    let finished = record q { recving_q = insert me (record r { state = over }) q.recving_q } in
    let found = get_site_server q.config d.site_name in
    if is_normal r.state
    then (if q.config.com_cfg.distribute_flag == 0
        then finished
        else put_servers io d found.0 (record finished { config = found.1 }))
    else record q { recving_q = touch me default_recving q.recving_q }

-- `m_mapErrorIPPort[...]++`.
unfoldable pub count_failure : Bytes → QueueMng → QueueMng
count_failure key q = record q {
  error_ip_port = insert key ((fail_times key q + 1) % 2 ^ 32) q.error_ip_port;
}

-- `Direct`: a duty that goes to its own server, first or once more. A duty that has failed is
-- counted against its server, and is given up when it has failed too often. True stands for 0.
unfoldable pub put_direct : (ℕ → FailIo) → SendDuty → QueueMng → Bool × QueueMng
unfolding enqueue count_failure
put_direct io d q =
    let counted = count_failure (ip_port d.server_ip d.server_port) q in
    if q.config.com_cfg.distribute_flag == 0
    then (true, q)
    else if d.nr_of_fail == 0
    then enqueue io d q
    else if leb q.config.com_cfg.max_nr_of_retry d.nr_of_fail
    then (false, put_fail_duty2file io d counted)
    else enqueue io d counted

-- CQueueMng::PutSendType.
pub data PutSendType : Type 0 where
  add_server_info direct : PutSendType

-- The size of a received file is counted before anything else.
unfoldable pub count_size : ℕ → QueueMng → QueueMng
count_size size q = record q { total_size_of_recv_file = q.total_size_of_recv_file + size }

-- CQueueMng::putDuty2SendQ; true stands for 0 and false for -1.
unfoldable pub put_duty2send_q :
    (ℕ → FailIo) → ℕ → SendDuty → PutSendType → ℕ → QueueMng → Bool × QueueMng
unfolding put_add_server_info put_direct count_size
put_duty2send_q io me d add_server_info size q =
    (true, put_add_server_info io me d (count_size size q))
put_duty2send_q io me d direct size q = put_direct io d (count_size size q)
