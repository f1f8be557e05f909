-- ===== src/Queue/Put/Bounds.antt =====
-- sharelib/QueueMng.cpp: the lengths of the queues behind a put.
use octopusd.Prelude.{ℕ, ◌≤◌, ◌≡◌, ◌⊎◌, List, [], ◌∷◌, arith, length, length-append}
use octopusd.Config.{ServerInfo, get_site_server}
use octopusd.Prelude.Map.{insert, get_or, nat_key}
use octopusd.Queue.{QueueMng, SendDuty, over, default_recving, ip_port}
use octopusd.Queue.FailLog.{FailIo}
use octopusd.Queue.FailLog.Frame.{put_fail_duty2file-SameDuties}
use octopusd.Queue.Put.{
  max_of_error_queue, enqueue, for_server, put_servers, put_add_server_info, put_direct,
  count_failure, PutSendType, add_server_info, direct, put_duty2send_q, count_size,
}

-- The normal queue holds no more duties than the configuration allows, where it sets a limit,
-- and the error queue no more than its own limit.
pub record IsBounded (q : QueueMng) : Type 0 where
  pub send :
      (q.config.com_cfg.max_nr_of_queue_duty ≡ 0)
      ⊎ (length q.send_q ≤ q.config.com_cfg.max_nr_of_queue_duty)
  pub failed : length q.send_error_q ≤ max_of_error_queue q

enqueue-IsBounded :
    (io : ℕ → FailIo) (d : SendDuty) (q : QueueMng) → IsBounded q → IsBounded (enqueue io d q).1
unfolding enqueue max_of_error_queue
enqueue-IsBounded io d q v = ground (
  arith,
  put_fail_duty2file-SameDuties io d q,
  length-append {0} q.send_q (d ∷ []),
  length-append {0} q.send_error_q (d ∷ []),
)

put_servers-IsBounded :
    (io : ℕ → FailIo) (d : SendDuty) (l : List ServerInfo) (q : QueueMng)
    → IsBounded q
    → IsBounded (put_servers io d l q)
unfolding put_servers
put_servers-IsBounded io d [] q v = v
put_servers-IsBounded io d (s ∷ l) q v =
    put_servers-IsBounded io d l _ (enqueue-IsBounded io (for_server d s) q v)

put_add_server_info-IsBounded :
    (io : ℕ → FailIo) (me : ℕ) (d : SendDuty) (q : QueueMng)
    → IsBounded q
    → IsBounded (put_add_server_info io me d q)
unfolding put_add_server_info max_of_error_queue get_site_server
put_add_server_info-IsBounded io me d q v = ground (
  arith,
  put_servers-IsBounded io d (get_site_server q.config d.site_name).0 (record q {
    recving_q =
        insert me (record (get_or me default_recving q.recving_q) { state = over }) q.recving_q;
    config = (get_site_server q.config d.site_name).1;
  }),
)

put_direct-IsBounded :
    (io : ℕ → FailIo) (d : SendDuty) (q : QueueMng) → IsBounded q → IsBounded (put_direct io d q).1
unfolding put_direct count_failure max_of_error_queue
put_direct-IsBounded io d q v =
    let counted = count_failure (ip_port d.server_ip d.server_port) q in
    ground (
      arith,
      enqueue-IsBounded io d q,
      enqueue-IsBounded io d counted,
      put_fail_duty2file-SameDuties io d counted,
    )

count_size-IsBounded : (size : ℕ) (q : QueueMng) → IsBounded q → IsBounded (count_size size q)
unfolding count_size max_of_error_queue
count_size-IsBounded size q v = record { send = v.send; failed = v.failed }

-- If both queues are within their limits, they are so behind either way of putting any duty. A
-- limit of 0 in the configuration is none for the normal queue.
pub put_duty2send_q-IsBounded :
    (io : ℕ → FailIo) (me : ℕ) (d : SendDuty) (type : PutSendType) (size : ℕ) (q : QueueMng)
    → IsBounded q
    → IsBounded (put_duty2send_q io me d type size q).1
unfolding put_duty2send_q
put_duty2send_q-IsBounded io me d add_server_info size q v =
    put_add_server_info-IsBounded io me d (count_size size q) (count_size-IsBounded size q v)
put_duty2send_q-IsBounded io me d direct size q v =
    put_direct-IsBounded io d (count_size size q) (count_size-IsBounded size q v)
