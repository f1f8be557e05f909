-- ===== src/Queue/Run/Appends.antt =====
-- sharelib/QueueMng.cpp: what the calls other than a take leave of the normal queue.
use octopusd.Prelude.{
  Bool, ℕ, ◌≡◌, refl, sym, ap, ◌∙◌, List, [], ◌∷◌, ◌++◌, arith, leb, ◌==◌, append-nil, append_assoc,
  either_way,
}
use octopusd.Prelude.Bytes.{Bytes, bytes_eq}
use octopusd.Prelude.Map.{insert, get_or, nat_key}
use octopusd.Config.{ServerInfo, get_site_server}
use octopusd.Queue.{QueueMng, RecvingDuty, SendDuty, over, default_recving, ip_port}
use octopusd.Queue.Check.{
  Verdict, older, fresh, replaces_recving, replaces_sending, check, check_sending, enter_recving,
  count_recv, scan_recving, judge_normal, set_over, QueueType, recving_queue, send_queue,
  sending_queue, last_suc_queue, is_normal,
}
use octopusd.Queue.FailLog.{FailIo, put_fail_duty2file}
use octopusd.Queue.FailLog.Frame.{put_fail_duty2file-SameDuties}
use octopusd.Queue.Put.{
  PutSendType, add_server_info, direct, put_duty2send_q, put_add_server_info, put_direct,
  put_servers, for_server, enqueue, count_size, count_failure, is_failing, send_q_is_full,
  error_q_is_full,
}
use octopusd.Queue.Upkeep.{
  is_recovered, is_configured, mv_head, mv_error_q2send_q, clear_head, clear_disabled_duty,
  clear_error_ip_port, init_thread_stat_info, clear_stat_info,
}

-- The normal queue has only grown at its end.
abbrev pub Appends : QueueMng → QueueMng → Type 0
Appends q q' = (more : List SendDuty) × (q'.send_q ≡ q.send_q ++ more)

kept : (l : List SendDuty) → (more : List SendDuty) × (l ≡ l ++ more)
kept l = ([], sym (append-nil l))

kept_by : {l l' : List SendDuty} → l' ≡ l → (more : List SendDuty) × (l' ≡ l ++ more)
kept_by {l} e = ([], e ∙ sym (append-nil l))

Appends-trans : (a b c : QueueMng) → Appends a b → Appends b c → Appends a c
Appends-trans a b c (m, e) (n, f) = (m ++ n, f ∙ ap (λ l. l ++ n) e ∙ append_assoc a.send_q m n)

failed-Appends :
    (io : ℕ → FailIo) (d : SendDuty) (q : QueueMng) → Appends q (put_fail_duty2file io d q)
failed-Appends io d q = kept_by (put_fail_duty2file-SameDuties io d q).send_q

enqueue-Appends : (io : ℕ → FailIo) (d : SendDuty) (q : QueueMng) → Appends q (enqueue io d q).1
unfolding enqueue
enqueue-Appends io d q =
    let Of = λ (r : Bool × QueueMng). Appends q r.1 in
    either_way Of (is_failing (ip_port d.server_ip d.server_port) q)
      (either_way Of (error_q_is_full q) (failed-Appends io d q) (kept q.send_q))
      (either_way Of (send_q_is_full q) (failed-Appends io d q) (d ∷ [], refl))

put_servers-Appends :
    (io : ℕ → FailIo) (d : SendDuty) (l : List ServerInfo) (q : QueueMng)
    → Appends q (put_servers io d l q)
unfolding put_servers
put_servers-Appends io d [] q = kept q.send_q
put_servers-Appends io d (s ∷ l) q =
    let one = (enqueue io (for_server d s) q).1 in
    Appends-trans q one (put_servers io d l one) (enqueue-Appends io (for_server d s) q)
      (put_servers-Appends io d l one)

put_add_server_info-Appends :
    (io : ℕ → FailIo) (me : ℕ) (d : SendDuty) (q : QueueMng)
    → Appends q (put_add_server_info io me d q)
unfolding put_add_server_info
put_add_server_info-Appends io me d q =
    let r = get_or me default_recving q.recving_q in
    let finished = record q { recving_q = insert me (record r { state = over }) q.recving_q } in
    let found = get_site_server q.config d.site_name in
    either_way (Appends q) (is_normal r.state)
      (either_way (Appends q) (q.config.com_cfg.distribute_flag == 0) (kept q.send_q)
        (put_servers-Appends io d found.0 (record finished { config = found.1 })))
      (kept q.send_q)

put_direct-Appends :
    (io : ℕ → FailIo) (d : SendDuty) (q : QueueMng) → Appends q (put_direct io d q).1
unfolding put_direct count_failure
put_direct-Appends io d q =
    let Of = λ (r : Bool × QueueMng). Appends q r.1 in
    let counted = count_failure (ip_port d.server_ip d.server_port) q in
    either_way Of (q.config.com_cfg.distribute_flag == 0) (kept q.send_q) (
      either_way Of (d.nr_of_fail == 0) (enqueue-Appends io d q) (
        either_way Of (leb q.config.com_cfg.max_nr_of_retry d.nr_of_fail)
          (failed-Appends io d counted) (enqueue-Appends io d counted)))

pub put_duty2send_q-Appends :
    (io : ℕ → FailIo) (me : ℕ) (d : SendDuty) (type : PutSendType) (size : ℕ) (q : QueueMng)
    → Appends q (put_duty2send_q io me d type size q).1
unfolding put_duty2send_q count_size
put_duty2send_q-Appends io me d add_server_info size q =
    put_add_server_info-Appends io me d (count_size size q)
put_duty2send_q-Appends io me d direct size q = put_direct-Appends io d (count_size size q)

count_recv-send_q : (t : ℕ) (q : QueueMng) → (count_recv t q).send_q ≡ q.send_q
unfolding count_recv
count_recv-send_q t q = ground arith

check_sending-send_q :
    (me : ℕ) (d : RecvingDuty) (v : Verdict) (q : QueueMng)
    → (check_sending me d v q).1.send_q ≡ q.send_q
unfolding check_sending enter_recving
check_sending-send_q me d older q = refl
check_sending-send_q me d replaces_recving q = refl
check_sending-send_q me d replaces_sending q = refl
check_sending-send_q me d fresh q =
    either_way (λ (r : Verdict × QueueMng). r.1.send_q ≡ q.send_q)
      (q.config.com_cfg.distribute_flag == 0) refl refl

pub check-Appends : (me : ℕ) (d : RecvingDuty) (q : QueueMng) → Appends q (check me d q).1
unfolding check
check-Appends me d q = kept_by (
    check_sending-send_q me d (scan_recving me d q.recving_q).0 _
    ∙ count_recv-send_q d.protocol_type _)

pub judge_normal-Appends :
    (t : ℕ) (type : QueueType) (q : QueueMng) → Appends q (judge_normal t type q).1
unfolding judge_normal
judge_normal-Appends t recving_queue q = kept q.send_q
judge_normal-Appends t send_queue q = kept q.send_q
judge_normal-Appends t sending_queue q = kept q.send_q
judge_normal-Appends t last_suc_queue q = kept q.send_q

pub set_over-Appends : (t : ℕ) (type : QueueType) (q : QueueMng) → Appends q (set_over t type q)
unfolding set_over
set_over-Appends t recving_queue q = kept q.send_q
set_over-Appends t send_queue q = kept q.send_q
set_over-Appends t sending_queue q = kept q.send_q
set_over-Appends t last_suc_queue q = kept q.send_q

mv_head-Appends : (l : List SendDuty) (q : QueueMng) → Appends q (mv_head l q)
unfolding mv_head
mv_head-Appends [] q = kept q.send_q
mv_head-Appends (d ∷ rest) q =
    either_way (Appends q) (is_recovered d q) (d ∷ [], refl) (kept q.send_q)

pub mv_error_q2send_q-Appends : (q : QueueMng) → Appends q (mv_error_q2send_q q)
unfolding mv_error_q2send_q
mv_error_q2send_q-Appends q = mv_head-Appends q.send_error_q q

clear_head-Appends : (l : List SendDuty) (q : QueueMng) → Appends q (clear_head l q)
unfolding clear_head
clear_head-Appends [] q = kept q.send_q
clear_head-Appends (d ∷ rest) q =
    either_way (Appends q) (is_configured (ip_port d.server_ip d.server_port) q.config.map_site)
      (kept q.send_q) (kept q.send_q)

pub clear_disabled_duty-Appends : (q : QueueMng) → Appends q (clear_disabled_duty q)
unfolding clear_disabled_duty
clear_disabled_duty-Appends q = clear_head-Appends q.send_error_q q

pub clear_error_ip_port-Appends :
    (key : Bytes) (q : QueueMng) → Appends q (clear_error_ip_port key q)
unfolding clear_error_ip_port
clear_error_ip_port-Appends key q =
    either_way (Appends q) (bytes_eq [] key) (kept q.send_q) (kept q.send_q)

pub init_thread_stat_info-Appends :
    (type me : ℕ) (q : QueueMng) → Appends q (init_thread_stat_info type me q)
unfolding init_thread_stat_info
init_thread_stat_info-Appends type me q =
    either_way (Appends q) (type == 0) (kept q.send_q)
      (either_way (Appends q) (type == 1) (kept q.send_q) (kept q.send_q))

pub clear_stat_info-Appends : (q : QueueMng) → Appends q (clear_stat_info q)
unfolding clear_stat_info
clear_stat_info-Appends q = kept q.send_q
