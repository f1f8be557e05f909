-- ===== src/Queue/Run/Settings.antt =====
-- sharelib/QueueMng.cpp: the common configuration over a history of calls.
use octopusd.Prelude.{ℕ, ◌≡◌, refl, ◌∙◌, List, [], ◌∷◌, arith}
use octopusd.Prelude.Map.{insert, get_or, nat_key}
use octopusd.Config.{ComCfg, ServerInfo, get_site_server}
use octopusd.Queue.{QueueMng, RecvingDuty, SendDuty, ip_port, over, default_recving}
use octopusd.Queue.Check.{
  QueueType, recving_queue, send_queue, sending_queue, last_suc_queue, judge_normal, set_over,
  Verdict, older, fresh, replaces_recving, replaces_sending, check, check_sending, count_recv,
  count_work, scan_recving, enter_recving,
}
use octopusd.Queue.FailLog.{FailIo}
use octopusd.Queue.FailLog.Frame.{put_fail_duty2file-SameDuties}
use octopusd.Queue.Put.{
  add_server_info, direct, put_duty2send_q, put_add_server_info, count_size, enqueue, put_servers,
  for_server, put_direct, count_failure, PutSendType,
}
use octopusd.Queue.Take.{
  get_duty_f_send_q, count_send, start_sending, take_normal, take_failed, take_type0, take_type1,
}
use octopusd.Queue.Upkeep.{
  mv_head, mv_error_q2send_q, clear_head, clear_disabled_duty, clear_error_ip_port,
  init_thread_stat_info, clear_stat_info,
}
use octopusd.Queue.Run.{
  Call, checks, judges, finishes, puts, takes, moves, clears_disabled, clears_error, starts_thread,
  prints_stat, step, run,
}

abbrev cfg : QueueMng → ComCfg
cfg q = q.config.com_cfg

enqueue-cfg : (io : ℕ → FailIo) (d : SendDuty) (q : QueueMng) → cfg (enqueue io d q).1 ≡ cfg q
unfolding enqueue
enqueue-cfg io d q = ground (arith, put_fail_duty2file-SameDuties io d q)

put_servers-cfg :
    (io : ℕ → FailIo) (d : SendDuty) (l : List ServerInfo) (q : QueueMng)
    → cfg (put_servers io d l q) ≡ cfg q
unfolding put_servers
put_servers-cfg io d [] q = refl
put_servers-cfg io d (s ∷ l) q =
    put_servers-cfg io d l (enqueue io (for_server d s) q).1 ∙ enqueue-cfg io (for_server d s) q

put_direct-cfg : (io : ℕ → FailIo) (d : SendDuty) (q : QueueMng) → cfg (put_direct io d q).1 ≡ cfg q
unfolding put_direct count_failure
put_direct-cfg io d q =
    let counted = count_failure (ip_port d.server_ip d.server_port) q in
    ground (
      arith,
      enqueue-cfg io d q,
      enqueue-cfg io d counted,
      put_fail_duty2file-SameDuties io d counted,
    )

put_add_server_info-cfg :
    (io : ℕ → FailIo) (me : ℕ) (d : SendDuty) (q : QueueMng)
    → cfg (put_add_server_info io me d q) ≡ cfg q
unfolding put_add_server_info get_site_server
put_add_server_info-cfg io me d q =
    let r = get_or me default_recving q.recving_q in
    let done = record q { recving_q = insert me (record r { state = over }) q.recving_q } in
    let found = get_site_server q.config d.site_name in
    ground (arith, put_servers-cfg io d found.0 (record done { config = found.1 }))

put_duty2send_q-cfg :
    (io : ℕ → FailIo) (me : ℕ) (d : SendDuty) (type : PutSendType) (size : ℕ) (q : QueueMng)
    → cfg (put_duty2send_q io me d type size q).1 ≡ cfg q
unfolding put_duty2send_q count_size
put_duty2send_q-cfg io me d add_server_info size q =
    put_add_server_info-cfg io me d (count_size size q)
put_duty2send_q-cfg io me d direct size q = put_direct-cfg io d (count_size size q)

start_sending-cfg : (me : ℕ) (d : SendDuty) (q : QueueMng) → cfg (start_sending me d q) ≡ cfg q
unfolding start_sending count_send
start_sending-cfg me d q = ground arith

take_normal-cfg :
    (me : ℕ) (q : QueueMng) (d : SendDuty) (l : List SendDuty)
    → cfg (take_normal me q d l).1 ≡ cfg q
unfolding take_normal
take_normal-cfg me q d l = ground (arith, start_sending-cfg me d (record q { send_q = l }))

take_failed-cfg :
    (me : ℕ) (q : QueueMng) (d : SendDuty) (l : List SendDuty)
    → cfg (take_failed me q d l).1 ≡ cfg q
unfolding take_failed
take_failed-cfg me q d l = start_sending-cfg me d (record q { send_error_q = l })

take_type0-cfg :
    (me : ℕ) (ds es : List SendDuty) (q : QueueMng) → cfg (take_type0 me ds es q).1 ≡ cfg q
unfolding take_type0
take_type0-cfg me [] [] q = refl
take_type0-cfg me [] (e ∷ es) q = take_failed-cfg me q e es
take_type0-cfg me (d ∷ ds) es q = take_normal-cfg me q d ds

take_type1-cfg :
    (me : ℕ) (ds es : List SendDuty) (q : QueueMng) → cfg (take_type1 me ds es q).1 ≡ cfg q
unfolding take_type1
take_type1-cfg me [] [] q = refl
take_type1-cfg me (d ∷ ds) [] q = take_normal-cfg me q d ds
take_type1-cfg me [] (e ∷ es) q = take_failed-cfg me q e es
take_type1-cfg me (d ∷ ds) (e ∷ es) q = take_failed-cfg me q e es

get_duty_f_send_q-cfg : (me type : ℕ) (q : QueueMng) → cfg (get_duty_f_send_q me type q).1 ≡ cfg q
unfolding get_duty_f_send_q
get_duty_f_send_q-cfg me type q = ground (
  arith,
  take_type0-cfg me q.send_q q.send_error_q q,
  take_type1-cfg me q.send_q q.send_error_q q,
)

mv_head-cfg : (l : List SendDuty) (q : QueueMng) → cfg (mv_head l q) ≡ cfg q
unfolding mv_head
mv_head-cfg [] q = refl
mv_head-cfg (d ∷ l) q = ground arith

clear_head-cfg : (l : List SendDuty) (q : QueueMng) → cfg (clear_head l q) ≡ cfg q
unfolding clear_head
clear_head-cfg [] q = refl
clear_head-cfg (d ∷ l) q = ground arith

set_over-cfg : (me : ℕ) (t : QueueType) (q : QueueMng) → cfg (set_over me t q) ≡ cfg q
unfolding set_over
set_over-cfg me recving_queue q = refl
set_over-cfg me send_queue q = refl
set_over-cfg me sending_queue q = refl
set_over-cfg me last_suc_queue q = refl

judge_normal-cfg : (me : ℕ) (t : QueueType) (q : QueueMng) → cfg (judge_normal me t q).1 ≡ cfg q
unfolding judge_normal
judge_normal-cfg me recving_queue q = refl
judge_normal-cfg me send_queue q = refl
judge_normal-cfg me sending_queue q = refl
judge_normal-cfg me last_suc_queue q = refl

check_sending-cfg :
    (me : ℕ) (d : RecvingDuty) (v : Verdict) (q : QueueMng) → cfg (check_sending me d v q).1 ≡ cfg q
unfolding check_sending enter_recving
check_sending-cfg me d older q = refl
check_sending-cfg me d replaces_recving q = refl
check_sending-cfg me d replaces_sending q = refl
check_sending-cfg me d fresh q = ground arith

count_recv-cfg : (t : ℕ) (q : QueueMng) → cfg (count_recv t q) ≡ cfg q
unfolding count_recv
count_recv-cfg t q = ground arith

check-cfg : (me : ℕ) (d : RecvingDuty) (q : QueueMng) → cfg (check me d q).1 ≡ cfg q
unfolding check
check-cfg me d q =
    let counted = record q { recv_work_time = count_work me q.recv_work_time } in
    check_sending-cfg me d (scan_recving me d q.recving_q).0 _
    ∙ count_recv-cfg d.protocol_type counted

pub step-com_cfg : (c : Call) (q : QueueMng) → (step c q).config.com_cfg ≡ q.config.com_cfg
unfolding step mv_error_q2send_q clear_disabled_duty clear_error_ip_port init_thread_stat_info
    clear_stat_info
step-com_cfg (checks me d) q = check-cfg me d q
step-com_cfg (judges t type) q = judge_normal-cfg t type q
step-com_cfg (finishes t type) q = set_over-cfg t type q
step-com_cfg (puts io me d type size) q = put_duty2send_q-cfg io me d type size q
step-com_cfg (takes me type) q = get_duty_f_send_q-cfg me type q
step-com_cfg moves q = mv_head-cfg q.send_error_q q
step-com_cfg clears_disabled q = clear_head-cfg q.send_error_q q
step-com_cfg (clears_error key) q = ground arith
step-com_cfg (starts_thread type me) q = ground arith
step-com_cfg prints_stat q = refl

pub run-com_cfg : (cs : List Call) (q : QueueMng) → (run cs q).config.com_cfg ≡ q.config.com_cfg
unfolding run
run-com_cfg [] q = refl
run-com_cfg (c ∷ cs) q = run-com_cfg cs (step c q) ∙ step-com_cfg c q
