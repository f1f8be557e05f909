-- ===== src/Queue/Run/Exclusive.antt =====
-- sharelib/QueueMng.cpp: the duties that are being received for one file, over a history of calls.
use octopusd.Prelude.{
  ℕ, ◌≤◌, ◌≡◌, refl, List, [], ◌∷◌, arith, Bool-cases, Option-cases, inl, inr, ◌==◌,
}
use octopusd.Prelude.Bytes.{Bytes}
use octopusd.Prelude.Map.{find, insert, get_or, touch, nat_key}
use octopusd.Prelude.Map.Order.{insert-IsSorted}
use octopusd.Queue.{QueueMng, RecvingDuty, SendDuty, over, default_recving}
use octopusd.Queue.Check.{
  QueueType, recving_queue, send_queue, sending_queue, last_suc_queue, judge_normal, set_over,
  is_normal,
}
use octopusd.Queue.Check.Exclusive.{active, IsExclusive, check-IsExclusive, active-insert_over}
use octopusd.Queue.FailLog.{FailIo}
use octopusd.Queue.Put.{
  PutSendType, add_server_info, direct, put_duty2send_q, put_add_server_info, count_size,
}
use octopusd.Queue.Put.Placement.{put_servers-recving_q, put_direct-recving_q}
use octopusd.Queue.Take.{get_duty_f_send_q}
use octopusd.Queue.Take.{
  count_send, start_sending, take_normal, take_failed, take_type0, take_type1,
}
use octopusd.Queue.Upkeep.{
  mv_head, mv_error_q2send_q, clear_head, clear_disabled_duty, clear_error_ip_port,
  init_thread_stat_info, clear_stat_info,
}
use octopusd.Config.{get_site_server}
use octopusd.Queue.Run.{
  Call, checks, judges, finishes, puts, takes, moves, clears_disabled, clears_error, starts_thread,
  prints_stat, step, run,
}

-- A state with the same received duties is as exclusive.
pub carry : (q q' : QueueMng) → q'.recving_q ≡ q.recving_q → IsExclusive q → IsExclusive q'
carry q q' h v = record { sorted = rw h v.sorted; unique = λ site path. rw h (v.unique site path) }

-- A thread's entry that is over, whether or not there was one, is no duty in work.
over-IsExclusive :
    (q q' : QueueMng) (t : ℕ) (r : RecvingDuty)
    → q'.recving_q ≡ insert t (record r { state = over }) q.recving_q
    → IsExclusive q
    → IsExclusive q'
over-IsExclusive q q' t r h v = record {
  sorted = rw h (insert-IsSorted t _ q.recving_q v.sorted);
  unique = λ site path.
      rw h
        (omega (arith, active-insert_over t r site path q.recving_q v.sorted, v.unique site path));
}

touch-IsExclusive :
    (q q' : QueueMng) (t : ℕ)
    → q'.recving_q ≡ touch t default_recving q.recving_q
    → IsExclusive q
    → IsExclusive q'
unfolding touch
touch-IsExclusive q q' t h v = elim (Option-cases (find t q.recving_q)) [
  | inl e ↦ over-IsExclusive q q' t default_recving (rw (e, touch) at h) v
  | inr (r, e) ↦ carry q q' (rw (e, touch) at h) v
]

judge_normal-IsExclusive :
    (t : ℕ) (type : QueueType) (q : QueueMng)
    → IsExclusive q
    → IsExclusive (judge_normal t type q).1
unfolding judge_normal
judge_normal-IsExclusive t recving_queue q v = touch-IsExclusive q _ t refl v
judge_normal-IsExclusive t send_queue q v = v
judge_normal-IsExclusive t sending_queue q v = carry q _ refl v
judge_normal-IsExclusive t last_suc_queue q v = v

set_over-IsExclusive :
    (t : ℕ) (type : QueueType) (q : QueueMng) → IsExclusive q → IsExclusive (set_over t type q)
unfolding set_over
set_over-IsExclusive t recving_queue q v =
    over-IsExclusive q _ t (get_or t default_recving q.recving_q) refl v
set_over-IsExclusive t send_queue q v = v
set_over-IsExclusive t sending_queue q v = carry q _ refl v
set_over-IsExclusive t last_suc_queue q v = v

put_add_server_info-IsExclusive :
    (io : ℕ → FailIo) (me : ℕ) (d : SendDuty) (q : QueueMng)
    → IsExclusive q
    → IsExclusive (put_add_server_info io me d q)
unfolding put_add_server_info
put_add_server_info-IsExclusive io me d q v =
    let r = get_or me default_recving q.recving_q in
    let done = record q { recving_q = insert me (record r { state = over }) q.recving_q } in
    let found = get_site_server q.config d.site_name in
    elim (Bool-cases (is_normal r.state)) [
      | inr e ↦ rw e (touch-IsExclusive q _ me refl v)
      | inl e ↦ elim (Bool-cases (q.config.com_cfg.distribute_flag == 0)) [
        | inl f ↦ rw (e, f) (over-IsExclusive q done me r refl v)
        | inr f ↦
            rw (e, f)
              (over-IsExclusive q _ me r
                (put_servers-recving_q io d found.0 (record done { config = found.1 })) v)
      ]
    ]

put_duty2send_q-IsExclusive :
    (io : ℕ → FailIo) (me : ℕ) (d : SendDuty) (type : PutSendType) (size : ℕ) (q : QueueMng)
    → IsExclusive q
    → IsExclusive (put_duty2send_q io me d type size q).1
unfolding put_duty2send_q count_size
put_duty2send_q-IsExclusive io me d add_server_info size q v =
    put_add_server_info-IsExclusive io me d (count_size size q) (carry q _ refl v)
put_duty2send_q-IsExclusive io me d direct size q v =
    carry q _ (put_direct-recving_q io d (count_size size q)) v

start_sending-recving_q :
    (me : ℕ) (d : SendDuty) (q : QueueMng) → (start_sending me d q).recving_q ≡ q.recving_q
unfolding start_sending count_send
start_sending-recving_q me d q = ground arith

take_normal-recving_q :
    (me : ℕ) (q : QueueMng) (d : SendDuty) (l : List SendDuty)
    → (take_normal me q d l).1.recving_q ≡ q.recving_q
unfolding take_normal
take_normal-recving_q me q d l =
    ground (arith, start_sending-recving_q me d (record q { send_q = l }))

take_failed-recving_q :
    (me : ℕ) (q : QueueMng) (d : SendDuty) (l : List SendDuty)
    → (take_failed me q d l).1.recving_q ≡ q.recving_q
unfolding take_failed
take_failed-recving_q me q d l = start_sending-recving_q me d (record q { send_error_q = l })

take_type0-recving_q :
    (me : ℕ) (ds es : List SendDuty) (q : QueueMng)
    → (take_type0 me ds es q).1.recving_q ≡ q.recving_q
unfolding take_type0
take_type0-recving_q me [] [] q = refl
take_type0-recving_q me [] (e ∷ es) q = take_failed-recving_q me q e es
take_type0-recving_q me (d ∷ ds) es q = take_normal-recving_q me q d ds

take_type1-recving_q :
    (me : ℕ) (ds es : List SendDuty) (q : QueueMng)
    → (take_type1 me ds es q).1.recving_q ≡ q.recving_q
unfolding take_type1
take_type1-recving_q me [] [] q = refl
take_type1-recving_q me (d ∷ ds) [] q = take_normal-recving_q me q d ds
take_type1-recving_q me [] (e ∷ es) q = take_failed-recving_q me q e es
take_type1-recving_q me (d ∷ ds) (e ∷ es) q = take_failed-recving_q me q e es

get_duty_f_send_q-recving_q :
    (me type : ℕ) (q : QueueMng) → (get_duty_f_send_q me type q).1.recving_q ≡ q.recving_q
unfolding get_duty_f_send_q
get_duty_f_send_q-recving_q me type q = ground (
  arith,
  take_type0-recving_q me q.send_q q.send_error_q q,
  take_type1-recving_q me q.send_q q.send_error_q q,
)

mv_head-recving_q : (l : List SendDuty) (q : QueueMng) → (mv_head l q).recving_q ≡ q.recving_q
unfolding mv_head
mv_head-recving_q [] q = refl
mv_head-recving_q (d ∷ l) q = ground arith

clear_head-recving_q : (l : List SendDuty) (q : QueueMng) → (clear_head l q).recving_q ≡ q.recving_q
unfolding clear_head
clear_head-recving_q [] q = refl
clear_head-recving_q (d ∷ l) q = ground arith

step-IsExclusive : (c : Call) (q : QueueMng) → IsExclusive q → IsExclusive (step c q)
unfolding step mv_error_q2send_q clear_disabled_duty clear_error_ip_port init_thread_stat_info
    clear_stat_info
step-IsExclusive (checks me d) q v = check-IsExclusive me d q v
step-IsExclusive (judges t type) q v = judge_normal-IsExclusive t type q v
step-IsExclusive (finishes t type) q v = set_over-IsExclusive t type q v
step-IsExclusive (puts io me d type size) q v = put_duty2send_q-IsExclusive io me d type size q v
step-IsExclusive (takes me type) q v = carry q _ (get_duty_f_send_q-recving_q me type q) v
step-IsExclusive moves q v = carry q _ (mv_head-recving_q q.send_error_q q) v
step-IsExclusive clears_disabled q v = carry q _ (clear_head-recving_q q.send_error_q q) v
step-IsExclusive (clears_error key) q v = carry q (step (clears_error key) q) (ground arith) v
step-IsExclusive (starts_thread type me) q v =
    carry q (step (starts_thread type me) q) (ground arith) v
step-IsExclusive prints_stat q v = carry q _ refl v

pub empty_start : (q : QueueMng) → q.recving_q ≡ [] → IsExclusive q
empty_start q h = record {
  sorted = rw h tt;
  unique = λ site path. rw h (unfold active in omega arith);
}

pub run-IsExclusive_from : (cs : List Call) (q : QueueMng) → IsExclusive q → IsExclusive (run cs q)
unfolding run
run-IsExclusive_from [] q v = v
run-IsExclusive_from (c ∷ cs) q v = run-IsExclusive_from cs (step c q) (step-IsExclusive c q v)

-- From a state in which no thread receives anything, through every history of calls by any
-- threads: of the duties that are being received for one file of one site, at most one is in its
-- normal state.
pub run-IsExclusive :
    (cs : List Call) (q : QueueMng)
    → q.recving_q ≡ []
    → (site path : Bytes) → active site path (run cs q).recving_q ≤ 1
run-IsExclusive cs q h = (run-IsExclusive_from cs q (empty_start q h)).unique
