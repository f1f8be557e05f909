-- ===== src/Queue/Run/Ledger.antt =====
-- sharelib/QueueMng.cpp: the ledger of the queues over a history of calls.
use mathlib.Core.List.Perm
use mathlib.Core.List.{Perm, perm_append_comm, perm_middle}
use octopusd.Prelude.{
  ℕ, ◌≡◌, refl, ◌∙◌, List, [], ◌∷◌, ◌++◌, Option, none, some, arith, append_assoc,
}
use octopusd.Prelude.Map.{nat_key}
use octopusd.Queue.{QueueMng, RecvingDuty, SendDuty}
use octopusd.Queue.Check.{
  Verdict, older, fresh, replaces_recving, replaces_sending, scan_recving, check_sending,
  count_recv, count_work, check, QueueType, recving_queue, send_queue, sending_queue,
  last_suc_queue, judge_normal, set_over,
}
use octopusd.Queue.Put.Placement.{queued}
use octopusd.Queue.Take.{get_duty_f_send_q}
use octopusd.Queue.Take.Conservation.{Taken, get_duty_f_send_q-Taken}
use octopusd.Prelude.Bytes.{Bytes}
use octopusd.Queue.Upkeep.{
  clear_head, clear_disabled_duty, mv_error_q2send_q, clear_error_ip_port, init_thread_stat_info,
  clear_stat_info,
}
use octopusd.Queue.Upkeep.Moves.{mv_error_q2send_q-queued, perm_last}
use octopusd.Queue.Run.{
  Call, checks, judges, finishes, puts, takes, moves, clears_disabled, clears_error, starts_thread,
  prints_stat, step, run,
}
use octopusd.Queue.Run.Accounts.{
  servers_accepted, add_accepted, direct_accepted, accepted, taken, dropped, released,
  put_duty2send_q-ledger,
}

count_recv-queued : (t : ℕ) (q : QueueMng) → queued (count_recv t q) ≡ queued q
unfolding count_recv
count_recv-queued t q = ground arith

check_sending-queued :
    (me : ℕ) (d : RecvingDuty) (v : Verdict) (q : QueueMng)
    → queued (check_sending me d v q).1 ≡ queued q
unfolding check_sending
check_sending-queued me d older q = refl
check_sending-queued me d fresh q = ground arith
check_sending-queued me d replaces_recving q = refl
check_sending-queued me d replaces_sending q = refl

check-queued : (me : ℕ) (d : RecvingDuty) (q : QueueMng) → queued (check me d q).1 ≡ queued q
unfolding check
check-queued me d q =
    check_sending-queued me d (scan_recving me d q.recving_q).0 _
    ∙ count_recv-queued d.protocol_type
        (record q { recv_work_time = count_work me q.recv_work_time })

judge_normal-queued :
    (t : ℕ) (type : QueueType) (q : QueueMng) → queued (judge_normal t type q).1 ≡ queued q
unfolding judge_normal
judge_normal-queued t recving_queue q = refl
judge_normal-queued t send_queue q = refl
judge_normal-queued t sending_queue q = refl
judge_normal-queued t last_suc_queue q = refl

set_over-queued : (t : ℕ) (type : QueueType) (q : QueueMng) → queued (set_over t type q) ≡ queued q
unfolding set_over
set_over-queued t recving_queue q = refl
set_over-queued t send_queue q = refl
set_over-queued t sending_queue q = refl
set_over-queued t last_suc_queue q = refl

clear_head-ledger :
    (l : List SendDuty) (q : QueueMng)
    → q.send_error_q ≡ l
    → Perm (dropped l q ++ queued (clear_head l q)) (q.send_q ++ l)
unfolding dropped clear_head
clear_head-ledger [] q h = rw h (Perm.refl _)
clear_head-ledger (d ∷ rest) q h =
    ground (arith, Perm.symm (perm_middle {a = d} q.send_q rest), perm_last d q.send_q rest)

get_duty_f_send_q-ledger :
    (me : ℕ) (before : List SendDuty) (r : Option SendDuty × QueueMng)
    → Taken me before r
    → Perm (taken r.0 ++ queued r.1) before
unfolding taken
get_duty_f_send_q-ledger me before (none, q) h = Perm.symm h
get_duty_f_send_q-ledger me before (some d, q) h = Perm.symm h.0

clear_error_ip_port-queued :
    (key : Bytes) (q : QueueMng) → queued (clear_error_ip_port key q) ≡ queued q
unfolding clear_error_ip_port
clear_error_ip_port-queued key q = ground arith

init_thread_stat_info-queued :
    (type me : ℕ) (q : QueueMng) → queued (init_thread_stat_info type me q) ≡ queued q
unfolding init_thread_stat_info
init_thread_stat_info-queued type me q = ground arith

of_eq : (l m : List SendDuty) → l ≡ m → Perm l m
of_eq l m h = rw h (Perm.refl _)

step-ledger :
    (c : Call) (q : QueueMng) → Perm (released c q ++ queued (step c q)) (accepted c q ++ queued q)
unfolding step released mv_error_q2send_q clear_disabled_duty clear_stat_info
step-ledger (checks me d) q = unfold accepted in of_eq _ _ (check-queued me d q)
step-ledger (judges t type) q = unfold accepted in of_eq _ _ (judge_normal-queued t type q)
step-ledger (finishes t type) q = unfold accepted in of_eq _ _ (set_over-queued t type q)
step-ledger (puts io me d type size) q = put_duty2send_q-ledger io me d type size q
step-ledger (takes me type) q =
    unfold accepted in
    get_duty_f_send_q-ledger me (queued q) (get_duty_f_send_q me type q)
      (get_duty_f_send_q-Taken me type q)
step-ledger moves q = unfold accepted in mv_error_q2send_q-queued q
step-ledger clears_disabled q = unfold accepted in clear_head-ledger q.send_error_q q refl
step-ledger (clears_error key) q = unfold accepted in of_eq _ _ (clear_error_ip_port-queued key q)
step-ledger (starts_thread type me) q =
    unfold accepted in of_eq _ _ (init_thread_stat_info-queued type me q)
step-ledger prints_stat q = unfold accepted in Perm.refl _

-- The duties that a history of calls queues, and those that it gives out or drops.
unfoldable pub all_accepted : List Call → QueueMng → List SendDuty
unfolding accepted servers_accepted add_accepted direct_accepted
all_accepted [] q = []
all_accepted (c ∷ cs) q = accepted c q ++ all_accepted cs (step c q)

unfoldable pub all_released : List Call → QueueMng → List SendDuty
unfolding released
all_released [] q = []
all_released (c ∷ cs) q = released c q ++ all_released cs (step c q)

-- Two lists in front of a third change places.
perm_swap : (a b l : List SendDuty) → Perm (a ++ (b ++ l)) (b ++ (a ++ l))
perm_swap a b l =
    rw (← append_assoc a b l, ← append_assoc b a l)
      (Perm.append (perm_append_comm a b) (Perm.refl l))

ledger_chain :
    (rc ac rs more after between before : List SendDuty)
    → Perm (rs ++ after) (more ++ between)
    → Perm (rc ++ between) (ac ++ before)
    → Perm ((rc ++ rs) ++ after) ((ac ++ more) ++ before)
ledger_chain rc ac rs more after between before later now =
    rw (append_assoc rc rs after, append_assoc ac more before)
      (Perm.trans (Perm.append (Perm.refl rc) later) (
        Perm.trans (perm_swap rc more between)
          (Perm.trans (Perm.append (Perm.refl more) now) (perm_swap more ac before))))

-- Over every history of calls by any threads: the duties that were given out to send threads or
-- dropped, with those that wait at the end, are the duties that were queued on the way, with
-- those that waited at the start. None is lost and none is doubled.
pub run-ledger :
    (cs : List Call) (q : QueueMng)
    → Perm (all_released cs q ++ queued (run cs q)) (all_accepted cs q ++ queued q)
unfolding run all_accepted all_released
run-ledger [] q = Perm.refl _
run-ledger (c ∷ cs) q =
    ledger_chain (released c q) (accepted c q) (all_released cs (step c q))
      (all_accepted cs (step c q)) (queued (run cs (step c q))) (queued (step c q)) (queued q)
      (run-ledger cs (step c q)) (step-ledger c q)
