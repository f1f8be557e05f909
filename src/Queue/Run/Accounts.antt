-- ===== src/Queue/Run/Accounts.antt =====
-- sharelib/QueueMng.cpp: what each call on the queues takes in and gives out.
use mathlib.Core.List.Perm
use mathlib.Core.List.{Perm, perm_middle}
use octopusd.Prelude.{
  ℕ, List, [], ◌∷◌, ◌++◌, Option, none, some, arith, Bool-cases, inl, inr, ◌==◌, if◌then◌else◌,
}
use octopusd.Prelude.Map.{insert, get_or, nat_key}
use octopusd.Config.{ServerInfo, get_site_server}
use octopusd.Queue.{QueueMng, SendDuty, over, default_recving, ip_port}
use octopusd.Queue.Check.{is_normal}
use octopusd.Queue.FailLog.{FailIo}
use octopusd.Queue.Put.{
  PutSendType, add_server_info, direct, put_duty2send_q, put_add_server_info, put_direct,
  put_servers, count_size, enqueue, for_server,
}
use octopusd.Queue.Put.Placement.{
  queued, enqueue-queued, enqueue-refused, put_direct-placement, put_direct_off,
}
use octopusd.Queue.Take.{get_duty_f_send_q}
use octopusd.Queue.Upkeep.{is_configured}
use octopusd.Queue.Run.{
  Call, checks, judges, finishes, puts, takes, moves, clears_disabled, clears_error, starts_thread,
  prints_stat,
}

-- The duties that the loop over the servers queues.
unfoldable pub servers_accepted :
    (ℕ → FailIo) → SendDuty → List ServerInfo → QueueMng → List SendDuty
servers_accepted io d [] q = []
servers_accepted io d (s ∷ l) q =
    let r = enqueue io (for_server d s) q in
    let rest = servers_accepted io d l r.1 in if r.0 then for_server d s ∷ rest else rest

servers_ledger :
    (io : ℕ → FailIo) (d : SendDuty) (l : List ServerInfo) (q : QueueMng)
    → Perm (queued (put_servers io d l q)) (servers_accepted io d l q ++ queued q)
unfolding put_servers servers_accepted
servers_ledger io d [] q = Perm.refl _
servers_ledger io d (s ∷ l) q =
    let r = enqueue io (for_server d s) q in
    let rest = servers_ledger io d l r.1 in
    elim (Bool-cases r.0) [
      | inl e ↦ rw e (
          Perm.trans rest (
            Perm.trans (Perm.append (Perm.refl _) (enqueue-queued io (for_server d s) q e))
              (perm_middle (servers_accepted io d l r.1) (queued q))))
      | inr e ↦
          let same = enqueue-refused io (for_server d s) q e in
          rw e (rw (same.send_q, same.send_error_q) at rest)
    ]

unfoldable pub add_accepted : (ℕ → FailIo) → ℕ → SendDuty → QueueMng → List SendDuty
unfolding servers_accepted
add_accepted io me d q =
    let r = get_or me default_recving q.recving_q in
    let found = get_site_server q.config d.site_name in
    if is_normal r.state
    then (if q.config.com_cfg.distribute_flag == 0
        then []
        else servers_accepted io d found.0 (record q {
          recving_q = insert me (record r { state = over }) q.recving_q;
          config = found.1;
        }))
    else []

unfoldable pub direct_accepted : (ℕ → FailIo) → SendDuty → QueueMng → List SendDuty
direct_accepted io d q =
    if q.config.com_cfg.distribute_flag == 0
    then []
    else if (put_direct io d q).0
    then d ∷ []
    else []

-- The duties that a call queues.
unfoldable pub accepted : Call → QueueMng → List SendDuty
unfolding add_accepted direct_accepted
accepted (checks me d) q = []
accepted (judges me t) q = []
accepted (finishes me t) q = []
accepted (puts io me d add_server_info size) q = add_accepted io me d (count_size size q)
accepted (puts io me d direct size) q = direct_accepted io d (count_size size q)
accepted (takes me type) q = []
accepted moves q = []
accepted clears_disabled q = []
accepted (clears_error key) q = []
accepted (starts_thread type me) q = []
accepted prints_stat q = []

unfoldable pub taken : Option SendDuty → List SendDuty
taken none = []
taken (some d) = d ∷ []

unfoldable pub dropped : List SendDuty → QueueMng → List SendDuty
dropped [] q = []
dropped (d ∷ rest) q =
    if is_configured (ip_port d.server_ip d.server_port) q.config.map_site then [] else d ∷ []

-- The duties that a call gives out or drops.
unfoldable pub released : Call → QueueMng → List SendDuty
unfolding taken dropped
released (checks me d) q = []
released (judges me t) q = []
released (finishes me t) q = []
released (puts io me d type size) q = []
released (takes me type) q = taken (get_duty_f_send_q me type q).0
released moves q = []
released clears_disabled q = dropped q.send_error_q q
released (clears_error key) q = []
released (starts_thread type me) q = []
released prints_stat q = []

put_add_server_info-ledger :
    (io : ℕ → FailIo) (me : ℕ) (d : SendDuty) (q : QueueMng)
    → Perm (queued (put_add_server_info io me d q)) (add_accepted io me d q ++ queued q)
unfolding put_add_server_info add_accepted
put_add_server_info-ledger io me d q =
    let r = get_or me default_recving q.recving_q in
    let found = get_site_server q.config d.site_name in
    elim (Bool-cases (is_normal r.state)) [
      | inr e ↦ rw e (Perm.refl _)
      | inl e ↦ elim (Bool-cases (q.config.com_cfg.distribute_flag == 0)) [
        | inl f ↦ rw (e, f) (Perm.refl _)
        | inr f ↦
            rw (e, f)
              (servers_ledger io d found.0 (record q {
                recving_q = insert me (record r { state = over }) q.recving_q;
                config = found.1;
              }))
      ]
    ]

put_direct-ledger :
    (io : ℕ → FailIo) (d : SendDuty) (q : QueueMng)
    → Perm (queued (put_direct io d q).1) (direct_accepted io d q ++ queued q)
unfolding direct_accepted
put_direct-ledger io d q = elim (Bool-cases (q.config.com_cfg.distribute_flag == 0)) [
  | inl f ↦ rw f (put_direct_off io d q f)
  | inr f ↦ elim (put_direct-placement io d q (λ e. ground arith)) [
    | inl (e, p) ↦ rw (f, e) p
    | inr (e, p) ↦ rw (f, e) (rw p (Perm.refl _))
  ]
]

pub put_duty2send_q-ledger :
    (io : ℕ → FailIo) (me : ℕ) (d : SendDuty) (type : PutSendType) (size : ℕ) (q : QueueMng)
    → Perm
        (queued (put_duty2send_q io me d type size q).1)
        (accepted (puts io me d type size) q ++ queued q)
unfolding put_duty2send_q accepted count_size
put_duty2send_q-ledger io me d add_server_info size q =
    put_add_server_info-ledger io me d (count_size size q)
put_duty2send_q-ledger io me d direct size q = put_direct-ledger io d (count_size size q)
