-- ===== src/Queue/Put/Placement.antt =====
-- sharelib/QueueMng.cpp: where a duty goes that is put.
use mathlib.Core.List.Perm
use mathlib.Core.List.{Perm, perm_middle, perm_append_singleton}
use octopusd.Prelude.{
  ℕ, suc, ◌+◌, ◌%◌, ◌^◌, ◌≤◌, ◌≡◌, ◌≢◌, ◌⊎◌, refl, ◌∙◌, true, false, List, [], ◌∷◌, ◌++◌, map,
  arith, length, length-append, append_assoc, Bool-cases, inl, inr, ◌==◌, ==-false,
}
use octopusd.Prelude.Bytes.{bytes_eq_iff}
use octopusd.Prelude.Map.{Map, insert, get_or, find-insert, nat_key, bytes_key}
use octopusd.Config.{ServerInfo, get_site_server}
use octopusd.Queue.{QueueMng, RecvingDuty, SendDuty, over, default_recving, ip_port}
use octopusd.Queue.Check.{is_normal}
use octopusd.Queue.FailLog.{FailIo}
use octopusd.Queue.FailLog.Frame.{SameDuties, put_fail_duty2file-SameDuties}
use octopusd.Queue.Put.{
  max_of_error_queue, enqueue, for_server, put_servers, put_add_server_info, put_direct,
  count_failure, fail_times,
}

-- The duties that wait to be sent.
abbrev pub queued : QueueMng → List SendDuty
queued q = q.send_q ++ q.send_error_q

-- A duty at the end of either queue waits besides the others.
pub perm_send : (d : SendDuty) (a b : List SendDuty) → Perm ((a ++ d ∷ []) ++ b) (d ∷ (a ++ b))
perm_send d a b = rw append_assoc (perm_middle a b)

pub perm_failed : (d : SendDuty) (a b : List SendDuty) → Perm (a ++ (b ++ d ∷ [])) (d ∷ (a ++ b))
perm_failed d a b = rw (← append_assoc a b (d ∷ [])) (perm_append_singleton d (a ++ b))

-- A duty that is queued is in exactly one of the queues, once, and a duty that is not leaves the
-- queues and all tables as they were.
pub enqueue-queued :
    (io : ℕ → FailIo) (d : SendDuty) (q : QueueMng)
    → (enqueue io d q).0 ≡ true
    → Perm (queued (enqueue io d q).1) (d ∷ queued q)
unfolding enqueue
enqueue-queued io d q =
    ground (arith, perm_send d q.send_q q.send_error_q, perm_failed d q.send_q q.send_error_q)

pub enqueue-refused :
    (io : ℕ → FailIo) (d : SendDuty) (q : QueueMng)
    → (enqueue io d q).0 ≡ false
    → SameDuties q (enqueue io d q).1
unfolding enqueue
enqueue-refused io d q h = ground (arith, put_fail_duty2file-SameDuties io d q)

enqueue-recving_q :
    (io : ℕ → FailIo) (d : SendDuty) (q : QueueMng) → (enqueue io d q).1.recving_q ≡ q.recving_q
unfolding enqueue
enqueue-recving_q io d q = ground (arith, put_fail_duty2file-SameDuties io d q)

pub put_direct-recving_q :
    (io : ℕ → FailIo) (d : SendDuty) (q : QueueMng) → (put_direct io d q).1.recving_q ≡ q.recving_q
unfolding put_direct count_failure
put_direct-recving_q io d q =
    let counted = count_failure (ip_port d.server_ip d.server_port) q in
    ground (
      arith,
      enqueue-recving_q io d q,
      enqueue-recving_q io d counted,
      put_fail_duty2file-SameDuties io d counted,
    )

-- Where duties are not passed on, nothing is queued.
pub put_direct_off :
    (io : ℕ → FailIo) (d : SendDuty) (q : QueueMng)
    → (q.config.com_cfg.distribute_flag == 0) ≡ true
    → Perm (queued (put_direct io d q).1) (queued q)
unfolding put_direct
put_direct_off io d q h = rw h (Perm.refl _)

-- What `Direct` makes of a duty, where duties are passed on: it is queued, once, or it is
-- refused, and then both queues stay as they were.
pub put_direct-placement :
    (io : ℕ → FailIo) (d : SendDuty) (q : QueueMng)
    → q.config.com_cfg.distribute_flag ≢ 0
    → (((put_direct io d q).0 ≡ true) × Perm (queued (put_direct io d q).1) (d ∷ queued q))
      ⊎ (((put_direct io d q).0 ≡ false) × (queued (put_direct io d q).1 ≡ queued q))
unfolding put_direct count_failure
put_direct-placement io d q on =
    let counted = count_failure (ip_port d.server_ip d.server_port) q in
    elim (Bool-cases (put_direct io d q).0) [
      | inl e ↦ inl (e, ground (arith, enqueue-queued io d q, enqueue-queued io d counted))
      | inr e ↦ inr (
        e,
        ground (
          arith,
          enqueue-refused io d q,
          enqueue-refused io d counted,
          put_fail_duty2file-SameDuties io d counted,
        ),
      )
    ]

-- Where duties are passed on, a duty that has failed, and as often as the configuration allows,
-- is refused: both queues stay as they were, and the failures of its server are one more, modulo
-- 2^32.
pub put_direct_gives_up :
    (io : ℕ → FailIo) (d : SendDuty) (q : QueueMng)
    → q.config.com_cfg.distribute_flag ≢ 0
    → d.nr_of_fail ≢ 0
    → q.config.com_cfg.max_nr_of_retry ≤ d.nr_of_fail
    → let key = ip_port d.server_ip d.server_port in
      ((put_direct io d q).0 ≡ false)
      × (queued (put_direct io d q).1 ≡ queued q)
      × (fail_times key (put_direct io d q).1 ≡ (fail_times key q + 1) % 2 ^ 32)
unfolding put_direct count_failure fail_times get_or
put_direct_gives_up io d q on some_fail limit =
    let key = ip_port d.server_ip d.server_port in
    let counted = count_failure key q in
    ground (
      arith,
      put_fail_duty2file-SameDuties io d counted,
      find-insert key key ((fail_times key q + 1) % 2 ^ 32) q.error_ip_port,
      bytes_eq_iff key key,
    )

-- Both queues have room for so many duties more.
abbrev pub HasRoom : ℕ → QueueMng → Type 0
HasRoom n q =
    ((q.config.com_cfg.max_nr_of_queue_duty ≡ 0)
      ⊎ (length q.send_q + n ≤ q.config.com_cfg.max_nr_of_queue_duty))
    × (length q.send_error_q + n ≤ max_of_error_queue q)

enqueue_room :
    (io : ℕ → FailIo) (d : SendDuty) (n : ℕ) (q : QueueMng)
    → HasRoom (suc n) q
    → ((enqueue io d q).0 ≡ true) × HasRoom n (enqueue io d q).1
unfolding enqueue max_of_error_queue
enqueue_room io d n q (r, s) =
    ground (arith, length-append {0} q.send_q (d ∷ []), length-append {0} q.send_error_q (d ∷ []))

-- With room for all, the loop queues the duty once for each server.
put_servers-queued :
    (io : ℕ → FailIo) (d : SendDuty) (l : List ServerInfo) (q : QueueMng)
    → HasRoom (length l) q
    → Perm (queued (put_servers io d l q)) (map (for_server d) l ++ queued q)
unfolding put_servers
put_servers-queued io d [] q r = Perm.refl _
put_servers-queued io d (s ∷ l) q r =
    let step = enqueue_room io (for_server d s) (length l) q r in
    Perm.trans (put_servers-queued io d l (enqueue io (for_server d s) q).1 step.1) (
      Perm.trans (Perm.append (Perm.refl _) (enqueue-queued io (for_server d s) q step.0))
        (perm_middle (map (for_server d) l) (queued q)))

abbrev pub site_servers : QueueMng → SendDuty → List ServerInfo
site_servers q d = (get_site_server q.config d.site_name).0

-- The thread's duty as it stands, with its state set to over.
abbrev pub finished : ℕ → QueueMng → Map ℕ RecvingDuty
finished me q =
    insert me (record (get_or me default_recving q.recving_q) { state = over }) q.recving_q

pub put_servers-recving_q :
    (io : ℕ → FailIo) (d : SendDuty) (l : List ServerInfo) (q : QueueMng)
    → (put_servers io d l q).recving_q ≡ q.recving_q
unfolding put_servers
put_servers-recving_q io d [] q = refl
put_servers-recving_q io d (s ∷ l) q =
    put_servers-recving_q io d l _ ∙ enqueue-recving_q io (for_server d s) q

-- A received duty that is still in its normal state ends, and waits once for each server of its
-- site where duties are passed on and the queues have room for all of them.
pub put_add_server_info-queued :
    (io : ℕ → FailIo) (me : ℕ) (d : SendDuty) (q : QueueMng)
    → is_normal (get_or me default_recving q.recving_q).state ≡ true
    → q.config.com_cfg.distribute_flag ≢ 0
    → HasRoom (length (site_servers q d)) q
    → let q' = put_add_server_info io me d q in
      Perm (queued q') (map (for_server d) (site_servers q d) ++ queued q)
      × (q'.recving_q ≡ finished me q)
unfolding put_add_server_info get_site_server max_of_error_queue
put_add_server_info-queued io me d q active on r =
    rw (active, ==-false on)
      (
        put_servers-queued io d (site_servers q d) (started me d q) r,
        put_servers-recving_q io d (site_servers q d) (started me d q),
      )
  where
    started : ℕ → SendDuty → QueueMng → QueueMng
    started me d q = record q {
      recving_q = finished me q;
      config = (get_site_server q.config d.site_name).1;
    }

-- A received duty that is not in its normal state, or that the thread never had, is not passed
-- on: the queues, the configuration and the files stay as they were.
pub put_add_server_info_cancelled :
    (io : ℕ → FailIo) (me : ℕ) (d : SendDuty) (q : QueueMng)
    → is_normal (get_or me default_recving q.recving_q).state ≡ false
    → let q' = put_add_server_info io me d q in
      (q'.send_q ≡ q.send_q)
      × (q'.send_error_q ≡ q.send_error_q)
      × (q'.config ≡ q.config)
      × (q'.disk ≡ q.disk)
unfolding put_add_server_info
put_add_server_info_cancelled io me d q h = rw h (refl, refl, refl, refl)
