-- ===== src/Queue/Upkeep/Moves.antt =====
-- sharelib/QueueMng.cpp: what the maintenance threads make of the waiting duties.
use mathlib.Core.List.Perm
use mathlib.Core.List.{Perm, perm_middle}
use octopusd.Prelude.{
  ℕ, zero, suc, ◌+◌, ◌<◌, ◌≡◌, ◌⊎◌, refl, sym, true, false, List, [], ◌∷◌, ◌++◌, arith, Bool-cases,
  inl, inr, length, length-append, append_assoc, append-nil, if◌then◌else◌,
}
use octopusd.Prelude.Map.{bytes_key}
use octopusd.Queue.{QueueMng, SendDuty, ip_port}
use octopusd.Queue.Put.Placement.{queued, perm_failed}
use octopusd.Queue.Upkeep.{
  is_recovered, mv_head, mv_error_q2send_q, is_configured, clear_head, clear_disabled_duty,
}

perm_shift : (d : SendDuty) (a b : List SendDuty) → Perm ((a ++ d ∷ []) ++ b) (a ++ d ∷ b)
perm_shift d a b = rw append_assoc (Perm.refl _)

pub perm_last : (d : SendDuty) (a b : List SendDuty) → Perm (a ++ (b ++ d ∷ [])) (a ++ d ∷ b)
perm_last d a b = Perm.trans (perm_failed d a b) (Perm.symm (perm_middle {a = d} a b))

mv_head-queued :
    (l : List SendDuty) (q : QueueMng)
    → q.send_error_q ≡ l
    → Perm (queued (mv_head l q)) (q.send_q ++ l)
unfolding mv_head
mv_head-queued [] q h = rw h (Perm.refl _)
mv_head-queued (d ∷ rest) q h =
    ground (arith, perm_shift d q.send_q rest, perm_last d q.send_q rest)

-- Moving duties between the queues loses none and doubles none.
pub mv_error_q2send_q-queued : (q : QueueMng) → Perm (queued (mv_error_q2send_q q)) (queued q)
unfolding mv_error_q2send_q
mv_error_q2send_q-queued q = mv_head-queued q.send_error_q q refl

-- So many calls one after the other.
unfoldable pub mv_rounds : ℕ → QueueMng → QueueMng
mv_rounds zero q = q
mv_rounds (suc n) q = mv_rounds n (mv_error_q2send_q q)

-- The duties whose servers have recovered, and the others, in their order.
unfoldable pub recovered : List SendDuty → QueueMng → List SendDuty
recovered [] q = []
recovered (d ∷ l) q = if is_recovered d q then d ∷ recovered l q else recovered l q

unfoldable pub blocked : List SendDuty → QueueMng → List SendDuty
blocked [] q = []
blocked (d ∷ l) q = if is_recovered d q then blocked l q else d ∷ blocked l q

-- The filters look at the table of failures alone.
recovered_same :
    (l : List SendDuty) (q r : QueueMng)
    → q.error_ip_port ≡ r.error_ip_port
    → (recovered l q ≡ recovered l r) × (blocked l q ≡ blocked l r)
unfolding recovered blocked is_recovered
recovered_same [] q r h = (refl, refl)
recovered_same (d ∷ l) q r h = ground (arith, recovered_same l q r h)

-- The calls of one round, with the duties `es` still to be looked at and `kept` behind them.
mv_rounds_loop :
    (es kept : List SendDuty) (q : QueueMng)
    → q.send_error_q ≡ es ++ kept
    → ((mv_rounds (length es) q).send_q ≡ q.send_q ++ recovered es q)
      × ((mv_rounds (length es) q).send_error_q ≡ kept ++ blocked es q)
unfolding mv_rounds mv_error_q2send_q recovered blocked
mv_rounds_loop [] kept q h = rw (append-nil q.send_q, append-nil kept) (refl, h)
mv_rounds_loop (d ∷ es) kept q h = elim (Bool-cases (is_recovered d q)) [
  | inl e ↦
      let q' = record q { send_error_q = es ++ kept; send_q = q.send_q ++ d ∷ [] } in
      ground (
        arith,
        mv_rounds_loop es kept q' refl,
        recovered_same es q' q refl,
        append_assoc q.send_q (d ∷ []) (recovered es q),
      )
  | inr e ↦
      let q' = record q { send_error_q = (es ++ kept) ++ d ∷ [] } in
      ground (
        arith,
        mv_rounds_loop es (kept ++ d ∷ []) q' (append_assoc es kept (d ∷ [])),
        recovered_same es q' q refl,
        append_assoc kept (d ∷ []) (blocked es q),
      )
]

-- As many calls as there are failed duties look at each of them once: the duties whose servers
-- have recovered are then behind the normal ones, in their order, and the others still wait in
-- the error queue, in their order.
pub mv_rounds_lem :
    (q : QueueMng)
    → ((mv_rounds (length q.send_error_q) q).send_q ≡ q.send_q ++ recovered q.send_error_q q)
      × ((mv_rounds (length q.send_error_q) q).send_error_q ≡ blocked q.send_error_q q)
mv_rounds_lem q = mv_rounds_loop q.send_error_q [] q (sym (append-nil q.send_error_q))

mv_head-past_limit :
    (l : List SendDuty) (d : SendDuty) (rest : List SendDuty) (q : QueueMng)
    → l ≡ d ∷ rest
    → is_recovered d q ≡ true
    → length (mv_head l q).send_q ≡ length q.send_q + 1
unfolding mv_head
mv_head-past_limit [] d rest q h free = cc
mv_head-past_limit (e ∷ l) d rest q h free = ground (arith, length-append {0} q.send_q (e ∷ []))

mv_head-config : (l : List SendDuty) (q : QueueMng) → (mv_head l q).config ≡ q.config
unfolding mv_head
mv_head-config [] q = refl
mv_head-config (d ∷ l) q = ground arith

-- Where the normal queue is as long as the configuration allows and the server of the duty at
-- the head of the error queue has recovered, a move makes the normal queue longer than that
-- limit.
mv_error_q2send_q_past_limit :
    (d : SendDuty) (rest : List SendDuty) (q : QueueMng)
    → q.send_error_q ≡ d ∷ rest
    → is_recovered d q ≡ true
    → length q.send_q ≡ q.config.com_cfg.max_nr_of_queue_duty
    → (mv_error_q2send_q q).config.com_cfg.max_nr_of_queue_duty
      < length (mv_error_q2send_q q).send_q
unfolding mv_error_q2send_q
mv_error_q2send_q_past_limit d rest q h free full =
    ground
      (arith, mv_head-past_limit q.send_error_q d rest q h free, mv_head-config q.send_error_q q)

-- What `clearDisabledDuty` makes of the duties: all still wait, or the one at the head of the
-- error queue is gone, and no site is served by its server.
abbrev pub Cleared : List SendDuty → QueueMng → QueueMng → Type 0
Cleared [] q q' = q' ≡ q
Cleared (d ∷ rest) q q' =
    ((is_configured (ip_port d.server_ip d.server_port) q.config.map_site ≡ true)
      × (q'.send_q ≡ q.send_q)
      × (q'.send_error_q ≡ rest ++ d ∷ []))
    ⊎ ((is_configured (ip_port d.server_ip d.server_port) q.config.map_site ≡ false)
        × (q'.send_q ≡ q.send_q)
        × (q'.send_error_q ≡ rest))

clear_head-Cleared : (l : List SendDuty) (q : QueueMng) → Cleared l q (clear_head l q)
unfolding clear_head
clear_head-Cleared [] q = refl
clear_head-Cleared (d ∷ rest) q = ground arith

-- With no failed duty nothing changes. Otherwise the one at the head of the error queue moves to its
-- end where some site has its server, and is dropped where no site has; the rest waits as before.
pub clear_disabled_duty-Cleared : (q : QueueMng) → Cleared q.send_error_q q (clear_disabled_duty q)
unfolding clear_disabled_duty
clear_disabled_duty-Cleared q = clear_head-Cleared q.send_error_q q
