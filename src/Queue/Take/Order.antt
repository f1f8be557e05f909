-- ===== src/Queue/Take/Order.antt =====
-- sharelib/QueueMng.cpp: the order in which the send threads are served.
use mathlib.Core.Path.{subst}
use octopusd.Prelude.{
  ℕ, ◌≡◌, ◌⊎◌, refl, true, false, List, [], ◌∷◌, ◌++◌, Option, none, some, arith,
}
use octopusd.Queue.{QueueMng, SendDuty, ip_port}
use octopusd.Queue.Put.{is_failing}
use octopusd.Queue.Take.{take_normal, take_failed, take_type0, take_type1, get_duty_f_send_q}
use octopusd.Queue.Take.Conservation.{start_sending-keeps}

-- The head of the normal queue was given out, or it waits at the end of the error queue because
-- its server has failed by now.
abbrev HeadServed :
    SendDuty → List SendDuty → List SendDuty → QueueMng → Option SendDuty × QueueMng → Type 0
HeadServed d ds es q r =
    ((is_failing (ip_port d.server_ip d.server_port) q ≡ false)
      × (r.0 ≡ some d)
      × (r.1.send_q ≡ ds)
      × (r.1.send_error_q ≡ es))
    ⊎ ((is_failing (ip_port d.server_ip d.server_port) q ≡ true)
        × (r.0 ≡ none)
        × (r.1.send_q ≡ ds)
        × (r.1.send_error_q ≡ es ++ d ∷ []))

-- How a thread is served that asks for normal duties.
abbrev pub ServedNormal :
    List SendDuty → List SendDuty → QueueMng → Option SendDuty × QueueMng → Type 0
ServedNormal [] [] q r = r ≡ (none, q)
ServedNormal [] (e ∷ es) q r = (r.0 ≡ some e) × (r.1.send_q ≡ []) × (r.1.send_error_q ≡ es)
ServedNormal (d ∷ ds) es q r = HeadServed d ds es q r

-- How a thread is served that asks for failed duties.
abbrev pub ServedFailed :
    List SendDuty → List SendDuty → QueueMng → Option SendDuty × QueueMng → Type 0
ServedFailed [] [] q r = r ≡ (none, q)
ServedFailed (d ∷ ds) [] q r = HeadServed d ds [] q r
ServedFailed ds (e ∷ es) q r = (r.0 ≡ some e) × (r.1.send_q ≡ ds) × (r.1.send_error_q ≡ es)

take_normal-HeadServed :
    (me : ℕ) (q : QueueMng) (d : SendDuty) (ds : List SendDuty)
    → HeadServed d ds q.send_error_q q (take_normal me q d ds)
unfolding take_normal
take_normal-HeadServed me q d ds =
    ground (arith, start_sending-keeps me d (record q { send_q = ds }))

take_failed-served :
    (me : ℕ) (q : QueueMng) (e : SendDuty) (es : List SendDuty)
    → let r = take_failed me q e es in
      (r.0 ≡ some e) × (r.1.send_q ≡ q.send_q) × (r.1.send_error_q ≡ es)
unfolding take_failed
take_failed-served me q e es =
    ground (arith, start_sending-keeps me e (record q { send_error_q = es }))

take_type0-ServedNormal :
    (me : ℕ) (ds es : List SendDuty) (q : QueueMng)
    → q.send_q ≡ ds
    → q.send_error_q ≡ es
    → ServedNormal ds es q (take_type0 me ds es q)
unfolding take_type0
take_type0-ServedNormal me [] [] q h k = refl
take_type0-ServedNormal me [] (e ∷ es) q h k = ground (arith, take_failed-served me q e es)
take_type0-ServedNormal me (d ∷ ds) es q h k =
    subst (λ l. HeadServed d ds l q (take_normal me q d ds)) k (take_normal-HeadServed me q d ds)

take_type1-ServedFailed :
    (me : ℕ) (ds es : List SendDuty) (q : QueueMng)
    → q.send_q ≡ ds
    → q.send_error_q ≡ es
    → ServedFailed ds es q (take_type1 me ds es q)
unfolding take_type1
take_type1-ServedFailed me [] [] q h k = refl
take_type1-ServedFailed me [] (e ∷ es) q h k = ground (arith, take_failed-served me q e es)
take_type1-ServedFailed me (d ∷ ds) [] q h k =
    subst (λ l. HeadServed d ds l q (take_normal me q d ds)) k (take_normal-HeadServed me q d ds)
take_type1-ServedFailed me (d ∷ ds) (e ∷ es) q h k = ground (arith, take_failed-served me q e es)

-- A thread of normal duties gets the head of the normal queue, first come, first served; if the
-- server of that duty has failed by now, the duty moves to the end of the error queue and the
-- thread gets nothing. With no normal duty it gets the head of the error queue, and nothing only
-- if that is empty too. A thread of failed duties gets the head of the error queue, and is
-- served from the normal queue only when no failed duty waits.
pub get_duty_f_send_q_order :
    (me : ℕ) (q : QueueMng)
    → ServedNormal q.send_q q.send_error_q q (get_duty_f_send_q me 0 q)
      × ServedFailed q.send_q q.send_error_q q (get_duty_f_send_q me 1 q)
unfolding get_duty_f_send_q
get_duty_f_send_q_order me q = (
  take_type0-ServedNormal me q.send_q q.send_error_q q refl refl,
  take_type1-ServedFailed me q.send_q q.send_error_q q refl refl,
)
