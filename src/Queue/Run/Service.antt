-- ===== src/Queue/Run/Service.antt =====
-- sharelib/QueueMng.cpp: a duty in the normal queue comes to its turn.
use octopusd.Prelude.{
  ℕ, ◌+◌, ◌≡◌, ◌<◌, ◌≤◌, ◌⊎◌, inl, inr, refl, sym, ap, ◌∙◌, Bool, true, List, [], ◌∷◌, ◌++◌, Option,
  none, some, arith, ◌==◌, if◌then◌else◌, length, append_assoc, each_way, either_way,
}
use mathlib.Core.Path.{subst}
use octopusd.Queue.{QueueMng, SendDuty, ip_port}
use octopusd.Queue.Put.{is_failing}
use octopusd.Queue.Take.{
  count_send, start_sending, take_normal, take_failed, take_type0, take_type1, get_duty_f_send_q,
}
use octopusd.Queue.Run.{
  Call, checks, judges, finishes, puts, takes, moves, clears_disabled, clears_error, starts_thread,
  prints_stat, step, run,
}
use octopusd.Queue.Run.Appends.{
  Appends, put_duty2send_q-Appends, check-Appends, judge_normal-Appends, set_over-Appends,
  mv_error_q2send_q-Appends, clear_disabled_duty-Appends, clear_error_ip_port-Appends,
  init_thread_stat_info-Appends, clear_stat_info-Appends,
}

-- How often a thread of normal duties asks for one.
abbrev pub asks : Call → ℕ
asks (takes me t) = if t == 0 then 1 else 0
asks c = 0

abbrev pub turns : List Call → ℕ
turns [] = 0
turns (c ∷ cs) = asks c + turns cs

-- The duty is the one a take was about: it is given out, or it goes to the end of the error queue
-- since its server is failing by then.
abbrev ServedBy : SendDuty → QueueMng → Option SendDuty × QueueMng → Type 0
ServedBy d q r =
    (r.0 ≡ some d)
    ⊎ ((r.0 ≡ none)
        × (is_failing (ip_port d.server_ip d.server_port) q ≡ true)
        × (r.1.send_error_q ≡ q.send_error_q ++ d ∷ []))

abbrev pub Served : SendDuty → QueueMng → List Call → Type 0
Served d q cs =
    (before : List Call) × (me : ℕ) × (t : ℕ) × (after : List Call) × (cs
      ≡ before ++ takes me t ∷ after)
    × ServedBy d (run before q) (get_duty_f_send_q me t (run before q))

count_send-send_q : (t : ℕ) (q : QueueMng) → (count_send t q).send_q ≡ q.send_q
unfolding count_send
count_send-send_q t q = ground arith

-- A take serves the head of the queue, or it leaves the queue as it is.
abbrev Advances : SendDuty → List SendDuty → QueueMng → ℕ → Option SendDuty × QueueMng → Type 0
Advances d tail q n r = (ServedBy d q r × (r.1.send_q ≡ tail)) ⊎ ((r.1.send_q ≡ q.send_q) × (n ≡ 0))

take_normal-Advances :
    (me : ℕ) (q : QueueMng) (d : SendDuty) (tail : List SendDuty) (n : ℕ)
    → Advances d tail q n (take_normal me q d tail)
unfolding take_normal start_sending
take_normal-Advances me q d tail n =
    each_way (Advances d tail q n) (is_failing (ip_port d.server_ip d.server_port) q)
      (λ e. inl (inr (refl, e, refl), refl))
      (λ e. inl (inl refl, count_send-send_q d.protocol_type _))

take_type1-Advances :
    (me : ℕ) (q : QueueMng) (d : SendDuty) (tail es : List SendDuty)
    → Advances d tail q 0 (take_type1 me (d ∷ tail) es q)
unfolding take_type1 take_failed start_sending
take_type1-Advances me q d tail [] = take_normal-Advances me q d tail 0
take_type1-Advances me q d tail (e ∷ es) = inr (count_send-send_q e.protocol_type _, refl)

take-Advances :
    (me t : ℕ) (q : QueueMng) (d : SendDuty) (tail : List SendDuty)
    → q.send_q ≡ d ∷ tail
    → Advances d tail q (asks (takes me t)) (get_duty_f_send_q me t q)
unfolding get_duty_f_send_q take_type0
take-Advances me t q d tail h =
    let of_test = λ (b : Bool). if b then 1 else 0 in
    each_way (Advances d tail q (asks (takes me t))) (t == 0)
      (λ e.
        subst (λ l. Advances d tail q (asks (takes me t)) (take_type0 me l q.send_error_q q))
          (sym h) (take_normal-Advances me q d tail (asks (takes me t))))
      (λ e.
        either_way (Advances d tail q (asks (takes me t))) (t == 1)
          (subst (λ n. Advances d tail q n (take_type1 me q.send_q q.send_error_q q))
            (sym (ap of_test e))
            (subst (λ l. Advances d tail q 0 (take_type1 me l q.send_error_q q)) (sym h)
              (take_type1-Advances me q d tail q.send_error_q)))
          (inr (refl, ap of_test e)))

-- What is served later is served.
later :
    (c : Call) (d : SendDuty) (q : QueueMng) (cs : List Call)
    → Served d (step c q) cs
    → Served d q (c ∷ cs)
unfolding run
later c d q cs (before, me, t, after, e, s) = (c ∷ before, me, t, after, ap (λ l. c ∷ l) e, s)

abbrev AllServed : List Call → Type 0
AllServed cs =
    (q : QueueMng) (ds : List SendDuty) (d : SendDuty) (rest : List SendDuty)
    → q.send_q ≡ ds ++ d ∷ rest
    → length ds < turns cs
    → Served d q cs

-- The calls that are no take.
waits :
    (c : Call) (cs : List Call)
    → AllServed cs
    → asks c ≡ 0
    → ((q : QueueMng) → Appends q (step c q))
    → AllServed (c ∷ cs)
waits c cs ih none_asked grows q ds d rest h many =
    let a = grows q in
    later c d q cs (
      ih (step c q) ds d (rest ++ a.0) (a.1 ∙ ap (λ l. l ++ a.0) h ∙ append_assoc ds (d ∷ rest) a.0)
        (omega arith))

asks_once : (me t : ℕ) → asks (takes me t) ≤ 1
asks_once me t = either_way (λ n. n ≤ 1) (t == 0) (omega arith) (omega arith)

turn : (me t : ℕ) (cs : List Call) → AllServed cs → AllServed (takes me t ∷ cs)
unfolding step run
turn me t cs ih q [] d rest h many = elim (take-Advances me t q d rest h) [
  | inl p ↦ ([], me, t, cs, refl, p.0)
  | inr p ↦ later (takes me t) d q cs (ih (step (takes me t) q) [] d rest (p.0 ∙ h) (omega arith))
]
turn me t cs ih q (x ∷ ds) d rest h many = elim (take-Advances me t q x (ds ++ d ∷ rest) h) [
  | inl p ↦
      later (takes me t) d q cs
        (ih (step (takes me t) q) ds d rest p.1 (omega (arith, asks_once me t)))
  | inr p ↦
      later (takes me t) d q cs (ih (step (takes me t) q) (x ∷ ds) d rest (p.0 ∙ h) (omega arith))
]

-- A duty in the normal queue comes to its turn: in every history in which the threads of normal
-- duties ask more often than there are duties before it, whatever the other calls and their
-- order, one of the takes gives it out, or finds its server failing and moves it to the end of
-- the error queue.
pub get_duty_f_send_q-Served :
    (cs : List Call) (q : QueueMng) (ds : List SendDuty) (d : SendDuty) (rest : List SendDuty)
    → q.send_q ≡ ds ++ d ∷ rest
    → length ds < turns cs
    → Served d q cs
unfolding step
get_duty_f_send_q-Served [] = λ q ds d rest h many. absurd (omega arith)
get_duty_f_send_q-Served (takes me t ∷ cs) = turn me t cs (get_duty_f_send_q-Served cs)
get_duty_f_send_q-Served (checks me x ∷ cs) =
    waits (checks me x) cs (get_duty_f_send_q-Served cs) refl (check-Appends me x)
get_duty_f_send_q-Served (judges me t ∷ cs) =
    waits (judges me t) cs (get_duty_f_send_q-Served cs) refl (judge_normal-Appends me t)
get_duty_f_send_q-Served (finishes me t ∷ cs) =
    waits (finishes me t) cs (get_duty_f_send_q-Served cs) refl (set_over-Appends me t)
get_duty_f_send_q-Served (puts io me x type size ∷ cs) =
    waits (puts io me x type size) cs (get_duty_f_send_q-Served cs) refl
      (put_duty2send_q-Appends io me x type size)
get_duty_f_send_q-Served (moves ∷ cs) =
    waits moves cs (get_duty_f_send_q-Served cs) refl mv_error_q2send_q-Appends
get_duty_f_send_q-Served (clears_disabled ∷ cs) =
    waits clears_disabled cs (get_duty_f_send_q-Served cs) refl clear_disabled_duty-Appends
get_duty_f_send_q-Served (clears_error key ∷ cs) =
    waits (clears_error key) cs (get_duty_f_send_q-Served cs) refl (clear_error_ip_port-Appends key)
get_duty_f_send_q-Served (starts_thread type me ∷ cs) =
    waits (starts_thread type me) cs (get_duty_f_send_q-Served cs) refl
      (init_thread_stat_info-Appends type me)
get_duty_f_send_q-Served (prints_stat ∷ cs) =
    waits prints_stat cs (get_duty_f_send_q-Served cs) refl clear_stat_info-Appends
