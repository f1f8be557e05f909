-- ===== src/Queue/Take/Conservation.antt =====
-- sharelib/QueueMng.cpp: the waiting duties behind a take.
use mathlib.Core.List.Perm
use mathlib.Core.List.{Perm, perm_middle}
use mathlib.Core.Path.{subst}
use octopusd.Prelude.{
  ℕ, ◌≡◌, refl, List, [], ◌∷◌, ◌++◌, Option, none, some, arith, ◌==◌, Bool-cases, inl, inr,
}
use octopusd.Prelude.Map.{find, insert, find-insert, nat_key}
use octopusd.Queue.{QueueMng, SendDuty, ip_port}
use octopusd.Queue.Put.{is_failing}
use octopusd.Queue.Put.Placement.{queued, perm_failed}
use octopusd.Queue.Take.{
  count_send, start_sending, take_normal, take_failed, take_type0, take_type1, get_duty_f_send_q,
}

-- What a thread starts on is entered as its duty, and leaves the queues alone.
pub start_sending-keeps :
    (me : ℕ) (d : SendDuty) (q : QueueMng)
    → ((start_sending me d q).send_q ≡ q.send_q)
      × ((start_sending me d q).send_error_q ≡ q.send_error_q)
      × ((start_sending me d q).sending_q ≡ insert me d q.sending_q)
unfolding start_sending count_send
start_sending-keeps me d q = ground arith

start_sending-queued :
    (me : ℕ) (d : SendDuty) (q : QueueMng) → queued (start_sending me d q) ≡ queued q
start_sending-queued me d q = ground (arith, start_sending-keeps me d q)

-- The duties of the state before are those that wait after, and the one that was taken, which
-- is then the thread's own.
abbrev pub Taken : ℕ → List SendDuty → Option SendDuty × QueueMng → Type 0
Taken me before (none, q) = Perm before (queued q)
Taken me before (some d, q) = Perm before (d ∷ queued q) × (find me q.sending_q ≡ some d)

find-start_sending :
    (me : ℕ) (d : SendDuty) (q : QueueMng) → find me (start_sending me d q).sending_q ≡ some d
find-start_sending me d q =
    rw ((start_sending-keeps me d q).2, find-insert me me d q.sending_q) (ground arith)

take_normal-Taken :
    (me : ℕ) (q : QueueMng) (d : SendDuty) (rest : List SendDuty)
    → Taken me ((d ∷ rest) ++ q.send_error_q) (take_normal me q d rest)
unfolding take_normal
take_normal-Taken me q d rest =
    elim (Bool-cases (is_failing (ip_port d.server_ip d.server_port) q)) [
      | inl e ↦ rw e (Perm.symm (perm_failed d rest q.send_error_q))
      | inr e ↦
          let q' = record q { send_q = rest } in
          rw e (rw (start_sending-queued me d q') (Perm.refl _), find-start_sending me d q')
    ]

take_failed-Taken :
    (me : ℕ) (q : QueueMng) (d : SendDuty) (rest : List SendDuty)
    → Taken me (q.send_q ++ d ∷ rest) (take_failed me q d rest)
unfolding take_failed
take_failed-Taken me q d rest =
    let q' = record q { send_error_q = rest } in
    (rw (start_sending-queued me d q') (perm_middle q.send_q rest), find-start_sending me d q')

take_type0-Taken :
    (me : ℕ) (ds es : List SendDuty) (q : QueueMng)
    → q.send_q ≡ ds
    → q.send_error_q ≡ es
    → Taken me (ds ++ es) (take_type0 me ds es q)
unfolding take_type0
take_type0-Taken me [] [] q h k = rw (h, k) (Perm.refl _)
take_type0-Taken me [] (e ∷ es) q h k =
    subst (λ l. Taken me (l ++ e ∷ es) (take_failed me q e es)) h (take_failed-Taken me q e es)
take_type0-Taken me (d ∷ ds) es q h k =
    subst (λ l. Taken me ((d ∷ ds) ++ l) (take_normal me q d ds)) k (take_normal-Taken me q d ds)

take_type1-Taken :
    (me : ℕ) (ds es : List SendDuty) (q : QueueMng)
    → q.send_q ≡ ds
    → q.send_error_q ≡ es
    → Taken me (ds ++ es) (take_type1 me ds es q)
unfolding take_type1
take_type1-Taken me [] [] q h k = rw (h, k) (Perm.refl _)
take_type1-Taken me [] (e ∷ es) q h k =
    subst (λ l. Taken me (l ++ e ∷ es) (take_failed me q e es)) h (take_failed-Taken me q e es)
take_type1-Taken me (d ∷ ds) [] q h k =
    subst (λ l. Taken me ((d ∷ ds) ++ l) (take_normal me q d ds)) k (take_normal-Taken me q d ds)
take_type1-Taken me (d ∷ ds) (e ∷ es) q h k =
    subst (λ l. Taken me (l ++ e ∷ es) (take_failed me q e es)) h (take_failed-Taken me q e es)

-- Whatever a thread asks for, the duties that waited are afterwards those that still wait and
-- the one it was given, which is then entered as its own; none is lost and none is doubled.
pub get_duty_f_send_q-Taken :
    (me type : ℕ) (q : QueueMng) → Taken me (queued q) (get_duty_f_send_q me type q)
unfolding get_duty_f_send_q
get_duty_f_send_q-Taken me type q = elim (Bool-cases (type == 0)) [
  | inl e ↦ rw e (take_type0-Taken me q.send_q q.send_error_q q refl refl)
  | inr e ↦ elim (Bool-cases (type == 1)) [
    | inl f ↦ rw (e, f) (take_type1-Taken me q.send_q q.send_error_q q refl refl)
    | inr f ↦ rw (e, f) (Perm.refl _)
  ]
]
