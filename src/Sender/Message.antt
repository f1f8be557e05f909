-- ===== src/Sender/Message.antt =====
-- sharelib/ProtocolMng.cpp: what a message of `processSend`, by the type of its duty, is for the
-- queues.
use octopusd.Prelude.{
  ℕ, ◌*◌, ◌≤◌, ◌≡◌, ◌⊎◌, refl, true, false, ◌&&◌, ◌||◌, [], ◌∷◌, ◌++◌, Option, none, some, arith,
  ◌==◌, length, Bool-cases, inl, inr, each_way, either_way,
}
use mathlib.Core.Path.{subst}
use octopusd.Prelude.Bytes.{Bytes}
use octopusd.Config.{ConfigMng}
use octopusd.Queue.{
  QueueMng, SendDuty, protocol_upload_file, protocol_del_file, protocol_mv_file, protocol_cp_file,
  protocol_pack_file,
}
use octopusd.Queue.Check.{judge_normal, sending_queue}
use octopusd.Queue.Run.{judges, run, run-append, step}
use octopusd.Sender.{
  SendEnv, Sending, FileStat, msg_buffer_size, send_file, left_size, send_content, upload_content,
  upload_file, send_order, send_by_type, code_of, goes_on, unknown_code, info_fail,
}
use octopusd.Sender.Rounds.{rounds, passed, send_file-Looked}

-- Where the sending of a message starts.
abbrev pub start : QueueMng → Sending
start q = record { queue = q; not_wait = 0; last = unknown_code; out = []; block_no = 0 }

-- The duty is a deletion, a move or a copy.
abbrev pub IsOrder : SendDuty → Type 0
IsOrder d =
    (d.protocol_type ≡ protocol_del_file)
    ⊎ ((d.protocol_type ≡ protocol_mv_file) ⊎ (d.protocol_type ≡ protocol_cp_file))

-- What the switch makes of the queues: it deals with blocks or with one order, which is given up
-- where the look at the duty fails.
abbrev pub Blocks : SendEnv → ℕ → QueueMng → Sending → Type 0
Blocks env me q s =
    (s.queue ≡ run (rounds env me 0 s.block_no) q)
    × (length s.out ≤ msg_buffer_size * passed env me 0 s.block_no q)

abbrev pub Order : SendEnv → ℕ → QueueMng → Sending → Type 0
Order env me q s =
    (s.queue ≡ run (env.before_message ++ (judges me sending_queue ∷ [])) q)
    × ((judge_normal me sending_queue (run env.before_message q)).0 ≡ false → s.not_wait ≡ 2)

abbrev Dealt : SendEnv → ℕ → QueueMng → Option Sending → Type 0
Dealt env me q o = (s' : Sending) → o ≡ some s' → Blocks env me q s'

-- Nothing has been sent yet.
abbrev Fresh : QueueMng → Sending → Type 0
Fresh q s = (s.queue ≡ q) × (s.block_no ≡ 0) × (s.out ≡ [])

-- A state that the queues have not changed in.
same-Dealt :
    (env : SendEnv) (me : ℕ) (q : QueueMng) (s : Sending) → Fresh q s → Dealt env me q (some s)
unfolding rounds run passed
same-Dealt env me q s (h, b, out) s' e =
    let same : s ≡ s' = cc in subst (Blocks env me q) same (rw (h, b, out) (refl, omega arith))

file-Dealt :
    (env : SendEnv) (protocol me n : ℕ) (content : Bytes) (q : QueueMng) (s : Sending)
    → Fresh q s
    → Dealt env me q (send_file n env protocol me n content s)
file-Dealt env protocol me n content q s (h, b, out) s' e =
    let looked = send_file-Looked n env protocol me n content s s' e in
    let (k, queue, ends_at, bytes) = rw (h, b, out) at looked in
    let same : s'.block_no ≡ k = omega (arith, ends_at) in rw same (queue, omega (arith, bytes))

send_content-Dealt :
    (env : SendEnv) (protocol me size : ℕ) (content : Bytes) (q : QueueMng) (s : Sending)
    → Fresh q s
    → Dealt env me q (send_content env protocol me size content s)
unfolding send_content
send_content-Dealt env protocol me size content q s fresh =
    let headed = record s { last = code_of env.message_response } in
    let n = left_size size in
    either_way (Dealt env me q) env.message_sent
      (either_way (Dealt env me q) (protocol == 1)
        (either_way (Dealt env me q) (goes_on env.message_response)
          (file-Dealt env protocol me n content q headed fresh) (same-Dealt env me q headed fresh))
        (file-Dealt env protocol me n content q s fresh))
      (same-Dealt env me q s fresh)

upload_content-Dealt :
    (env : SendEnv) (c : ConfigMng) (me size : ℕ) (content : Option Bytes) (q : QueueMng)
    (s : Sending)
    → Fresh q s
    → Dealt env me q (upload_content env c me size content s)
unfolding upload_content
upload_content-Dealt env c me size none q s fresh =
    same-Dealt env me q (record s { not_wait = 1 }) fresh
upload_content-Dealt env c me size (some content) q s fresh =
    send_content-Dealt env c.com_cfg.protocol_type me size content q s fresh

upload_file-Dealt :
    (env : SendEnv) (c : ConfigMng) (me : ℕ) (st : Option FileStat) (q : QueueMng) (s : Sending)
    → Fresh q s
    → Dealt env me q (upload_file env c me st s)
unfolding upload_file
upload_file-Dealt env c me none q s fresh = same-Dealt env me q (record s { not_wait = 1 }) fresh
upload_file-Dealt env c me (some st) q s fresh =
    either_way (Dealt env me q) (st.is_dir || (st.size == 0 && c.com_cfg.if_upload_zero_file == 0))
      (same-Dealt env me q (record s { not_wait = 1 }) fresh)
      (upload_content-Dealt env c me st.size env.content q s fresh)

send_order-Order :
    (env : SendEnv) (protocol me : ℕ) (s : Sending)
    → Order env me s.queue (send_order env protocol me s)
unfolding send_order run step
send_order-Order env protocol me s = (
  rw (run-append env.before_message (judges me sending_queue ∷ []) s.queue) (ground arith),
  λ gone. rw gone refl,
)

-- The type is that of an order.
order_type :
    (d : SendDuty)
    → (d.protocol_type == protocol_del_file
        || (d.protocol_type == protocol_mv_file || d.protocol_type == protocol_cp_file))
      ≡ true
    → IsOrder d
order_type d h = elim (Bool-cases (d.protocol_type == protocol_del_file)) [
  | inl e ↦ inl (ground arith)
  | inr e ↦ inr (elim (Bool-cases (d.protocol_type == protocol_mv_file)) [
    | inl e' ↦ inl (ground arith)
    | inr e' ↦ inr (ground arith)
  ])
]

file_type :
    (d : SendDuty)
    → (d.protocol_type == protocol_upload_file || d.protocol_type == protocol_pack_file) ≡ true
    → ¬ IsOrder d
file_type d h is = elim is [
  | inl e ↦ ground arith
  | inr rest ↦ elim rest [ inl e ↦ ground arith | inr e ↦ ground arith ]
]

other_type :
    (d : SendDuty)
    → (d.protocol_type == protocol_del_file
        || (d.protocol_type == protocol_mv_file || d.protocol_type == protocol_cp_file))
      ≡ false
    → ¬ IsOrder d
other_type d h is = elim is [
  | inl e ↦ ground arith
  | inr rest ↦ elim rest [ inl e ↦ ground arith | inr e ↦ ground arith ]
]

-- What a message is for the queues.
abbrev pub Sent : SendEnv → ℕ → SendDuty → QueueMng → Option Sending → Type 0
Sent env me d q o =
    (s' : Sending)
    → o ≡ some s'
    → (¬ IsOrder d × Blocks env me q s') ⊎ (IsOrder d × Order env me q s')

pub send_by_type-Sent :
    (env : SendEnv) (me : ℕ) (d : SendDuty) (q : QueueMng)
    → Sent env me d q (send_by_type env me d (start q))
unfolding send_by_type
send_by_type-Sent env me d q =
    let s = start q in
    let c = q.config in
    let failed = record s { last = info_fail } in
    each_way (Sent env me d q)
      (d.protocol_type == protocol_upload_file || d.protocol_type == protocol_pack_file)
      (λ is s' e.
        inl (file_type d is, upload_file-Dealt env c me env.file_stat q s (refl, refl, refl) s' e))
      (λ _.
        each_way (Sent env me d q)
          (d.protocol_type == protocol_del_file
            || (d.protocol_type == protocol_mv_file || d.protocol_type == protocol_cp_file))
          (λ is s' e. inr (order_type d is, order s' e))
          (λ is s' e. inl (other_type d is, same-Dealt env me q failed (refl, refl, refl) s' e)))
  where
    order :
        (s' : Sending)
        → some (send_order env q.config.com_cfg.protocol_type me (start q)) ≡ some s'
        → Order env me q s'
    order s' e =
        let same : send_order env q.config.com_cfg.protocol_type me (start q) ≡ s' = cc in
        subst (Order env me q) same
          (send_order-Order env q.config.com_cfg.protocol_type me (start q))
