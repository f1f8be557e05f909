-- ===== src/Sender/Ends.antt =====
-- sharelib/ProtocolMng.cpp: the loops of `processSend` and their fuel.
use octopusd.Prelude.{
  ℕ, zero, suc, ◌-◌, ◌≡◌, ◌≤◌, refl, Bool, ◌&&◌, ◌||◌, List, [], ◌∷◌, Option, none, some, arith,
  leb, ltb, ◌==◌, if◌then◌else◌, length, take, drop, Bool-cases, inl, inr, either_way,
}
use octopusd.Prelude.Bytes.{Bytes}
use octopusd.Config.{ConfigMng}
use octopusd.Queue.{
  QueueMng, SendDuty, protocol_upload_file, protocol_del_file, protocol_mv_file, protocol_cp_file,
  protocol_pack_file,
}
use octopusd.Queue.Take.{get_duty_f_send_q}
use octopusd.Sender.{
  SendEnv, FileStat, Sending, Ending, unknown_code, info_fail, is_outdated, idle, msg_buffer_size,
  write_to_file_size, send_block, send_chunk, send_file, send_content, upload_content, upload_file,
  send_order, send_by_type, end_option, send_duty, send_taken, process_send, end_sending, left_size,
  code_of, goes_on,
}

-- A result that is there.
abbrev pub IsSome {ℓ} : {A : Type ℓ} → Option A → Type ℓ
IsSome {A} o = (a : A) × (o ≡ some a)

if-IsSome {ℓ} :
    {A : Type ℓ} (b : Bool) {x y : Option A} → IsSome x → IsSome y → IsSome (if b then x else y)
if-IsSome b hx hy = either_way IsSome b hx hy

pub length-take-le {ℓ} : {A : Type ℓ} (n : ℕ) (s : List A) → length (take n s) ≤ n
length-take-le zero s = omega arith
length-take-le (suc n) [] = omega arith
length-take-le (suc n) (c ∷ s) = omega (arith, length-take-le n s)

pub length-drop-le {ℓ} : {A : Type ℓ} (n : ℕ) (s : List A) → length (drop n s) ≤ length s
length-drop-le zero s = omega arith
length-drop-le (suc n) [] = omega arith
length-drop-le (suc n) (c ∷ s) = omega (arith, length-drop-le n s)

-- As much fuel as there are bytes is enough for the inner loop.
pub send_chunk_ends :
    (f : ℕ) (env : SendEnv) (protocol me : ℕ) (chunk : Bytes) (s : Sending)
    → length chunk ≤ f
    → IsSome (send_chunk f env protocol me chunk s)
unfolding send_chunk
send_chunk_ends zero env protocol me [] s h = (s, refl)
send_chunk_ends (suc f) env protocol me [] s h = (s, refl)
send_chunk_ends zero env protocol me (c ∷ rest) s h = absurd (omega arith)
send_chunk_ends (suc f) env protocol me (c ∷ rest) s h =
    let s' = send_block env protocol me (take msg_buffer_size (c ∷ rest)) s in
    let ih =
      send_chunk_ends f env protocol me (drop msg_buffer_size (c ∷ rest)) s'
        (omega (arith, length-drop-le 10239 rest)) in
    elim (Bool-cases (s'.not_wait == 0)) [
      | inl e ↦ rw (e, send_chunk) ih
      | inr e ↦ rw (e, send_chunk) (s', refl)
    ]

-- As much fuel as there are bytes left is enough for the outer loop.
pub send_file_ends :
    (f : ℕ) (env : SendEnv) (protocol me left : ℕ) (rest : Bytes) (s : Sending)
    → left ≤ f
    → IsSome (send_file f env protocol me left rest s)
unfolding send_file
send_file_ends zero env protocol me zero rest s h = (s, refl)
send_file_ends (suc f) env protocol me zero rest s h = (s, refl)
send_file_ends zero env protocol me (suc left) rest s h = absurd (omega arith)
send_file_ends (suc f) env protocol me (suc left) rest s h =
    let n = if leb write_to_file_size (suc left) then write_to_file_size else suc left in
    let small : suc left - n ≤ left = ground arith in
    elim (Bool-cases (ltb (length rest) n)) [
      | inl e ↦ rw (e, send_file) (s, refl)
      | inr e ↦
          let chunk = send_chunk_ends n env protocol me (take n rest) s (length-take-le n rest) in
          let ih =
            send_file_ends f env protocol me (suc left - n) (drop n rest) chunk.0 (omega arith) in
          elim (Bool-cases (chunk.0.not_wait == 0)) [
            | inl e' ↦ rw (e, send_file, chunk.1, e') ih
            | inr e' ↦ rw (e, send_file, chunk.1, e') (chunk.0, refl)
          ]
    ]

send_content_ends :
    (env : SendEnv) (protocol me size : ℕ) (content : Bytes) (s : Sending)
    → IsSome (send_content env protocol me size content s)
unfolding send_content
send_content_ends env protocol me size content s =
    let s' = record s { last = code_of env.message_response } in
    let n = left_size size in
    if-IsSome env.message_sent
      (if-IsSome (protocol == 1)
        (if-IsSome (goes_on env.message_response)
          (send_file_ends n env protocol me n content s' (omega arith)) (s', refl))
        (send_file_ends n env protocol me n content s (omega arith)))
      (s, refl)

upload_content_ends :
    (env : SendEnv) (c : ConfigMng) (me size : ℕ) (content : Option Bytes) (s : Sending)
    → IsSome (upload_content env c me size content s)
unfolding upload_content
upload_content_ends env c me size none s = (record s { not_wait = 1 }, refl)
upload_content_ends env c me size (some content) s =
    send_content_ends env c.com_cfg.protocol_type me size content s

upload_file_ends :
    (env : SendEnv) (c : ConfigMng) (me : ℕ) (st : Option FileStat) (s : Sending)
    → IsSome (upload_file env c me st s)
unfolding upload_file
upload_file_ends env c me none s = (record s { not_wait = 1 }, refl)
upload_file_ends env c me (some st) s =
    if-IsSome (st.is_dir || (st.size == 0 && c.com_cfg.if_upload_zero_file == 0))
      (record s { not_wait = 1 }, refl) (upload_content_ends env c me st.size env.content s)

send_by_type_ends :
    (env : SendEnv) (me : ℕ) (d : SendDuty) (s : Sending) → IsSome (send_by_type env me d s)
unfolding send_by_type
send_by_type_ends env me d s =
    let c = s.queue.config in
    if-IsSome (d.protocol_type == protocol_upload_file || d.protocol_type == protocol_pack_file)
      (upload_file_ends env c me env.file_stat s)
      (if-IsSome
        (d.protocol_type == protocol_del_file
          || (d.protocol_type == protocol_mv_file || d.protocol_type == protocol_cp_file))
        (send_order env c.com_cfg.protocol_type me s, refl) (record s { last = info_fail }, refl))

end_option_ends :
    (env : SendEnv) (me : ℕ) (d : SendDuty) (o : Option Sending)
    → IsSome o
    → IsSome (end_option env me d o)
unfolding end_option
end_option_ends env me d o (s, e) = rw e (end_sending env me d s, refl)

send_duty_ends :
    (env : SendEnv) (me : ℕ) (d : SendDuty) (q : QueueMng) → IsSome (send_duty env me d q)
unfolding send_duty
send_duty_ends env me d q =
    let s : Sending = record {
      queue = q;
      not_wait = 0;
      last = unknown_code;
      out = [];
      block_no = 0;
    } in
    if-IsSome (is_outdated env d) (_, refl)
      (if-IsSome (env.connected && env.head_sent)
        (end_option_ends env me d (send_by_type env me d s) (send_by_type_ends env me d s))
        (_, refl))

send_taken_ends :
    (env : SendEnv) (me : ℕ) (t : Option SendDuty × QueueMng) → IsSome (send_taken env me t)
unfolding send_taken
send_taken_ends env me (none, q) = ((idle, q), refl)
send_taken_ends env me (some d, q) = send_duty_ends env me d q

-- A turn of a send thread ends, whatever the file system, the socket and the other threads do.
pub process_send_ends :
    (env : SendEnv) (me type : ℕ) (q : QueueMng)
    → (result : Ending × QueueMng) × (process_send env me type q ≡ some result)
unfolding process_send
process_send_ends env me type q = send_taken_ends env me (get_duty_f_send_q me type q)
