-- ===== src/Sender/Lost.antt =====
-- sharelib/ProtocolMng.cpp: `processSend` where a block of a file cannot be sent.
use octopusd.Prelude.{
  ℕ, zero, suc, ◌+◌, ◌≡◌, ◌≢◌, ◌≤◌, refl, ap, ◌∙◌, Bool, true, false, [], ◌∷◌, Option, none, some,
  arith, leb, ltb, ◌==◌, if◌then◌else◌, length, take,
}
use octopusd.Prelude.Bytes.{Bytes}
use octopusd.Config.{ComCfg}
use octopusd.Queue.{QueueMng, SendDuty, protocol_upload_file}
use octopusd.Queue.Check.{judge_normal, sending_queue, set_over}
use octopusd.Queue.Run.{run, step, judges, finishes}
use octopusd.Queue.Run.Settings.{run-com_cfg, step-com_cfg}
use octopusd.Sender.{
  SendEnv, Sending, FileStat, success, unknown_code, delivered, msg_buffer_size, write_to_file_size,
  send_block, send_chunk, send_file, left_size, send_content, upload_content, upload_file,
  send_by_type, end_sending, end_over, end_option, ResponseCode, send_duty, is_outdated, final_code,
  is_success,
}

module _ (env : SendEnv) (protocol me : ℕ) (s : Sending) where
  -- The state of the queues in which the thread looks at its duty before its next block.
  abbrev pub looked : Bool × QueueMng
  looked = judge_normal me sending_queue (run (env.blocks s.block_no).meanwhile s.queue)

  abbrev pub unsent : Sending
  unsent = record s { queue = looked.1; block_no = s.block_no + 1; not_wait = 3 }

  module _ (normal : looked.0 ≡ true) (fails : (env.blocks s.block_no).block_sent ≡ false) where
    send_block-unsent : (block : Bytes) → send_block env protocol me block s ≡ unsent
    unfolding send_block
    send_block-unsent block = ground arith

    -- The round that fails is the last.
    stops : (block : Bytes) → ((send_block env protocol me block s).not_wait == 0) ≡ false
    stops block = rw (send_block-unsent block) refl

    send_chunk-unsent :
        (n c : ℕ) (rest : Bytes)
        → n ≢ 0
        → send_chunk n env protocol me (take n (c ∷ rest)) s ≡ some unsent
    unfolding send_chunk
    send_chunk-unsent zero c rest h = absurd (h refl)
    send_chunk-unsent (suc n) c rest h =
        rw (stops (take msg_buffer_size (c ∷ take n rest)), send_chunk)
          (ap some (send_block-unsent (take msg_buffer_size (c ∷ take n rest))))

    send_file-unsent :
        (left : ℕ) (text : Bytes)
        → left ≢ 0
        → left ≤ length text
        → send_file left env protocol me left text s ≡ some unsent
    unfolding send_file
    send_file-unsent zero text p h = absurd (p refl)
    send_file-unsent (suc left) [] p h = absurd (omega arith)
    send_file-unsent (suc left) (c ∷ rest) p h =
        let n = if leb write_to_file_size (suc left) then write_to_file_size else suc left in
        let there : ltb (length (c ∷ rest)) n ≡ false = ground arith in
        let some_bytes : n ≢ 0 = ground arith in
        rw (there, send_file, send_chunk-unsent n c rest some_bytes) refl

-- A turn behind the head, in which no byte of a file has been sent.
abbrev pub started : QueueMng → Sending
started q = record { queue = q; not_wait = 0; last = unknown_code; out = []; block_no = 0 }

abbrev headed : QueueMng → Sending
headed q = record (started q) { last = success }

send_content-unsent :
    (env : SendEnv) (me size : ℕ) (text : Bytes) (q : QueueMng)
    → env.message_sent ≡ true
    → env.message_response ≡ some success
    → (looked env 1 me (headed q)).0 ≡ true
    → (env.blocks 0).block_sent ≡ false
    → left_size size ≢ 0
    → left_size size ≤ length text
    → send_content env 1 me size text (started q) ≡ some (unsent env 1 me (headed q))
unfolding send_content
send_content-unsent env me size text q sent response normal fails some_bytes enough =
    simp (sent, response)
      (send_file-unsent env 1 me (headed q) normal fails (left_size size) text some_bytes enough)

size_not_zero : (size : ℕ) → left_size size ≢ 0 → (size == 0) ≡ false
unfolding left_size
size_not_zero size h = ground arith

upload_unsent :
    (env : SendEnv) (me : ℕ) (d : SendDuty) (q : QueueMng) (st : FileStat) (text : Bytes)
    → d.protocol_type ≡ protocol_upload_file
    → q.config.com_cfg.protocol_type ≡ 1
    → env.file_stat ≡ some st
    → st.is_dir ≡ false
    → env.content ≡ some text
    → send_content env 1 me st.size text (started q) ≡ some (unsent env 1 me (headed q))
    → left_size st.size ≢ 0
    → send_by_type env me d (started q) ≡ some (unsent env 1 me (headed q))
unfolding send_by_type upload_file upload_content
upload_unsent env me d q st text type protocol stat plain content unsends some_bytes =
    simp (type, protocol, stat, plain, content, size_not_zero st.size some_bytes) unsends

at_end : SendEnv → ℕ → QueueMng → QueueMng
at_end env me q = set_over me sending_queue (run env.before_end q)

com_cfg-at_end :
    (env : SendEnv) (me : ℕ) (q : QueueMng)
    → (at_end env me (looked env 1 me (headed q)).1).config.com_cfg ≡ q.config.com_cfg
unfolding at_end step
com_cfg-at_end env me q =
    let meanwhile = run (env.blocks 0).meanwhile q in
    step-com_cfg (finishes me sending_queue) (run env.before_end (looked env 1 me (headed q)).1)
    ∙ run-com_cfg env.before_end (looked env 1 me (headed q)).1
    ∙ step-com_cfg (judges me sending_queue) meanwhile
    ∙ run-com_cfg (env.blocks 0).meanwhile q

final_code_1 : (last : ResponseCode) (r : Option ResponseCode) → final_code 1 last r ≡ last
unfolding final_code
final_code_1 last none = refl
final_code_1 last (some r) = refl

-- The end of a turn with `iNotWaitResultMsg` 3 and a last response of success.
end_over_3 :
    (env : SendEnv) (me : ℕ) (d : SendDuty) (s : Sending) (q : QueueMng) (c : ComCfg)
    → d.protocol_type ≡ protocol_upload_file
    → q.config.com_cfg ≡ c
    → c.protocol_type ≡ 1
    → s.not_wait ≡ 3
    → s.last ≡ success
    → end_over env me d s q ≡ (delivered (c.del_file_after_upload == 1), q)
unfolding end_over is_success
end_over_3 env me d s q c type cfg protocol three last =
    simp (type, cfg, protocol, three, last, final_code_1) refl

-- A duty to upload a file, in the protocol that answers every message, whose head was answered by
-- success and whose first block cannot be sent: no byte of the file has been sent, and still the
-- turn ends as for a delivered duty, with the local file deleted where the configuration says so
-- of delivered files.
pub send_duty_unsent :
    (env : SendEnv) (me : ℕ) (d : SendDuty) (q : QueueMng) (st : FileStat) (text : Bytes)
    → d.protocol_type ≡ protocol_upload_file
    → q.config.com_cfg.protocol_type ≡ 1
    → is_outdated env d ≡ false
    → env.connected ≡ true
    → env.head_sent ≡ true
    → env.file_stat ≡ some st
    → st.is_dir ≡ false
    → env.content ≡ some text
    → left_size st.size ≢ 0
    → left_size st.size ≤ length text
    → env.message_sent ≡ true
    → env.message_response ≡ some success
    → (judge_normal me sending_queue (run (env.blocks 0).meanwhile q)).0 ≡ true
    → (env.blocks 0).block_sent ≡ false
    → (s : Sending) × (q' : QueueMng) × (send_by_type env me d (started q) ≡ some s)
      × (s.out ≡ [])
      × (send_duty env me d q ≡ some (delivered (q.config.com_cfg.del_file_after_upload == 1), q'))
unfolding send_duty end_option end_sending at_end
send_duty_unsent env me d q st text type protocol kept connected head stat plain content some_bytes
      enough sent response normal fails =
    let unsends =
      send_content-unsent env me st.size text q sent response normal fails some_bytes enough in
    let e = upload_unsent env me d q st text type protocol stat plain content unsends some_bytes in
    let s = unsent env 1 me (headed q) in
    let c = com_cfg-at_end env me q in
    (
      s,
      at_end env me s.queue,
      e,
      refl,
      simp (kept, connected, head, e)
          (ap some (
            end_over_3 env me d s (at_end env me s.queue) q.config.com_cfg type c protocol refl
              refl)),
    )
