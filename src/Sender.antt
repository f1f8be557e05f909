-- ===== src/Sender.antt =====
-- sharelib/ProtocolMng.cpp: `processSend`, a turn of a send thread. What the file system, the socket
-- and the other threads do on the way is an argument; no refresh of the configuration comes
-- between.
use octopusd.Prelude.{
  ℕ, zero, suc, ◌+◌, ◌-◌, ◌%◌, Bool, true, false, ◌&&◌, ◌||◌, not, List, [], ◌∷◌, ◌++◌, Option,
  none, some, ltb, leb, ◌==◌, if◌then◌else◌, length, take, drop,
}
use octopusd.Prelude.Bytes.{Bytes}
use octopusd.Config.{ConfigMng}
use octopusd.Queue.{
  QueueMng, SendDuty, protocol_upload_file, protocol_del_file, protocol_mv_file, protocol_cp_file,
  protocol_pack_file,
}
use octopusd.Queue.Check.{judge_normal, set_over, sending_queue}
use octopusd.Queue.FailLog.{FailIo}
use octopusd.Queue.Put.{put_duty2send_q, direct}
use octopusd.Queue.Take.{get_duty_f_send_q}
use octopusd.Queue.Run.{Call, run}
pub mod Ends
pub mod Content
pub mod Rounds
pub mod Message
pub mod Calls
pub mod Lost

-- CProtocolMng::ResponseCode.
pub data ResponseCode : Type 0 where
  check_ok success fail head_fail info_fail data_fail msg_error service_pause : ResponseCode
  cancel_duty unknown_code : ResponseCode

-- MsgBufferSize and WriteToFileSize.
abbrev pub msg_buffer_size : ℕ
msg_buffer_size = 10240

abbrev pub write_to_file_size : ℕ
write_to_file_size = 1024000

-- What `stat` says of the file that is sent.
pub record FileStat : Type 0 where
  pub is_dir : Bool
  pub size : ℕ

-- Around one block: what the other threads call before the thread looks at its duty's state,
-- whether the block is sent, and what `recvResponse` gives then.
pub record BlockEnv : Type 0 where
  pub meanwhile : List Call
  pub block_sent : Bool
  pub response : Option ResponseCode

-- What a turn meets, in the order of the code.
pub record SendEnv : Type 0 where
  pub queue_safe_mode : ℕ
  pub modified : Option ℕ
  pub connected : Bool
  pub head_sent : Bool
  pub file_stat : Option FileStat
  pub content : Option Bytes
  pub before_message : List Call
  pub message_sent : Bool
  pub message_response : Option ResponseCode
  pub blocks : ℕ → BlockEnv
  pub before_end : List Call
  pub last_response : Option ResponseCode
  pub before_put : List Call
  pub io : ℕ → FailIo

-- Where a message stands: the queues, `iNotWaitResultMsg`, `eLastResponseCode`, the bytes of the
-- file that were sent, and the number of the next block.
pub record Sending : Type 0 where
  pub queue : QueueMng
  pub not_wait : ℕ
  pub last : ResponseCode
  pub out : Bytes
  pub block_no : ℕ

-- What a received response makes of `eLastResponseCode`, and whether the code goes on.
unfoldable pub code_of : Option ResponseCode → ResponseCode
code_of none = service_pause
code_of (some cancel_duty) = success
code_of (some r) = r

unfoldable pub goes_on : Option ResponseCode → Bool
goes_on (some success) = true
goes_on _ = false

-- `iNotWaitResultMsg` behind a block whose response ends the file.
unfoldable pub stop_code : Option ResponseCode → ℕ
stop_code none = 4
stop_code (some success) = 0
stop_code (some cancel_duty) = 5
stop_code (some r) = 6

-- What follows a block that was sent: with protocol 1 its response decides.
unfoldable pub block_answered : ℕ → Option ResponseCode → Bytes → Sending → Sending
unfolding code_of stop_code
block_answered protocol response block s =
    if protocol == 1
    then record s { last = code_of response; not_wait = stop_code response; out = s.out ++ block }
    else record s { out = s.out ++ block }

-- A round of the inner loop.
unfoldable pub send_block : SendEnv → ℕ → ℕ → Bytes → Sending → Sending
unfolding block_answered judge_normal
send_block env protocol me block s =
    let e = env.blocks s.block_no in
    let judged = judge_normal me sending_queue (run e.meanwhile s.queue) in
    let next = record s { queue = judged.1; block_no = s.block_no + 1 } in
    if judged.0
    then (if e.block_sent
        then block_answered protocol e.response block next
        else record next { not_wait = 3 })
    else record next { not_wait = 2 }

-- The inner loop over what was read, on fuel; a round that sets `iNotWaitResultMsg` is its last.
unfoldable pub send_chunk : ℕ → SendEnv → ℕ → ℕ → Bytes → Sending → Option Sending
unfolding send_block
send_chunk fuel env protocol me [] s = some s
send_chunk zero env protocol me (c ∷ rest) s = none
send_chunk (suc f) env protocol me (c ∷ rest) s =
    let s' = send_block env protocol me (take msg_buffer_size (c ∷ rest)) s in
    elim (s'.not_wait == 0) [
      | true ↦ send_chunk f env protocol me (drop msg_buffer_size (c ∷ rest)) s'
      | false ↦ some s'
    ]

-- The outer loop: so many bytes are left of the size that `stat` gave, and the text is what the
-- file still holds. `fread` fails where that is less than is wanted, and the loop ends.
unfoldable pub send_file : ℕ → SendEnv → ℕ → ℕ → ℕ → Bytes → Sending → Option Sending
unfolding send_chunk
send_file fuel env protocol me zero rest s = some s
send_file zero env protocol me (suc left) rest s = none
send_file (suc f) env protocol me (suc left) rest s =
    let read_len = if leb write_to_file_size (suc left) then write_to_file_size else suc left in
    elim (ltb (length rest) read_len) [
      | true ↦ some s
      | false ↦ elim (send_chunk read_len env protocol me (take read_len rest) s) [
        | none ↦ none
        | some s' ↦ elim (s'.not_wait == 0) [
          | true ↦ send_file f env protocol me (suc left - read_len) (drop read_len rest) s'
          | false ↦ some s'
        ]
      ]
    ]

-- `int iLeftSize = iFileSize`: the 32 lowest bits, which make no round where they are negative.
unfoldable pub left_size : ℕ → ℕ
left_size size = let w = size % 4294967296 in if ltb w 2147483648 then w else 0

-- What follows the head of an uploaded file.
unfoldable pub send_content : SendEnv → ℕ → ℕ → ℕ → Bytes → Sending → Option Sending
unfolding send_file code_of goes_on left_size
send_content env protocol me size content s =
    let go_on = send_file (left_size size) env protocol me (left_size size) content in
    if env.message_sent
    then (if protocol == 1
        then (let s' = record s { last = code_of env.message_response } in
            if goes_on env.message_response then go_on s' else some s')
        else go_on s)
    else some s

-- The cases ProtocolUploadFile and ProtocolPackFile.
unfoldable pub upload_content :
    SendEnv → ConfigMng → ℕ → ℕ → Option Bytes → Sending → Option Sending
unfolding send_content
upload_content env c me size none s = some (record s { not_wait = 1 })
upload_content env c me size (some content) s =
    send_content env c.com_cfg.protocol_type me size content s

unfoldable pub upload_file : SendEnv → ConfigMng → ℕ → Option FileStat → Sending → Option Sending
unfolding upload_content
upload_file env c me none s = some (record s { not_wait = 1 })
upload_file env c me (some st) s =
    if st.is_dir || (st.size == 0 && c.com_cfg.if_upload_zero_file == 0)
    then some (record s { not_wait = 1 })
    else upload_content env c me st.size env.content s

-- The cases ProtocolDelFile, ProtocolMvFile and ProtocolCpFile, which differ in their message.
unfoldable pub send_order : SendEnv → ℕ → ℕ → Sending → Sending
unfolding judge_normal code_of
send_order env protocol me s =
    let judged = judge_normal me sending_queue (run env.before_message s.queue) in
    let next = record s { queue = judged.1 } in
    if judged.0
    then (if env.message_sent && protocol == 1
        then record next { last = code_of env.message_response }
        else next)
    else record next { not_wait = 2 }

-- The switch over the protocol of the duty.
unfoldable pub send_by_type : SendEnv → ℕ → SendDuty → Sending → Option Sending
unfolding upload_file send_order
send_by_type env me d s =
    let c = s.queue.config in
    if d.protocol_type == protocol_upload_file || d.protocol_type == protocol_pack_file
    then upload_file env c me env.file_stat s
    else if d.protocol_type == protocol_del_file
        || (d.protocol_type == protocol_mv_file || d.protocol_type == protocol_cp_file)
    then some (send_order env c.com_cfg.protocol_type me s)
    else some (record s { last = info_fail })

-- How a turn ends: with no duty, with a duty that is given up for a newer one, that is dropped,
-- that failed and was put again, or that was delivered, and then whether the local file is deleted.
pub data Ending : Type 0 where
  idle : Ending
  outdated : Ending
  dropped : Ending
  put_again : Ending
  delivered : Bool → Ending

-- The failure of a duty counts and the duty is put again.
unfoldable pub put_failed : SendEnv → ℕ → SendDuty → QueueMng → QueueMng
put_failed env me d q =
    (put_duty2send_q env.io me (record d { nr_of_fail = d.nr_of_fail + 1 }) direct 0 q).1

-- What `eLastResponseCode` is at the end.
unfoldable pub final_code : ℕ → ResponseCode → Option ResponseCode → ResponseCode
unfolding code_of
final_code protocol last none = if protocol == 0 then unknown_code else last
final_code protocol last (some r) = if protocol == 0 then code_of (some r) else last

unfoldable pub is_success : ResponseCode → Bool
is_success success = true
is_success _ = false

-- The end of the turn, once the duty is set over.
unfoldable pub end_over : SendEnv → ℕ → SendDuty → Sending → QueueMng → Ending × QueueMng
unfolding put_failed final_code is_success
end_over env me d s q =
    if s.not_wait == 1 || s.not_wait == 2
    then (dropped, q)
    else if is_success (final_code q.config.com_cfg.protocol_type s.last env.last_response)
    then (
      delivered
          (d.protocol_type == protocol_upload_file && q.config.com_cfg.del_file_after_upload == 1),
      q,
    )
    else (put_again, put_failed env me d (run env.before_put q))

unfoldable pub end_sending : SendEnv → ℕ → SendDuty → Sending → Ending × QueueMng
unfolding set_over end_over
end_sending env me d s =
    end_over env me d s (set_over me sending_queue (run env.before_end s.queue))

-- `2007-06-14`: in no safe mode, a file that was modified behind its duty is not sent.
unfoldable pub is_outdated : SendEnv → SendDuty → Bool
is_outdated env d =
    env.queue_safe_mode == 0
    && (d.protocol_type == protocol_upload_file
        && elim env.modified [ none ↦ false | some t ↦ ltb d.local_time t ])

unfoldable pub end_option : SendEnv → ℕ → SendDuty → Option Sending → Option (Ending × QueueMng)
unfolding end_sending
end_option env me d none = none
end_option env me d (some s) = some (end_sending env me d s)

-- A turn with a duty. Where the server does not answer, the duty is put before it is set over.
unfoldable pub send_duty : SendEnv → ℕ → SendDuty → QueueMng → Option (Ending × QueueMng)
unfolding is_outdated put_failed end_option send_by_type set_over
send_duty env me d q =
    if is_outdated env d
    then some (outdated, set_over me sending_queue q)
    else if env.connected && env.head_sent
    then end_option env me d (
        send_by_type env me d
          (record { queue = q; not_wait = 0; last = unknown_code; out = []; block_no = 0 }))
    else some (
      put_again,
      set_over me sending_queue (run env.before_put (put_failed env me d (run env.before_end q))),
    )

-- CProtocolMng::processSend; `none` means that the fuel ran out.
unfoldable pub send_taken : SendEnv → ℕ → Option SendDuty × QueueMng → Option (Ending × QueueMng)
unfolding send_duty
send_taken env me (none, q) = some (idle, q)
send_taken env me (some d, q) = send_duty env me d q

unfoldable pub process_send : SendEnv → ℕ → ℕ → QueueMng → Option (Ending × QueueMng)
unfolding send_taken get_duty_f_send_q
process_send env me type q = send_taken env me (get_duty_f_send_q me type q)
