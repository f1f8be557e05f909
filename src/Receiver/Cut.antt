-- ===== src/Receiver/Cut.antt =====
-- sharelib/ProtocolMng.cpp: a receipt in `processRecv` that ends at a response for a block.
use octopusd.Prelude.{
  ℕ, suc, ◌-◌, ◌≡◌, refl, ap, true, false, [], Option, some, leb, ◌==◌, if◌then◌else◌, take, drop,
}
use octopusd.Prelude.Bytes.{Bytes}
use octopusd.Queue.{QueueMng, SendDuty, protocol_pack_file}
use octopusd.Queue.Check.{judge_normal, recving_queue}
use octopusd.Queue.Put.{put_duty2send_q, add_server_info}
use octopusd.Queue.Run.{run}
use octopusd.Sender.{msg_buffer_size, ResponseCode, service_pause}
use octopusd.Receiver.{
  InBlock, RecvEnv, FileUploadMsg, Receiving, Round, stops, goes, look, recv_block, recv_data,
}
use octopusd.Receiver.Upload.{pass_on, finish, finish_option, duty_to_send, receive_file}
use octopusd.Receiver.Installed.{start}

-- Nothing has come, and no failure is marked.
abbrev cut_at : QueueMng → Receiving
cut_at q = record (start service_pause q) { block_no = 1 }

cut_block :
    (b : InBlock) (me : ℕ) (block : Bytes) (response : ResponseCode) (q : QueueMng)
    → b.answered ≡ false
    → (judge_normal me recving_queue (run b.meanwhile q)).0 ≡ true
    → recv_block b 1 me block (start response q)
      ≡ stops (cut_at (judge_normal me recving_queue (run b.meanwhile q)).1)
unfolding recv_block look
cut_block b me block response q unsent stands = simp (unsent, stands) refl

cut_data :
    (f n : ℕ) (env : RecvEnv) (me : ℕ) (incoming : Bytes) (response : ResponseCode) (q : QueueMng)
    → (env.blocks 0).answered ≡ false
    → (judge_normal me recving_queue (run (env.blocks 0).meanwhile q)).0 ≡ true
    → recv_data (suc f) env 1 me (suc n) incoming (start response q)
      ≡ some (cut_at (judge_normal me recving_queue (run (env.blocks 0).meanwhile q)).1)
unfolding recv_data
cut_data f n env me incoming response q unsent stands =
    let need = if leb msg_buffer_size (suc n) then msg_buffer_size else suc n in
    ap
      (λ (r : Round). elim r as (λ _. Option Receiving) [
        | stops s' ↦ some s'
        | goes s' ↦ recv_data f env 1 me (suc n - need) (drop need incoming) s'
      ])
      (cut_block (env.blocks 0) me (take need incoming) response q unsent stands)

cut_finish :
    (env : RecvEnv) (me : ℕ) (d : SendDuty) (size : ℕ) (q : QueueMng)
    → env.is_moved ≡ true
    → (d.protocol_type == protocol_pack_file) ≡ false
    → finish env me d size (cut_at q) ≡ (
        let put = put_duty2send_q env.io me d add_server_info size (run env.before_put q) in
        record { queue = put.1; response = service_pause; installed = some [] })
unfolding finish pass_on
cut_finish env me d size q moved plain = simp (moved, plain) refl

-- Where the protocol answers each block and the response for the first block is not sent, the loop
-- ends without a failure being marked: a duty that still stands, whose file opens, is within the
-- limit and is moved, puts an empty file at the file's place, and is passed on for it.
receive_file-cut :
    (env : RecvEnv) (me type : ℕ) (m : FileUploadMsg) (n : ℕ) (path : Bytes)
    (response : ResponseCode) (q : QueueMng)
    → q.config.com_cfg.protocol_type ≡ 1
    → q.config.com_cfg.max_limit_of_upload_file ≡ 0
    → env.opened ≡ true
    → (env.blocks 0).answered ≡ false
    → (judge_normal me recving_queue (run (env.blocks 0).meanwhile q)).0 ≡ true
    → env.is_moved ≡ true
    → (type == protocol_pack_file) ≡ false
    → let at_block = (judge_normal me recving_queue (run (env.blocks 0).meanwhile q)).1 in
      let put =
        put_duty2send_q env.io me
          (duty_to_send type m env.now path)
          add_server_info
          (suc n)
          (run env.before_put at_block) in
      receive_file env me type m (suc n) path response q
      ≡ some (record { queue = put.1; response = service_pause; installed = some [] })
unfolding receive_file finish_option duty_to_send
receive_file-cut env me type m n path response q p1 nolimit opened unsent stands moved plain =
    simp (opened, nolimit, p1)
      (rw (cut_data n n env me env.incoming response q unsent stands)
        (ap some (cut_finish env me (duty_to_send type m env.now path) (suc n) _ moved plain)))
