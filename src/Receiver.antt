-- ===== src/Receiver.antt =====
-- sharelib/ProtocolMng.cpp: the loop of `processRecv` that takes the data of a file in. What the
-- file system, the socket and the other threads do on the way is an argument, with what
-- `analysePathFile` makes of a path.
use octopusd.Prelude.{
  ℕ, zero, suc, ◌+◌, ◌-◌, ◌%◌, Bool, true, false, not, ◌&&◌, ◌||◌, List, [], ◌∷◌, ◌++◌, Option,
  none, some, ltb, leb, ◌==◌, if◌then◌else◌, length, take, drop,
}
use octopusd.Prelude.Bytes.{Bytes}
use octopusd.Prelude.Int.{ℤ, pos, negsuc}
use octopusd.Prelude.Map.{find, bytes_key}
use octopusd.Config.{get_site_root_dir}
use octopusd.Queue.{QueueMng, RecvingDuty, SendDuty, normal, protocol_pack_file, default_send}
use octopusd.Queue.Check.{
  Verdict, older, fresh, replaces_recving, replaces_sending, check, judge_normal, recving_queue,
}
use octopusd.Queue.FailLog.{FailIo}
use octopusd.Queue.Put.{put_duty2send_q, add_server_info}
use octopusd.Queue.Run.{Call, run}
use octopusd.Sender.{
  ResponseCode, success, fail, info_fail, data_fail, service_pause, cancel_duty, msg_buffer_size,
  write_to_file_size,
}
pub mod Upload
pub mod Orders
pub mod Named
pub mod Calls
pub mod Buffer
pub mod Ends
pub mod Installed
pub mod Cut
pub mod Runs

-- What `receiveMsg` answers: 0, 1 for a peer that has gone, or another number.
pub data Arrival : Type 0 where
  arrived peer_gone not_arrived : Arrival

-- Around one block of data: what the other threads call, whether the response for the last block
-- is sent, whether the block comes, and whether a full buffer is written.
pub record InBlock : Type 0 where
  pub meanwhile : List Call
  pub answered : Bool
  pub arrival : Arrival
  pub flushed : Bool

-- What the handler of a file meets, in the order of the code; the file's data as it comes, and
-- the time.
pub record RecvEnv : Type 0 where
  pub before_check : List Call
  pub tmp_path : Option Bytes
  pub real_path : Option Bytes
  pub opened : Bool
  pub incoming : Bytes
  pub blocks : ℕ → InBlock
  pub rest_written : Bool
  pub is_moved : Bool
  pub is_unpacked : Bool
  pub now : ℕ
  pub before_put : List Call
  pub io : ℕ → FailIo

-- CFileUploadMsg, with its length in the order of the machine.
pub record FileUploadMsg : Type 0 where
  pub site_name : Bytes
  pub dest_path_file : Bytes
  pub sended_time : Bytes
  pub data_length : ℤ

-- Where the receipt stands: the queues, `eResponseCode`, `iRecvRet`, `iWriteLogFlag`, the buffer,
-- what the temporary file holds, and the number of the next block.
pub record Receiving : Type 0 where
  pub queue : QueueMng
  pub response : ResponseCode
  pub recv_ret : ℕ
  pub write_log_flag : ℕ
  pub buffer : Bytes
  pub written : Bytes
  pub block_no : ℕ

-- A round of the loop goes on or ends it.
pub data Round : Type 0 where
  goes : Receiving → Round
  stops : Receiving → Round

-- The look at the duty, until it is found cancelled once.
unfoldable pub look : ℕ → List Call → Receiving → Receiving
unfolding judge_normal run
look me meanwhile s =
    let q = run meanwhile s.queue in
    let judged = judge_normal me recving_queue q in
    let next = record s { block_no = s.block_no + 1 } in
    if s.write_log_flag == 0
    then (if judged.0 then record next { queue = judged.1 } else record next {
      queue = judged.1;
      response = cancel_duty;
      recv_ret = 1;
      write_log_flag = 1;
    })
    else record next { queue = q }

-- The block goes to the buffer, which is written first where it has no room.
unfoldable pub store : Bool → Bytes → Receiving → Round
store flushed block s =
    let full = ltb write_to_file_size (length s.buffer + length block) in
    if full && not flushed
    then stops (record s { response = data_fail; recv_ret = 3 })
    else if full
    then goes (record s { written = s.written ++ s.buffer; buffer = block })
    else goes (record s { buffer = s.buffer ++ block })

unfoldable pub take_in : InBlock → Arrival → Bytes → Receiving → Round
unfolding store
take_in b arrived block s = store b.flushed block s
take_in b peer_gone block s = stops (record s { response = cancel_duty; recv_ret = 2 })
take_in b not_arrived block s = stops (record s { response = data_fail; recv_ret = 2 })

-- A round; the argument behind the protocol is the block that comes, if one does.
unfoldable pub recv_block : InBlock → ℕ → ℕ → Bytes → Receiving → Round
unfolding look take_in
recv_block b protocol me block s =
    let next = look me b.meanwhile s in
    if protocol == 1 && not b.answered
    then stops (record next { response = service_pause })
    else take_in b b.arrival block next

-- The loop, on fuel: so many bytes are still to come, of the data that is given.
unfoldable pub recv_data : ℕ → RecvEnv → ℕ → ℕ → ℕ → Bytes → Receiving → Option Receiving
unfolding recv_block
recv_data fuel env protocol me zero incoming s = some s
recv_data zero env protocol me (suc left) incoming s = none
recv_data (suc f) env protocol me (suc left) incoming s =
    let need = if leb msg_buffer_size (suc left) then msg_buffer_size else suc left in
    elim (recv_block (env.blocks s.block_no) protocol me (take need incoming) s) [
      | stops s' ↦ some s'
      | goes s' ↦ recv_data f env protocol me (suc left - need) (drop need incoming) s'
    ]
