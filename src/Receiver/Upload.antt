-- ===== src/Receiver/Upload.antt =====
-- sharelib/ProtocolMng.cpp: the part of `processRecv` that takes a file in, around the loop over its
-- data, from behind the head of the message to the response. The rights of the file are not
-- modelled.
use octopusd.Prelude.{ℕ, not, ◌&&◌, [], ◌++◌, Option, none, some, leb, ◌==◌, if◌then◌else◌, length}
use octopusd.Prelude.Bytes.{Bytes}
use octopusd.Prelude.Int.{ℤ, pos, negsuc}
use octopusd.Prelude.Map.{find, bytes_key}
use octopusd.Config.{get_site_root_dir}
use octopusd.Queue.{QueueMng, RecvingDuty, SendDuty, normal, protocol_pack_file, default_send}
use octopusd.Queue.Check.{Verdict, older, fresh, replaces_recving, replaces_sending, check}
use octopusd.Queue.Put.{put_duty2send_q, add_server_info}
use octopusd.Queue.Run.{run}
use octopusd.Sender.{ResponseCode, success, fail, info_fail, data_fail, service_pause, cancel_duty}
use octopusd.Receiver.{RecvEnv, FileUploadMsg, Receiving, recv_data}

-- What a handler leaves: the queues, the response, and what it has put at the file's place.
pub record Received : Type 0 where
  pub queue : QueueMng
  pub response : ResponseCode
  pub installed : Option Bytes

unfoldable pub failing : ResponseCode → QueueMng → Received
failing r q = record { queue = q; response = r; installed = none }

-- The file is at its place: the archive is unpacked, and the duty is put for each server.
unfoldable pub pass_on : RecvEnv → ℕ → SendDuty → ℕ → Bytes → Receiving → Received
unfolding put_duty2send_q run
pass_on env me d size content s =
    let put = put_duty2send_q env.io me d add_server_info size (run env.before_put s.queue) in
    if d.protocol_type == protocol_pack_file && not env.is_unpacked
    then record { queue = s.queue; response = fail; installed = some content }
    else record {
      queue = put.1;
      response = if put.0 then s.response else service_pause;
      installed = some content;
    }

-- Behind the loop: the rest of the buffer is written, and the file is moved to its place.
unfoldable pub finish : RecvEnv → ℕ → SendDuty → ℕ → Receiving → Received
unfolding failing pass_on
finish env me d size s =
    let rest = not (length s.buffer == 0) && s.recv_ret == 0 in
    let content = if rest then s.written ++ s.buffer else s.written in
    if rest && not env.rest_written
    then failing data_fail s.queue
    else if not (s.recv_ret == 0)
    then failing s.response s.queue
    else if not env.is_moved
    then failing data_fail s.queue
    else pass_on env me d size content s

unfoldable pub finish_option : RecvEnv → ℕ → SendDuty → ℕ → Option Receiving → Option Received
unfolding finish
finish_option env me d size none = none
finish_option env me d size (some s) = some (finish env me d size s)

-- The duty that is made of the message, with the time and the place of the file.
unfoldable pub duty_to_send : ℕ → FileUploadMsg → ℕ → Bytes → SendDuty
duty_to_send type m now path = record default_send {
  state = normal;
  protocol_type = type;
  site_name = m.site_name;
  dest_path_file = m.dest_path_file;
  sended_time = m.sended_time;
  local_time = now;
  local_path_file = path;
}

unfoldable pub duty_received : ℕ → FileUploadMsg → RecvingDuty
duty_received type m = record {
  state = normal;
  protocol_type = type;
  site_name = m.site_name;
  dest_path_file = m.dest_path_file;
  sended_time = m.sended_time;
}

-- `eResponseCode` behind `check`: an older duty is received and not dealt with.
unfoldable pub checked_code : Verdict → ResponseCode
checked_code older = cancel_duty
checked_code fresh = success
checked_code replaces_recving = success
checked_code replaces_sending = success

-- FileData, once the paths are known.
unfoldable pub receive_file :
    RecvEnv → ℕ → ℕ → FileUploadMsg → ℕ → Bytes → ResponseCode → QueueMng → Option Received
unfolding failing finish_option recv_data duty_to_send
receive_file env me type m size path response q =
    let c = q.config.com_cfg in
    let max = c.max_limit_of_upload_file in
    if not env.opened
    then some (failing info_fail q)
    else if not (max == 0) && leb max size
    then some (failing data_fail q)
    else finish_option env me (duty_to_send type m env.now path) size (
        recv_data size env c.protocol_type me size env.incoming (record {
          queue = q;
          response = response;
          recv_ret = 0;
          write_log_flag = 0;
          buffer = [];
          written = [];
          block_no = 0;
        }))

unfoldable pub with_paths :
    RecvEnv → ℕ → ℕ → FileUploadMsg → ℕ → ResponseCode → QueueMng → Option Received
unfolding failing receive_file
with_paths env me type m size response q = elim env.tmp_path [
  | none ↦ some (failing info_fail q)
  | some tmp ↦ elim env.real_path [
    | none ↦ some (failing info_fail q)
    | some path ↦ receive_file env me type m size path response q
  ]
]

unfoldable pub checked_in :
    RecvEnv → ℕ → ℕ → FileUploadMsg → ℕ → Verdict × QueueMng → Option Received
unfolding checked_code get_site_root_dir failing with_paths
checked_in env me type m size (v, q) =
    if length (get_site_root_dir q.config m.site_name) == 0
    then some (failing info_fail q)
    else with_paths env me type m size (checked_code v) q

-- A length that is not negative, at a site that is there.
unfoldable pub process_sized : RecvEnv → ℕ → ℕ → FileUploadMsg → ℤ → QueueMng → Option Received
unfolding failing check checked_in duty_received run
process_sized env me type m (negsuc n) q = some (failing info_fail q)
process_sized env me type m (pos size) q = elim (find m.site_name q.config.map_site) [
  | none ↦ some (failing info_fail q)
  | some site ↦
      checked_in env me type m size (check me (duty_received type m) (run env.before_check q))
]

-- ProtocolUploadFile and ProtocolPackFile with FileData, behind the head of the message; `none`
-- means that the fuel ran out.
unfoldable pub process_upload : RecvEnv → ℕ → ℕ → FileUploadMsg → QueueMng → Option Received
unfolding process_sized
process_upload env me type m q = process_sized env me type m m.data_length q

-- The response that is sent in the end.
unfoldable pub response_sent : ResponseCode → ResponseCode
response_sent cancel_duty = success
response_sent r = r
