-- ===== src/Receiver/Named.antt =====
-- sharelib/ProtocolMng.cpp: the part of `processRecv` that takes a file in by its name on the same
-- machine, behind the head of the message. What the socket and the file system answer is an
-- argument, with the calls of the other threads and the time.
use octopusd.Prelude.{
  ℕ, Bool, true, false, not, ◌&&◌, ◌||◌, List, [], ◌∷◌, Option, none, some, leb, ◌==◌,
  if◌then◌else◌,
}
use octopusd.Prelude.Bytes.{Bytes}
use octopusd.Prelude.Int.{ℤ, pos, negsuc}
use octopusd.Prelude.Map.{find, bytes_key}
use octopusd.Queue.{QueueMng, SendDuty, protocol_pack_file}
use octopusd.Queue.Check.{Verdict, check}
use octopusd.Queue.FailLog.{FailIo}
use octopusd.Queue.Put.{put_duty2send_q, add_server_info}
use octopusd.Queue.Run.{Call, run}
use octopusd.Sender.{
  ResponseCode, success, info_fail, data_fail, msg_error, service_pause, cancel_duty,
}
use octopusd.Text.FilePath.{Stat, FileType, file_targz, file_zip, get_file_type}
use octopusd.Text.Trim.{trim_string}
use octopusd.Wire.{c_string}
use octopusd.Receiver.{Arrival, arrived, peer_gone, not_arrived, FileUploadMsg}
use octopusd.Receiver.Upload.{Received, failing, duty_to_send, duty_received, checked_code}
use octopusd.Receiver.Orders.{is_cancelled}
pub mod Calls

-- Whether the response for the message is sent, whether the name comes, the name, whether a path
-- is a directory, what stat answers, and the size of the file.
pub record NameEnv : Type 0 where
  pub before_check : List Call
  pub answered : Bool
  pub arrival : Arrival
  pub name : Bytes
  pub is_directory : Bytes → Bool
  pub stat : Bytes → Stat
  pub file_size : Bytes → ℕ
  pub now : ℕ
  pub before_put : List Call
  pub io : ℕ → FailIo

-- LenOfPathFileName.
abbrev pub len_of_path_file_name : ℕ
len_of_path_file_name = 256

unfoldable pub is_archive : FileType → Bool
is_archive t = elim t [ file_targz ↦ true | file_zip ↦ true | _ ↦ false ]

-- The file is neither too large, nor something else than the archive that it is sent as.
unfoldable pub is_fit : NameEnv → ℕ → Bytes → QueueMng → Bool
unfolding is_archive get_file_type
is_fit env type path q =
    let max = q.config.com_cfg.max_limit_of_upload_file in
    (max == 0 || not (leb max (env.file_size path)))
    && (not (type == protocol_pack_file) || is_archive (get_file_type env.stat path))

-- The file at the path is passed on, and a directory is not.
unfoldable pub pass_name : NameEnv → ℕ → ℕ → FileUploadMsg → Bytes → Verdict → QueueMng → Received
unfolding failing put_duty2send_q run is_fit duty_to_send checked_code
pass_name env me type m path v q =
    let put =
      put_duty2send_q env.io me (duty_to_send type m env.now path) add_server_info 0
        (run env.before_put q) in
    if env.is_directory path
    then failing (checked_code v) q
    else if not (is_fit env type path q)
    then failing data_fail q
    else failing (if put.0 then checked_code v else service_pause) put.1

-- `sMsgBuff`, trimmed at both ends.
unfoldable pub path_of : NameEnv → Bytes
unfolding c_string trim_string
path_of env = trim_string (c_string env.name) 0

unfoldable pub name_arrived :
    NameEnv → ℕ → ℕ → FileUploadMsg → Verdict → QueueMng → Arrival → Received
unfolding failing pass_name is_cancelled path_of
name_arrived env me type m v q arrived =
    if is_cancelled v then failing cancel_duty q else pass_name env me type m (path_of env) v q
name_arrived env me type m v q peer_gone = failing cancel_duty q
name_arrived env me type m v q not_arrived = failing data_fail q

unfoldable pub name_checked : NameEnv → ℕ → ℕ → FileUploadMsg → ℕ → Verdict × QueueMng → Received
unfolding failing name_arrived
name_checked env me type m size (v, q) =
    if leb len_of_path_file_name size
    then failing msg_error q
    else if q.config.com_cfg.protocol_type == 1 && not env.answered
    then failing service_pause q
    else name_arrived env me type m v q env.arrival

-- ProtocolUploadFile and ProtocolPackFile with FileName.
unfoldable pub receive_name : NameEnv → ℕ → ℕ → FileUploadMsg → ℤ → QueueMng → Received
unfolding failing name_checked check run duty_received
receive_name env me type m (negsuc n) q = failing info_fail q
receive_name env me type m (pos size) q = elim (find m.site_name q.config.map_site) [
  | none ↦ failing info_fail q
  | some site ↦
      name_checked env me type m size (check me (duty_received type m) (run env.before_check q))
]
