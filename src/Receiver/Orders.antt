-- ===== src/Receiver/Orders.antt =====
-- sharelib/ProtocolMng.cpp: the parts of `processRecv` that take in a deletion, a move or a copy,
-- behind the message. What `analysePathFile` makes of the paths is an argument, with the calls of
-- the other threads and the time; the outcome of the work on the file is only logged.
use octopusd.Prelude.{
  ℕ, Bool, true, false, not, ◌||◌, List, [], ◌∷◌, Option, none, some, ◌==◌, if◌then◌else◌, length,
}
use octopusd.Prelude.Bytes.{Bytes}
use octopusd.Prelude.Map.{find, bytes_key}
use octopusd.Config.{ConfigMng, get_site_root_dir}
use octopusd.Queue.{
  QueueMng, RecvingDuty, SendDuty, normal, default_send, protocol_del_file, protocol_mv_file,
  protocol_cp_file,
}
use octopusd.Queue.Check.{Verdict, check, judge_normal, recving_queue}
use octopusd.Queue.FailLog.{FailIo}
use octopusd.Queue.Put.{put_duty2send_q, add_server_info}
use octopusd.Queue.Run.{Call, run}
use octopusd.Sender.{ResponseCode, info_fail, service_pause, cancel_duty}
use octopusd.Receiver.Upload.{checked_code}
use octopusd.Text.Flag.{divideup_str}

pub record OrderEnv : Type 0 where
  pub before_check : List Call
  pub path : Option Bytes
  pub source_path : Option Bytes
  pub before_judge : List Call
  pub now : ℕ
  pub before_put : List Call
  pub io : ℕ → FailIo

-- CFileDelMsg, and CFileMvCpMsg, which names the source as a site and a path as well.
pub record FileDelMsg : Type 0 where
  pub site_name : Bytes
  pub dest_path_file : Bytes
  pub sended_time : Bytes

pub record FileMvCpMsg : Type 0 where
  pub site_name : Bytes
  pub dest_path_file : Bytes
  pub sended_time : Bytes
  pub src_path_file : Bytes

-- The messages, by the cases of the type in the head.
pub data OrderMsg : Type 0 where
  del : FileDelMsg → OrderMsg
  mv cp : FileMvCpMsg → OrderMsg

-- What is called on the file system.
pub data FileAction : Type 0 where
  del_file : Bytes → FileAction
  mv_file cp_file : Bytes → Bytes → FileAction

pub record Ordered : Type 0 where
  pub queue : QueueMng
  pub response : ResponseCode
  pub action : Option FileAction

unfoldable pub refuse : QueueMng → Ordered
refuse q = record { queue = q; response = info_fail; action = none }

unfoldable pub is_cancelled : Verdict → Bool
unfolding checked_code
is_cancelled v = elim (checked_code v) [ cancel_duty ↦ true | _ ↦ false ]

-- Behind the paths: the duty is looked at, the work is done, and the duty is put for each server.
unfoldable pub carry_out : OrderEnv → ℕ → Verdict → SendDuty → FileAction → QueueMng → Ordered
unfolding judge_normal put_duty2send_q run is_cancelled checked_code
carry_out env me v d action q =
    let judged = judge_normal me recving_queue (run env.before_judge q) in
    let put = put_duty2send_q env.io me d add_server_info 0 (run env.before_put judged.1) in
    if not judged.0 || is_cancelled v
    then record { queue = judged.1; response = cancel_duty; action = none }
    else record {
      queue = put.1;
      response = if put.0 then checked_code v else service_pause;
      action = some action;
    }

unfoldable pub order_received : ℕ → Bytes → Bytes → Bytes → RecvingDuty
order_received type site dest time = record {
  state = normal;
  protocol_type = type;
  site_name = site;
  dest_path_file = dest;
  sended_time = time;
}

unfoldable pub order_to_send : RecvingDuty → ℕ → Bytes → SendDuty
order_to_send r now path = record default_send {
  state = normal;
  protocol_type = r.protocol_type;
  site_name = r.site_name;
  dest_path_file = r.dest_path_file;
  sended_time = r.sended_time;
  local_time = now;
  local_path_file = path;
}

unfoldable pub del_checked : OrderEnv → ℕ → RecvingDuty → Verdict × QueueMng → Ordered
unfolding refuse carry_out order_to_send
del_checked env me r (v, q) = elim env.path [
  | none ↦ refuse q
  | some p ↦ carry_out env me v (order_to_send r env.now p) (del_file p) q
]

-- The source: two parts, a site that has a directory and a path below it.
unfoldable pub source_there : OrderEnv → ConfigMng → Option (List Bytes) → Option Bytes
unfolding get_site_root_dir
source_there env c (some (site ∷ path ∷ [])) =
    if length (get_site_root_dir c site) == 0 then none else env.source_path
source_there env c (some parts) = none
source_there env c none = none

unfoldable pub moved_from :
    OrderEnv
    → ℕ
    → RecvingDuty
    → (Bytes → Bytes → FileAction)
    → Bytes
    → Bytes
    → Verdict
    → QueueMng
    → Option Bytes
    → Ordered
unfolding refuse carry_out order_to_send
moved_from env me r act src dest v q none = refuse q
moved_from env me r act src dest v q (some from) =
    carry_out env me v (order_to_send r env.now src) (act from dest) q

unfoldable pub mv_cp_checked :
    OrderEnv → ℕ → RecvingDuty → (Bytes → Bytes → FileAction) → Bytes → Verdict × QueueMng → Ordered
unfolding refuse source_there moved_from divideup_str
mv_cp_checked env me r act src (v, q) = elim env.path [
  | none ↦ refuse q
  | some dest ↦
      moved_from env me r act src dest v q (source_there env q.config (divideup_str src b':'))
]

-- The duty that a message is received as.
unfoldable pub duty_of : OrderMsg → RecvingDuty
unfolding order_received
duty_of (del m) = order_received protocol_del_file m.site_name m.dest_path_file m.sended_time
duty_of (mv m) = order_received protocol_mv_file m.site_name m.dest_path_file m.sended_time
duty_of (cp m) = order_received protocol_cp_file m.site_name m.dest_path_file m.sended_time

unfoldable pub order_checked : OrderEnv → ℕ → OrderMsg → Verdict × QueueMng → Ordered
unfolding del_checked mv_cp_checked duty_of
order_checked env me (del m) r = del_checked env me (duty_of (del m)) r
order_checked env me (mv m) r = mv_cp_checked env me (duty_of (mv m)) mv_file m.src_path_file r
order_checked env me (cp m) r = mv_cp_checked env me (duty_of (cp m)) cp_file m.src_path_file r

unfoldable pub receive_order : OrderEnv → ℕ → OrderMsg → QueueMng → Ordered
unfolding refuse order_checked check run duty_of
receive_order env me m q = elim (find (duty_of m).site_name q.config.map_site) [
  | none ↦ refuse q
  | some site ↦ order_checked env me m (check me (duty_of m) (run env.before_check q))
]
