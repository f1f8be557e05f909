-- ===== src/Turn.antt =====
-- sharelib/ProtocolMng.cpp: `processRecv` as a whole, a turn of a receive thread from the head of
-- the message to the response, and `checkServerStatus`, the other side of its message for the state
-- of a server. What the socket gives is an argument, with those of the parts.
use octopusd.Prelude.{
  ℕ, zero, suc, ◌/◌, ◌*◌, List, Bool, true, false, ◌&&◌, ◌||◌, Option, none, some, leb, ◌==◌,
  if◌then◌else◌,
}
use octopusd.Prelude.Bytes.{Bytes}
use octopusd.Prelude.Int.{ℤ, pos, negsuc}
use octopusd.Prelude.Map.{find, bytes_key}
use octopusd.Config.{ConfigMng}
use octopusd.Queue.{
  QueueMng, protocol_upload_file, protocol_del_file, protocol_mv_file, protocol_cp_file,
  protocol_pack_file,
}
use octopusd.Queue.Check.{Verdict, check}
use octopusd.Queue.Run.{Call, run}
use octopusd.Sender.{ResponseCode, check_ok, success, head_fail, info_fail, msg_error, cancel_duty}
use octopusd.Receiver.{Arrival, arrived, peer_gone, not_arrived, RecvEnv, FileUploadMsg}
use octopusd.Receiver.Upload.{
  Received, failing, checked_code, duty_received, process_upload, response_sent,
}
use octopusd.Receiver.Orders.{OrderEnv, OrderMsg, del, mv, cp, FileAction, Ordered, receive_order}
use octopusd.Receiver.Named.{NameEnv, receive_name}
use octopusd.Server.{add_server, del_server}
use octopusd.Wire.{Recv, refused, overrun, received, version2, recv_version2_msg}
use octopusd.Manager.{Manager, HandlerEnv, with_config}
use octopusd.Manager.Handle.{Handled, out_of_range, process_version2}
use octopusd.Head.{
  UploadHead, file_name, file_data, read_upload, read_del, read_mv_cp, read_server_msg,
}
pub mod Answers
pub mod Ping

-- `Version1`, and the types of the messages that are for no duty.
abbrev pub version1 : ℕ
version1 = 1

abbrev pub protocol_add_server : ℕ
protocol_add_server = 3

abbrev pub protocol_del_server : ℕ
protocol_del_server = 4

abbrev pub protocol_check_status : ℕ
protocol_check_status = 7

-- Whether the head of the message comes, its two bytes, whether the struct behind it comes, its
-- bytes, and what the handlers meet. `receive` is the socket behind the head, by what was read.
pub record TurnEnv : Type 0 where
  pub head : Arrival
  pub version : ℕ
  pub type : ℕ
  pub info : Arrival
  pub info_bytes : Bytes
  pub recv : RecvEnv
  pub name : NameEnv
  pub order : OrderEnv
  pub manager : HandlerEnv
  pub receive : ℕ → ℕ → Option (Bytes × ℕ)

-- How a turn ends: without an answer, with a message of the second version, or with a response,
-- and then with what was put at a file's place and what was done to other files. `unending` is for
-- fuel that runs out.
pub data TurnEnd : Type 0 where
  unending : TurnEnd
  no_answer : Manager → TurnEnd
  managed : Handled → TurnEnd
  answers : Manager → ResponseCode → Option Bytes → Option FileAction → TurnEnd

unfoldable pub with_queue : Manager → QueueMng → Manager
with_queue m q = record m { daemon = record m.daemon { queue = q } }

-- The last steps: the response for a given-up duty is a success.
unfoldable pub responds : Manager → ResponseCode → TurnEnd
unfolding response_sent
responds m r = answers m (response_sent r) none none

unfoldable pub informed : Arrival → Manager → TurnEnd → TurnEnd
unfolding responds
informed arrived m handled = handled
informed peer_gone m handled = responds m cancel_duty
informed not_arrived m handled = responds m head_fail

unfoldable pub end_received : Manager → Option Received → TurnEnd
unfolding with_queue response_sent
end_received m none = unending
end_received m (some r) = answers (with_queue m r.queue) (response_sent r.response) r.installed none

unfoldable pub end_ordered : Manager → Ordered → TurnEnd
unfolding with_queue response_sent
end_ordered m o = answers (with_queue m o.queue) (response_sent o.response) none o.action

-- A file that comes neither by its name nor as its data is checked in, and nothing else.
unfoldable pub other_checked : Verdict × QueueMng → Received
unfolding failing checked_code
other_checked (v, q) = failing (checked_code v) q

unfoldable pub receive_other : List Call → ℕ → ℕ → FileUploadMsg → ℤ → QueueMng → Received
unfolding failing other_checked check run duty_received
receive_other before me type m (negsuc n) q = failing info_fail q
receive_other before me type m (pos size) q = elim (find m.site_name q.config.map_site) [
  | none ↦ failing info_fail q
  | some site ↦ other_checked (check me (duty_received type m) (run before q))
]

unfoldable pub upload_turn : TurnEnv → ℕ → UploadHead → Manager → TurnEnd
unfolding end_received receive_name process_upload receive_other
upload_turn env me h m =
    let q = m.daemon.queue in
    let length = h.msg.data_length in
    if h.data_type == file_name
    then end_received m (some (receive_name env.name me env.type h.msg length q))
    else if h.data_type == file_data
    then end_received m (process_upload env.recv me env.type h.msg q)
    else end_received m (some (receive_other env.recv.before_check me env.type h.msg length q))

unfoldable pub order_turn : TurnEnv → ℕ → OrderMsg → Manager → TurnEnd
unfolding end_ordered receive_order
order_turn env me order m = end_ordered m (receive_order env.order me order m.daemon.queue)

-- A server is added or deleted.
unfoldable pub server_turn : (ConfigMng → ConfigMng) → Manager → TurnEnd
unfolding responds with_config
server_turn change m = responds (with_config m (change m.daemon.queue.config)) success

-- The switch over the type of a message of the first version.
unfoldable pub by_type : TurnEnv → ℕ → Manager → TurnEnd
unfolding informed upload_turn order_turn server_turn responds read_upload read_del read_mv_cp
    read_server_msg add_server del_server
by_type env me m =
    let bytes = env.info_bytes in
    if env.type == protocol_upload_file || env.type == protocol_pack_file
    then informed env.info m (upload_turn env me (read_upload bytes) m)
    else if env.type == protocol_del_file
    then informed env.info m (order_turn env me (del (read_del bytes)) m)
    else if env.type == protocol_mv_file
    then informed env.info m (order_turn env me (mv (read_mv_cp bytes)) m)
    else if env.type == protocol_cp_file
    then informed env.info m (order_turn env me (cp (read_mv_cp bytes)) m)
    else if env.type == protocol_add_server
    then informed env.info m (server_turn (add_server (read_server_msg bytes)) m)
    else if env.type == protocol_del_server
    then informed env.info m (server_turn (del_server (read_server_msg bytes)) m)
    else if env.type == protocol_check_status
    then responds m check_ok
    else responds m msg_error

-- A message of the second version, behind `recvVersion2Msg`.
unfoldable pub version2_turn : TurnEnv → Manager → Option Recv → TurnEnd
unfolding process_version2
version2_turn env m none = unending
version2_turn env m (some refused) = no_answer m
version2_turn env m (some overrun) = managed out_of_range
version2_turn env m (some (received parts)) =
    managed (process_version2 env.manager env.type parts m)

unfoldable pub by_version : TurnEnv → ℕ → Manager → TurnEnd
unfolding by_type version2_turn recv_version2_msg
by_version env me m =
    if env.version == version2
    then version2_turn env m (recv_version2_msg env.receive 0).0
    else if env.version == version1
    then by_type env me m
    else no_answer m

unfoldable pub by_head : TurnEnv → ℕ → Manager → Arrival → TurnEnd
unfolding by_version responds
by_head env me m arrived = by_version env me m
by_head env me m peer_gone = responds m cancel_duty
by_head env me m not_arrived = responds m head_fail

-- CProtocolMng::processRecv, by the calling thread.
unfoldable pub process_recv : TurnEnv → ℕ → Manager → TurnEnd
unfolding by_head
process_recv env me m = by_head env me m env.head

-- What a server does when it is asked for its state, by the seconds that are waited: the byte that
-- it answers.
pub record PingEnv : Type 0 where
  pub connected : Bool
  pub asked : ℕ → Bool
  pub reply : ℕ → Option ℕ

unfoldable pub at_least_two : ℕ → ℕ
at_least_two zero = 2
at_least_two (suc n) = suc n

-- The time, by `iTimeOut` and `m_iRecvMsgTimeout`.
unfoldable pub ping_timeout : ℤ → ℕ → ℕ
unfolding at_least_two
ping_timeout (pos zero) msg_timeout = 2 * msg_timeout
ping_timeout (negsuc n) msg_timeout = 2 * msg_timeout
ping_timeout (pos (suc n)) msg_timeout = at_least_two (msg_timeout / suc n)

unfoldable pub is_alive : Option ℕ → Bool
is_alive none = false
is_alive (some code) = code == 1 || code == 0

-- CProtocolMng::checkServerStatus; true stands for 0.
unfoldable pub check_server_status : (Bytes → ℤ → PingEnv) → ConfigMng → ℤ → Bytes → ℤ → Bool
unfolding ping_timeout is_alive
check_server_status servers c time_out ip port =
    let server = servers ip port in
    let seconds = ping_timeout time_out c.com_cfg.recv_msg_timeout in
    server.connected && (server.asked seconds && is_alive (server.reply seconds))
