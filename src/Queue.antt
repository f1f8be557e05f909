-- ===== src/Queue.antt =====
-- sharelib/QueueMng.cpp: the state of the class and its initialisation. The methods are in the
-- modules below.
use octopusd.Prelude.{ℕ, List, [], Option}
use octopusd.Prelude.Bytes.{Bytes, codes}
use octopusd.Prelude.Int.{ℤ, pos, int_str}
use octopusd.Prelude.Map.{Map}
use octopusd.Prelude.{◌++◌, ◌∷◌}
use octopusd.Config.{ConfigMng}
pub mod Check
pub mod FailLog
pub mod Put
pub mod Take
pub mod Upkeep
pub mod Run
pub mod Reload

-- CRecvingDuty::RevingState and CSendDuty::SendState, which have the same members.
pub data DutyState : Type 0 where
  error normal giveup over : DutyState

-- CProtocolMng::ProtocolType, the members that duties carry.
abbrev pub protocol_upload_file : ℕ
protocol_upload_file = 0x01

abbrev pub protocol_del_file : ℕ
protocol_del_file = 0x02

abbrev pub protocol_mv_file : ℕ
protocol_mv_file = 0x15

abbrev pub protocol_cp_file : ℕ
protocol_cp_file = 0x16

abbrev pub protocol_pack_file : ℕ
protocol_pack_file = 0x17

-- CRecvingDuty.
pub record RecvingDuty : Type 0 where
  pub state : DutyState
  pub protocol_type : ℕ
  pub site_name : Bytes
  pub dest_path_file : Bytes
  pub sended_time : Bytes

-- CSendDuty.
pub record SendDuty : Type 0 where
  pub state : DutyState
  pub protocol_type : ℕ
  pub site_name : Bytes
  pub dest_path_file : Bytes
  pub sended_time : Bytes
  pub local_path_file : Bytes
  pub local_time : ℕ
  pub server_ip : Bytes
  pub server_port : ℤ
  pub nr_of_fail : ℕ

-- The constructors CRecvingDuty::CRecvingDuty() and CSendDuty::CSendDuty().
abbrev pub default_recving : RecvingDuty
default_recving = record {
  state = over;
  protocol_type = 0;
  site_name = [];
  dest_path_file = [];
  sended_time = [];
}

abbrev pub default_send : SendDuty
default_send = record {
  state = over;
  protocol_type = 0;
  site_name = [];
  dest_path_file = [];
  sended_time = [];
  local_path_file = [];
  local_time = 0;
  server_ip = [];
  server_port = pos 0;
  nr_of_fail = 0;
}

-- The directory dat/: the records that were appended to the files failduty.<number>, oldest
-- first, each with the number of its file; the lines of failduty.seq, if it is there; and how
-- often a record has been written or tried.
pub record Disk : Type 0 where
  pub records : List (ℕ × SendDuty)
  pub seq_file : Option (List Bytes)
  pub tries : ℕ

-- The members of CQueueMng that change, with the configuration and the directory that its
-- methods reach. The queue of the last successful duties is compiled out, so it stays empty.
pub record QueueMng : Type 0 where
  pub config : ConfigMng
  pub recving_q : Map ℕ RecvingDuty
  pub send_q : List SendDuty
  pub error_ip_port : Map Bytes ℕ
  pub send_error_q : List SendDuty
  pub sending_q : Map ℕ SendDuty
  pub file_seq : ℕ
  pub record_seq : ℕ
  pub disk : Disk
  pub total_size_of_recv_file : ℕ
  pub nr_of_recv_upload_file : ℕ
  pub nr_of_send_upload_file : ℕ
  pub nr_of_recv_del_file : ℕ
  pub nr_of_send_del_file : ℕ
  pub nr_of_recv_mv_file : ℕ
  pub nr_of_send_mv_file : ℕ
  pub nr_of_recv_cp_file : ℕ
  pub nr_of_send_cp_file : ℕ
  pub recv_work_time : Map ℕ ℕ
  pub send_work_time : Map ℕ ℕ

-- MaxTimesToErrorIPList.
abbrev pub max_times_to_error_ip_list : ℕ
max_times_to_error_ip_list = 3

-- The key of `m_mapErrorIPPort`: the address, `_` and the port in decimal.
unfoldable pub ip_port : Bytes → ℤ → Bytes
unfolding int_str
ip_port ip port = ip ++ b'_' ∷ int_str port
