-- ===== src/Examples/Data.antt =====
-- sharelib/QueueMng.cpp: a small configuration, some duties and states of the queues.
use octopusd.Prelude.{ℕ, true, [], ◌∷◌, none}
use octopusd.Prelude.Bytes.{codes}
use octopusd.Prelude.Int.{pos}
use octopusd.Config.{ComCfg, ServerInfo, SiteInfo, ConfigMng}
use octopusd.Queue.{QueueMng, RecvingDuty, SendDuty, normal}
use octopusd.Queue.FailLog.{FailIo}

abbrev pub server_a : ServerInfo
server_a = record { name = codes "a"; ip = codes "10.0.0.1"; port = pos 9000 }

abbrev pub server_b : ServerInfo
server_b = record { name = codes "b"; ip = codes "10.0.0.2"; port = pos 9000 }

abbrev pub news_site : SiteInfo
news_site = record {
  name = codes "news";
  server_list = server_a ∷ server_b ∷ [];
  root_dir = codes "/r";
}

abbrev pub common_cfg : ComCfg
common_cfg = record {
  login_ip = codes "10.0.0.12";
  server_flag = [];
  log_mode = 0;
  file_mode_option = [];
  del_file_after_upload = 1;
  if_upload_zero_file = 1;
  max_limit_of_upload_file = 0;
  protocol_type = 1;
  max_nr_of_retry = 3;
  if_fail_log_flag = 1;
  max_nr_of_queue_duty = 3;
  max_nr_of_save_last_suc_duty = 0;
  time_of_thread_stat = 0;
  time_of_fail_duty_retry = 0;
  time_of_check_run_status = 0;
  max_nr_of_duty_to_alarm = 5000;
  distribute_flag = 2;
  db_host = [];
  db_user = [];
  db_password = [];
  server_ip = codes "all";
  server_port = 9000;
  recv_nr_of_thread = 5;
  send_nr_of_thread = 5;
  send_error_nr_of_thread = 5;
  max_nr_of_cnt = 100;
  recv_msg_timeout = 10;
  recv_file_timeout = 30;
  send_flow_ctrl = 0;
}

abbrev pub config : ConfigMng
config = record { com_cfg = common_cfg; map_site = (codes "news", news_site) ∷ [] }

abbrev pub idle : QueueMng
idle = record {
  config = config;
  recving_q = [];
  send_q = [];
  error_ip_port = [];
  send_error_q = [];
  sending_q = [];
  file_seq = 9999;
  record_seq = 10000;
  disk = record { records = []; seq_file = none; tries = 0 };
  total_size_of_recv_file = 0;
  nr_of_recv_upload_file = 0;
  nr_of_send_upload_file = 0;
  nr_of_recv_del_file = 0;
  nr_of_send_del_file = 0;
  nr_of_recv_mv_file = 0;
  nr_of_send_mv_file = 0;
  nr_of_recv_cp_file = 0;
  nr_of_send_cp_file = 0;
  recv_work_time = [];
  send_work_time = [];
}

-- A file is received at noon, and again an hour later.
abbrev pub noon : RecvingDuty
noon = record {
  state = normal;
  protocol_type = 1;
  site_name = codes "news";
  dest_path_file = codes "/a.html";
  sended_time = codes "12";
}

abbrev pub later : RecvingDuty
later = record noon { sended_time = codes "13" }

abbrev pub sends_a : SendDuty
sends_a = record {
  state = normal;
  protocol_type = 1;
  site_name = codes "news";
  dest_path_file = codes "/a.html";
  sended_time = codes "12";
  local_path_file = codes "/tmp/a";
  local_time = 0;
  server_ip = codes "10.0.0.1";
  server_port = pos 9000;
  nr_of_fail = 0;
}

abbrev pub sends_b : SendDuty
sends_b = record sends_a { server_ip = codes "10.0.0.2" }

abbrev pub all_well : ℕ → FailIo
all_well n = record { open_record = true; write_record = true; open_seq = true }

-- The first server has failed three times, one of its duties waits and the normal queue is full.
abbrev pub busy : QueueMng
busy = record idle {
  send_q = sends_b ∷ sends_b ∷ sends_b ∷ [];
  send_error_q = sends_a ∷ sends_b ∷ [];
  error_ip_port = (codes "10.0.0.1_9000", 3) ∷ [];
}

-- A thread receives a file, and another one sends it.
abbrev pub receiving : QueueMng
receiving = record idle { recving_q = (7, noon) ∷ []; sending_q = (8, sends_a) ∷ [] }
