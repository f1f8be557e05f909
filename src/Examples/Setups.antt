-- ===== src/Examples/Setups.antt =====
-- sharelib/Config.cpp and ConfigMng.cpp: small files.
use octopusd.Prelude.{◌≡◌, refl, List, [], ◌∷◌, Option, some, arith}
use octopusd.Prelude.Bytes.{Bytes, codes, bytes_eq, bytes_lt}
use octopusd.Prelude.Chain.{◌>>=◌, guard}
use octopusd.Prelude.Map.{find, insert, get_or, bytes_key}
use octopusd.Config.{ComCfg}
use octopusd.ConfigFile.{Sections, loaded, load, value_or, read_item}
use octopusd.ConfigFile.RoundTrip.{
  Entry, section_entry, item_entry, print_entries, last_item, read_item-load,
}
use octopusd.Setup.Common.{read_common}
use octopusd.Setup.Ranges.{InRange, read_common-InRange}
use octopusd.Text.Trim.{is_blank, head_blank, last_blank}
use octopusd.Examples.Data.{common_cfg}

abbrev small_file : List Entry
small_file =
    section_entry (codes "SERVER")
    ∷ item_entry (codes "ServerPort") (codes "9000")
    ∷ item_entry (codes "ServerPort") (codes "9001")
    ∷ []

read_item-load_example :
    (m : Sections) × (load (some (print_entries small_file)) ≡ loaded m)
    × (read_item (codes "SERVER") (codes "ServerPort") [] m
        ≡ value_or [] (last_item (codes "SERVER") (codes "ServerPort") [] small_file))
unfolding is_blank head_blank last_blank
read_item-load_example =
    read_item-load small_file (codes "SERVER") (codes "ServerPort") [] (ground arith)

-- The least that a daemon needs.
abbrev common_file : Option Bytes
common_file = some (
    print_entries (
      section_entry (codes "LOGIN")
      ∷ item_entry (codes "LoginIpGroup") (codes "10.0.0.12")
      ∷ section_entry (codes "COMMON")
      ∷ item_entry (codes "DistributeFlag") (codes "2")
      ∷ section_entry (codes "SERVER")
      ∷ item_entry (codes "ServerIP") (codes "all")
      ∷ item_entry (codes "ServerPort") (codes "9000")
      ∷ item_entry (codes "RecvNrOfThread") (codes "5")
      ∷ item_entry (codes "SendNrOfThread") (codes "6")
      ∷ []))

abbrev least_cfg : ComCfg
least_cfg = record {
  login_ip = codes "10.0.0.12";
  server_flag = [];
  log_mode = 0;
  file_mode_option = [];
  del_file_after_upload = 0;
  if_upload_zero_file = 1;
  max_limit_of_upload_file = 0;
  protocol_type = 0;
  max_nr_of_retry = 0;
  if_fail_log_flag = 0;
  max_nr_of_queue_duty = 0;
  max_nr_of_save_last_suc_duty = 0;
  time_of_thread_stat = 0;
  time_of_fail_duty_retry = 0;
  time_of_check_run_status = 0;
  max_nr_of_duty_to_alarm = 5000;
  distribute_flag = 2;
  db_host = [];
  db_user = [];
  db_password = [];
  server_ip = codes "all";
  server_port = 9000;
  recv_nr_of_thread = 5;
  send_nr_of_thread = 6;
  send_error_nr_of_thread = 5;
  max_nr_of_cnt = 0;
  recv_msg_timeout = 0;
  recv_file_timeout = 0;
  send_flow_ctrl = 0;
}

read_common-InRange_example : InRange least_cfg
unfolding read_common print_entries ◌>>=◌ find insert bytes_eq bytes_lt get_or guard
read_common-InRange_example = read_common-InRange common_file common_cfg least_cfg refl
