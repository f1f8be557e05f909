-- ===== src/Setup/Common.antt =====
-- sharelib/ConfigMng.cpp: the part of `init` that reads cfg/common.cfg. `none` stands for -1; what
-- a failing call leaves in the members is not modelled.
use octopusd.Prelude.{
  ℕ, Bool, ◌||◌, [], ◌∷◌, ◌++◌, Option, none, some, ltb, leb, ◌==◌, if◌then◌else◌, length,
}
use octopusd.Prelude.Bytes.{Bytes, codes, bytes_eq}
use octopusd.Prelude.Int.{ℤ, pos, negsuc, atoi, as_int}
use octopusd.Prelude.Chain.{◌>>=◌, ◌>>◌, guard}
use octopusd.Config.{ComCfg}
use octopusd.ConfigFile.{Sections, load}
use octopusd.Text.Ip.{check_ip}
use octopusd.Setup.{
  item_text, non_empty_text, item_number, not_negative, at_most, between, positive, kilobytes,
  sections_of,
}

-- [LOGIN]
unfoldable pub read_login : Sections → ComCfg → Option ComCfg
unfolding non_empty_text item_text
read_login m c = do
  login_ip ← non_empty_text (item_text m (codes "LOGIN") (codes "LoginIpGroup"))
  some (record c {
    login_ip = login_ip;
    server_flag = item_text m (codes "LOGIN") (codes "ServerFlag");
  })

abbrev pub common : Bytes
common = codes "COMMON"

abbrev pub server : Bytes
server = codes "SERVER"

-- IfUploadZeroFile, 1 where it is missing; MaxNrOfDutyToAlarm, 5000 where it is 0; and
-- SendErrorNrOfThread, 5 where it is 0.
unfoldable pub zero_file_flag : Bytes → Option ℕ
unfolding at_most atoi as_int
zero_file_flag [] = some 1
zero_file_flag (c ∷ s) = at_most 1 (as_int (atoi (c ∷ s)))

unfoldable pub alarm_limit : ℤ → Option ℕ
alarm_limit (pos n) = if n == 0 then some 5000 else if ltb n 20 then none else some n
alarm_limit (negsuc n) = none

unfoldable pub error_threads : ℤ → Option ℕ
error_threads (pos n) = if n == 0 then some 5 else some n
error_threads (negsuc n) = none

-- [COMMON] up to ProtocolType.
unfoldable pub read_files : Sections → ComCfg → Option ComCfg
unfolding item_number item_text at_most zero_file_flag kilobytes
read_files m c = do
  log_mode ← at_most 3 (item_number m common (codes "LogMode"))
  guard (leb (length (item_text m common (codes "FileModeOption"))) 4)
  del_file ← at_most 1 (item_number m common (codes "DelFileAfterUpload"))
  zero_file ← zero_file_flag (item_text m common (codes "IfUploadZeroFile"))
  max_limit ← kilobytes (item_number m common (codes "MaxLimitOfUploadFile"))
  some (record c {
    log_mode = log_mode;
    file_mode_option = item_text m common (codes "FileModeOption");
    del_file_after_upload = del_file;
    if_upload_zero_file = zero_file;
    max_limit_of_upload_file = max_limit;
  })

-- [COMMON] from ProtocolType to DistributeFlag.
unfoldable pub read_queue : Sections → ComCfg → Option ComCfg
unfolding item_number at_most not_negative alarm_limit
read_queue m c = do
  protocol_type ← not_negative (item_number m common (codes "ProtocolType"))
  max_nr_of_retry ← not_negative (item_number m common (codes "MaxNrOfRetry"))
  if_fail_log_flag ← at_most 1 (item_number m common (codes "IfFailLogFlag"))
  max_nr_of_queue_duty ← not_negative (item_number m common (codes "MaxNrOfQueueDuty"))
  max_nr_of_last_suc ← not_negative (item_number m common (codes "MaxNrOfSaveLastSucDuty"))
  time_of_retry ← not_negative (item_number m common (codes "TimeOfFailDutyRetry"))
  time_of_check ← not_negative (item_number m common (codes "TimeOfCheckRunStatus"))
  max_nr_to_alarm ← alarm_limit (item_number m common (codes "MaxNrOfDutyToAlarm"))
  time_of_stat ← not_negative (item_number m common (codes "TimeOfThreadStat"))
  distribute_flag ← at_most 2 (item_number m common (codes "DistributeFlag"))
  some (record c {
    protocol_type = protocol_type;
    max_nr_of_retry = max_nr_of_retry;
    if_fail_log_flag = if_fail_log_flag;
    max_nr_of_queue_duty = max_nr_of_queue_duty;
    max_nr_of_save_last_suc_duty = max_nr_of_last_suc;
    time_of_fail_duty_retry = time_of_retry;
    time_of_check_run_status = time_of_check;
    max_nr_of_duty_to_alarm = max_nr_to_alarm;
    time_of_thread_stat = time_of_stat;
    distribute_flag = distribute_flag;
  })

-- The data base, where the sites come from it.
unfoldable pub read_db : Sections → ComCfg → Option ComCfg
unfolding item_text non_empty_text check_ip
read_db m c =
    if c.distribute_flag == 1
    then (do
      db_host ← non_empty_text (item_text m common (codes "DBHost"))
      guard (check_ip db_host)
      db_user ← non_empty_text (item_text m common (codes "DBUser"))
      some (record c {
        db_host = db_host;
        db_user = db_user;
        db_password = item_text m common (codes "DBPassword");
      }))
    else some c

unfoldable pub is_all : Bytes → Bool
is_all s = bytes_eq (codes "all") s || bytes_eq (codes "ALL") s

-- [SERVER]: the address. One that is not `all` goes behind the addresses that may log in.
unfoldable pub read_address : Sections → ComCfg → Option ComCfg
unfolding item_text non_empty_text is_all check_ip
read_address m c = do
  ip ← non_empty_text (item_text m server (codes "ServerIP"))
  guard (is_all ip || check_ip ip)
  some (record c { login_ip = if is_all ip then c.login_ip else c.login_ip ++ ip; server_ip = ip })

-- [SERVER]: the numbers.
unfoldable pub read_threads : Sections → ComCfg → Option ComCfg
unfolding item_number between positive not_negative error_threads
read_threads m c = do
  server_port ← between 1000 65535 (item_number m server (codes "ServerPort"))
  recv_nr_of_thread ← positive (item_number m server (codes "RecvNrOfThread"))
  send_nr_of_thread ← positive (item_number m server (codes "SendNrOfThread"))
  send_error_nr ← error_threads (item_number m server (codes "SendErrorNrOfThread"))
  max_nr_of_cnt ← not_negative (item_number m server (codes "MaxNrOfCnt"))
  recv_msg_timeout ← not_negative (item_number m server (codes "RecvMsgTimeout"))
  recv_file_timeout ← not_negative (item_number m server (codes "RecvFileTimeout"))
  send_flow_ctrl ← not_negative (item_number m server (codes "SendFlowCtrl"))
  some (record c {
    server_port = server_port;
    recv_nr_of_thread = recv_nr_of_thread;
    send_nr_of_thread = send_nr_of_thread;
    send_error_nr_of_thread = send_error_nr;
    max_nr_of_cnt = max_nr_of_cnt;
    recv_msg_timeout = recv_msg_timeout;
    recv_file_timeout = recv_file_timeout;
    send_flow_ctrl = send_flow_ctrl;
  })

-- The whole part, from the text of the file.
unfoldable pub read_common : Option Bytes → ComCfg → Option ComCfg
unfolding sections_of load read_login read_files read_queue read_db read_address read_threads
read_common file c = do
  m ← sections_of (load file)
  c1 ← read_login m c
  c2 ← read_files m c1
  c3 ← read_queue m c2
  c4 ← read_db m c3
  c5 ← read_address m c4
  read_threads m c5
