-- ===== src/Maintain.antt =====
-- sharelib/Maintain.cpp: the flags in the shared memory, the commands that they give, and what the
-- routine does for servers that failed. Printing, closing descriptors and the reader of the log
-- modules change nothing that is modelled.
use octopusd.Prelude.{
  ℕ, zero, suc, Bool, true, false, ◌&&◌, ◌||◌, List, [], ◌∷◌, ◌++◌, Option, none, some, ◌==◌,
  if◌then◌else◌,
}
use octopusd.Prelude.Bytes.{Bytes}
use octopusd.Prelude.Int.{ℤ, pos, int_eq, atoi}
use octopusd.Prelude.Map.{Map}
use octopusd.Config.{ComCfg, ConfigMng}
use octopusd.Queue.{QueueMng}
use octopusd.Queue.Upkeep.{clear_error_ip_port}
use octopusd.Queue.Run.{Call, clears_error}
use octopusd.Pool.{Pool}
use octopusd.Setup.Sites.{DbRow, init}
use octopusd.Text.Flag.{get_flag_str}
pub mod Flags
pub mod Refresh
pub mod Recovery
pub mod Reload
pub mod Routine

-- CMaintain::MaintainFlag, by its numbers.
pub data MaintainFlag : Type 0 where
  exit_state log_mode log_module reload_fail_duty print_cfg print_server_status : MaintainFlag
  refresh_common_cfg refresh_site_info print_q_cur_info refresh_log_module : MaintainFlag
  print_thread2pid save_duty_queue_when_exit force_close_all_socket : MaintainFlag
  clear_error_ip_port_flag force_close_all_socket_fd clear_disabled_duty : MaintainFlag
  queue_safe_mode : MaintainFlag

unfoldable pub flag_no : MaintainFlag → ℕ
flag_no exit_state = 0
flag_no log_mode = 1
flag_no log_module = 2
flag_no reload_fail_duty = 3
flag_no print_cfg = 4
flag_no print_server_status = 5
flag_no refresh_common_cfg = 6
flag_no refresh_site_info = 7
flag_no print_q_cur_info = 8
flag_no refresh_log_module = 9
flag_no print_thread2pid = 10
flag_no save_duty_queue_when_exit = 11
flag_no force_close_all_socket = 12
flag_no clear_error_ip_port_flag = 13
flag_no force_close_all_socket_fd = 14
flag_no clear_disabled_duty = 15
flag_no queue_safe_mode = 16

-- The shared memory: an `int` at each number, or `none` where it is not attached.
abbrev pub ShareMem : Type 0
ShareMem = Option (ℕ → ℤ)

-- CMaintain::setFlag and CMaintain::getFlag.
unfoldable pub set_flag : MaintainFlag → ℤ → ShareMem → ShareMem
unfolding flag_no
set_flag flag value none = none
set_flag flag value (some ints) = some (λ n. if n == flag_no flag then value else ints n)

unfoldable pub get_flag : MaintainFlag → ShareMem → ℤ
unfolding flag_no
get_flag flag none = pos 0
get_flag flag (some ints) = ints (flag_no flag)

-- What the commands reach: the flags, the queues with the configuration, and the connections.
pub record Daemon : Type 0 where
  pub flags : ShareMem
  pub queue : QueueMng
  pub pool : Pool

-- What the files and the data base hold when a command reads them, and what the constructor
-- leaves in a new CConfigMng.
pub record Sources : Type 0 where
  pub common_file : Option Bytes
  pub site_file : Option Bytes
  pub rows : Option (List DbRow)
  pub fresh : ConfigMng

unfoldable pub read_sources : Sources → Option ConfigMng
unfolding init
read_sources s = init s.common_file s.site_file s.rows s.fresh

-- CMaintain::refreshCommonCfg: the members that it copies.
unfoldable pub refreshed : ComCfg → ComCfg → ComCfg
refreshed c new = record c {
  login_ip = new.login_ip;
  server_flag = new.server_flag;
  file_mode_option = new.file_mode_option;
  del_file_after_upload = new.del_file_after_upload;
  if_upload_zero_file = new.if_upload_zero_file;
  max_limit_of_upload_file = new.max_limit_of_upload_file;
  max_nr_of_retry = new.max_nr_of_retry;
  protocol_type = new.protocol_type;
  if_fail_log_flag = new.if_fail_log_flag;
  max_nr_of_queue_duty = new.max_nr_of_queue_duty;
  max_nr_of_save_last_suc_duty = new.max_nr_of_save_last_suc_duty;
  time_of_fail_duty_retry = new.time_of_fail_duty_retry;
  time_of_check_run_status = new.time_of_check_run_status;
  max_nr_of_duty_to_alarm = new.max_nr_of_duty_to_alarm;
  time_of_thread_stat = new.time_of_thread_stat;
  max_nr_of_cnt = new.max_nr_of_cnt;
  recv_msg_timeout = new.recv_msg_timeout;
  recv_file_timeout = new.recv_file_timeout;
  send_flow_ctrl = new.send_flow_ctrl;
}

unfoldable pub refresh_common : Option ConfigMng → ConfigMng → ConfigMng
unfolding refreshed
refresh_common none c = c
refresh_common (some new) c = record c { com_cfg = refreshed c.com_cfg new.com_cfg }

-- CMaintain::refreshSiteInfo.
unfoldable pub refresh_sites : Option ConfigMng → ConfigMng → ConfigMng
refresh_sites none c = c
refresh_sites (some new) c = record c { map_site = new.map_site }

-- A command of `process`: where its flag is 1 it is obeyed, and then the flag is taken back.
unfoldable pub serve_flag : MaintainFlag → (Daemon → Daemon) → Daemon → Daemon
unfolding get_flag set_flag
serve_flag flag command d =
    let done = command d in
    if int_eq (pos 1) (get_flag flag d.flags)
    then record done { flags = set_flag flag (pos 0) done.flags }
    else d

unfoldable pub prints : Daemon → Daemon
prints d = d

unfoldable pub refreshes_common : Sources → Daemon → Daemon
unfolding read_sources refresh_common
refreshes_common s d = record d {
  queue = record d.queue { config = refresh_common (read_sources s) d.queue.config };
}

unfoldable pub refreshes_sites : Sources → Daemon → Daemon
unfolding read_sources refresh_sites
refreshes_sites s d = record d {
  queue = record d.queue { config = refresh_sites (read_sources s) d.queue.config };
}

-- CMaintain::closeAllSocket.
unfoldable pub close_all_socket : Daemon → Daemon
close_all_socket d = record d {
  pool = record d.pool { connections = []; closed = d.pool.connections ++ d.pool.closed };
}

unfoldable pub clears_error_ip_port : Daemon → Daemon
unfolding clear_error_ip_port
clears_error_ip_port d = record d { queue = clear_error_ip_port [] d.queue }

abbrev pub Commands : Type 0
Commands = List (MaintainFlag × (Daemon → Daemon))

-- The commands of `process` in their order. Each refresh reads the files by itself.
unfoldable pub commands : Sources → Sources → Commands
unfolding prints refreshes_common refreshes_sites close_all_socket clears_error_ip_port
commands s t =
    (print_cfg, prints)
    ∷ (print_server_status, prints)
    ∷ (refresh_common_cfg, refreshes_common s)
    ∷ (refresh_site_info, refreshes_sites t)
    ∷ (print_q_cur_info, prints)
    ∷ (refresh_log_module, prints)
    ∷ (print_thread2pid, prints)
    ∷ (force_close_all_socket, close_all_socket)
    ∷ (clear_error_ip_port_flag, clears_error_ip_port)
    ∷ (force_close_all_socket_fd, prints)
    ∷ []

unfoldable pub serve_flags : Commands → Daemon → Daemon
unfolding serve_flag
serve_flags [] d = d
serve_flags ((flag, command) ∷ l) d = serve_flags l (serve_flag flag command d)

-- CMaintain::process.
unfoldable pub process : Sources → Sources → Daemon → Daemon
unfolding commands serve_flags
process s t d = serve_flags (commands s t) d

-- What `init` makes of the flags: 0, and the mode of the log; two are left as they were.
unfoldable pub init_flags : ComCfg → ShareMem → ShareMem
unfolding set_flag
init_flags c m =
    let m1 = set_flag log_mode (pos c.log_mode) (set_flag exit_state (pos 0) m) in
    let m2 = set_flag reload_fail_duty (pos 0) (set_flag log_module (pos 0) m1) in
    let m3 = set_flag print_server_status (pos 0) (set_flag print_cfg (pos 0) m2) in
    let m4 = set_flag refresh_site_info (pos 0) (set_flag refresh_common_cfg (pos 0) m3) in
    let m5 = set_flag refresh_log_module (pos 0) (set_flag print_q_cur_info (pos 0) m4) in
    let m6 = set_flag save_duty_queue_when_exit (pos 0) (set_flag print_thread2pid (pos 0) m5) in
    let m7 = set_flag force_close_all_socket (pos 0) m6 in
    set_flag force_close_all_socket_fd (pos 0) (set_flag clear_error_ip_port_flag (pos 0) m7)

-- `routine` on one failed server, by what `checkServerStatus` answers at its first and second
-- call: the calls on the queues. The key is cut at its first `_`.
unfoldable pub recover_parts :
    (Bytes → ℤ → Bool) → (Bytes → ℤ → Bool) → Bytes → Option (Bytes × Bytes) → List Call
unfolding atoi
recover_parts first second key none = clears_error key ∷ []
recover_parts first second key (some (ip, port)) =
    if first ip (atoi port) && second ip (atoi port) then clears_error key ∷ [] else []

unfoldable pub recover_server : (Bytes → ℤ → Bool) → (Bytes → ℤ → Bool) → Bytes → List Call
unfolding recover_parts get_flag_str
recover_server first second key = recover_parts first second key (get_flag_str key b'_')

-- The loop over the copy of the table that `getErrorIPPort` gives.
unfoldable pub recover_servers : (Bytes → ℤ → Bool) → (Bytes → ℤ → Bool) → Map Bytes ℕ → List Call
unfolding recover_server
recover_servers first second [] = []
recover_servers first second ((key, n) ∷ m) =
    recover_server first second key ++ recover_servers first second m
