-- ===== src/Manager/Handle.antt =====
-- sharelib/ProtocolMng.cpp: `processVersion2`, behind the receipt of the message, to the response.
use octopusd.Prelude.{
  ℕ, zero, suc, ◌+◌, Bool, true, false, not, ◌||◌, List, [], ◌∷◌, ◌++◌, Option, none, some, ◌==◌,
  if◌then◌else◌, length,
}
use octopusd.Prelude.Bytes.{Bytes, codes}
use octopusd.Prelude.Int.{ℤ, pos, negsuc, int_eq, int_str, atoi, as_int}
use octopusd.Prelude.Map.{Map, bytes_key}
use octopusd.Config.{ServerInfo}
use octopusd.Queue.{QueueMng}
use octopusd.Queue.Upkeep.{clear_error_ip_port}
use octopusd.Maintain.{Daemon, reload_fail_duty, set_flag}
use octopusd.Manager.{
  Manager, HandlerEnv, common_cfg, site_cfg, mobile_cfg, read_whole_file_content, succeeded, failed,
}
use octopusd.Manager.Update.{
  CfgPart, common_part, site_part, cfg_path, update_part, show_file, update_mobile,
}
use octopusd.Manager.Tree.{search_tree}
use octopusd.Manager.Forward.{forward_version2_msg}
use octopusd.Manager.Clone.{clone_site_cfg}
pub mod Range
pub mod Missing

-- CProtocolMng::ProtocolType, the members of the second version.
abbrev pub protocol_search_tree : ℕ
protocol_search_tree = 0x20

abbrev pub protocol_common_cfg : ℕ
protocol_common_cfg = 0x21

abbrev pub protocol_site_cfg : ℕ
protocol_site_cfg = 0x22

abbrev pub protocol_mobile_cfg : ℕ
protocol_mobile_cfg = 0x23

abbrev pub protocol_log_trace : ℕ
protocol_log_trace = 0x24

abbrev pub protocol_show_q_info : ℕ
protocol_show_q_info = 0x25

-- What a message leads to: nothing is sent; a part is read that the message does not have; the
-- handler does not end; or the response with the servers that the message is sent on to.
pub data Handled : Type 0 where
  silent : Handled
  out_of_range : Handled
  endless : Handled
  replies : Manager → List Bytes → List ServerInfo → Handled

abbrev answers : Manager × List Bytes → Handled
answers (m, l) = replies m l []

-- `iType` is so much.
unfoldable pub is_type : Bytes → ℕ → Bool
unfolding int_eq atoi as_int
is_type first n = int_eq (as_int (atoi first)) (pos n)

-- The content that follows `iType`.
unfoldable pub updated : HandlerEnv → CfgPart → List Bytes → Manager → Handled
unfolding update_part
updated env p [] m = out_of_range
updated env p (content ∷ rest) m = answers (update_part env p content m)

unfoldable pub handle_common_cfg : HandlerEnv → Bytes → List Bytes → Manager → Handled
unfolding is_type show_file common_cfg updated
handle_common_cfg env first rest m =
    if is_type first 0
    then replies m (show_file (common_cfg env.home) m) []
    else if is_type first 1
    then updated env common_part rest m
    else replies m [] []

-- A clone is sent on to the servers of the site that is cloned.
unfoldable pub clone_answer : HandlerEnv → Bytes → Option (Bool × Manager) → Handled
unfolding failed succeeded forward_version2_msg
clone_answer env by none = endless
clone_answer env by (some (false, m)) =
    replies m (failed (codes "cloneSiteCfg failed, please refer log info.")) []
clone_answer env by (some (true, m)) =
    replies m (succeeded []) (forward_version2_msg env by m.daemon.queue.config)

unfoldable pub cloned : HandlerEnv → List Bytes → Manager → Handled
unfolding clone_answer clone_site_cfg
cloned env [] m = out_of_range
cloned env (by ∷ []) m = out_of_range
cloned env (by ∷ add ∷ rest) m = clone_answer env by (clone_site_cfg env by add m)

unfoldable pub handle_site_cfg : HandlerEnv → Bytes → List Bytes → Manager → Handled
unfolding is_type show_file site_cfg updated cloned
handle_site_cfg env first rest m =
    if is_type first 0
    then replies m (show_file (site_cfg env.home) m) []
    else if is_type first 1
    then updated env site_part rest m
    else if is_type first 2
    then cloned env rest m
    else replies m [] []

-- The list is written, and sent on to all servers where the next part asks for it.
unfoldable pub mobile_written : HandlerEnv → List Bytes → Bool × Manager → Handled
unfolding failed succeeded is_type forward_version2_msg
mobile_written env rest (false, m) =
    replies m (failed (codes "writeWholeFileContent failed, please refer log info.")) []
mobile_written env [] (true, m) = out_of_range
mobile_written env (flag ∷ rest) (true, m) =
    replies m (succeeded [])
      (if is_type flag 1 then forward_version2_msg env [] m.daemon.queue.config else [])

unfoldable pub mobile_updated : HandlerEnv → List Bytes → Manager → Handled
unfolding mobile_written update_mobile
mobile_updated env [] m = out_of_range
mobile_updated env (content ∷ rest) m = mobile_written env rest (update_mobile env content m)

unfoldable pub handle_mobile_cfg : HandlerEnv → Bytes → List Bytes → Manager → Handled
unfolding is_type show_file mobile_cfg mobile_updated
handle_mobile_cfg env first rest m =
    if is_type first 0
    then replies m (show_file (mobile_cfg env.home) m) []
    else if is_type first 1
    then mobile_updated env rest m
    else replies m [] []

-- A log is shown, or `none` where it cannot be read.
unfoldable pub log_text : Bytes → Manager → Bytes
unfolding read_whole_file_content
log_text name m = elim (read_whole_file_content name m.files) [ none ↦ codes "none" | some s ↦ s ]

unfoldable pub stat_date : HandlerEnv → Bytes → Bytes
stat_date env [] = env.date
stat_date env (c ∷ s) = c ∷ s

unfoldable pub show_stat : HandlerEnv → List Bytes → Manager → Handled
unfolding log_text stat_date succeeded
show_stat env [] m = out_of_range
show_stat env (day ∷ rest) m =
    let name = env.home ++ (codes "/log/stat/queue" ++ (stat_date env day ++ codes ".xml")) in
    replies m (succeeded (codes "<stat>\n" ++ (log_text name m ++ codes "</stat>\n"))) []

-- Any file below the home directory.
unfoldable pub show_any : HandlerEnv → List Bytes → Manager → Handled
unfolding log_text succeeded
show_any env [] m = out_of_range
show_any env (path ∷ rest) m = replies m (succeeded (log_text (env.home ++ path) m)) []

unfoldable pub handle_log_trace : HandlerEnv → Bytes → List Bytes → Manager → Handled
unfolding is_type log_text succeeded show_stat show_any
handle_log_trace env first rest m =
    let base = env.home ++ codes "/log/newoctopusd." in
    let show = λ (end : Bytes). replies m (succeeded (log_text (base ++ end) m)) [] in
    if is_type first 0
    then show (codes "log")
    else if is_type first 1
    then show (codes "error")
    else if is_type first 2
    then show (codes "run")
    else if is_type first 3
    then show_stat env rest m
    else if is_type first 4
    then show_any env rest m
    else show []

-- CQueueMng::getCurInfo. The queue of the last successful duties is compiled out.
unfoldable pub error_lines : Map Bytes ℕ → Bytes
unfolding int_str
error_lines [] = []
error_lines ((key, n) ∷ m) =
    codes "ErrorIPPort=" ++ (key ++ (b':' ∷ (int_str (pos n) ++ (10 ∷ error_lines m))))

unfoldable pub cur_info : HandlerEnv → QueueMng → Bytes
unfolding int_str error_lines
cur_info env q =
    let line = λ (label : Bytes) (n : ℕ). label ++ (int_str (pos n) ++ 10 ∷ []) in
    codes "\n======"
    ++ (env.exact_time
        ++ (codes " cur Info======\n"
            ++ (line (codes " NrOfConnecting = ") env.pool_size
                ++ (line (codes " SendDutySize = ") (length q.send_q)
                    ++ (line (codes " ErrorSendDutySize = ") (length q.send_error_q)
                        ++ (line (codes " LastSucSeq = ") 0
                            ++ (line (codes " LastSucQSize = ") 0
                                ++ (line (codes " FailDutyFileSeq = ") q.file_seq
                                    ++ (line (codes " FailDutyRecordSeq = ") q.record_seq
                                        ++ (codes " ======queue info ======\n"
                                            ++ error_lines q.error_ip_port))))))))))

unfoldable pub handle_show_q : HandlerEnv → Bytes → Manager → Handled
unfolding is_type cur_info set_flag clear_error_ip_port succeeded failed
handle_show_q env first m =
    let d = m.daemon in
    if is_type first 0
    then replies m (succeeded (cur_info env d.queue)) []
    else if is_type first 1
    then replies
        (record m { daemon = record d { flags = set_flag reload_fail_duty (negsuc 0) d.flags } })
        (succeeded []) []
    else if is_type first 2
    then replies (record m { daemon = record d { queue = clear_error_ip_port [] d.queue } })
        (succeeded []) []
    else replies m (failed (codes "unkown type.")) []

unfoldable pub unknown_type : ℕ → Manager → Handled
unfolding failed int_str
unknown_type type m =
    replies m (failed (codes "unkown msgtype(" ++ (int_str (pos type) ++ codes ")"))) []

-- A message with at least a part, by its type.
unfoldable pub handle : HandlerEnv → ℕ → Bytes → List Bytes → Manager → Handled
unfolding search_tree succeeded handle_common_cfg handle_site_cfg handle_mobile_cfg handle_log_trace
    handle_show_q unknown_type
handle env type first rest m =
    if type == protocol_search_tree
    then replies m (succeeded (search_tree first m.daemon.queue.config)) []
    else if type == protocol_common_cfg
    then handle_common_cfg env first rest m
    else if type == protocol_site_cfg
    then handle_site_cfg env first rest m
    else if type == protocol_mobile_cfg
    then handle_mobile_cfg env first rest m
    else if type == protocol_log_trace
    then handle_log_trace env first rest m
    else if type == protocol_show_q_info
    then handle_show_q env first m
    else unknown_type type m

-- The types that are known ask for a part.
unfoldable pub is_known : ℕ → Bool
is_known t =
    t == protocol_search_tree
    || (t == protocol_common_cfg
        || (t == protocol_site_cfg
            || (t == protocol_mobile_cfg
                || (t == protocol_log_trace || t == protocol_show_q_info))))

-- CProtocolMng::processVersion2, for the parts that were received and a type below 128.
unfoldable pub process_version2 : HandlerEnv → ℕ → List Bytes → Manager → Handled
unfolding is_known unknown_type handle
process_version2 env type [] m = if is_known type then silent else unknown_type type m
process_version2 env type (first ∷ rest) m = handle env type first rest m
