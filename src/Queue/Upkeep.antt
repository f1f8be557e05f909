-- ===== src/Queue/Upkeep.antt =====
-- sharelib/QueueMng.cpp: the methods of the maintenance threads on the queues: `mvErrorQ2SendQ`,
-- `clearDisabledDuty`, `clearErrorIPPort`, `getQueueInfo`, `initThreadStatInfo`, and the reset of
-- the statistics in `printStatInfo`.
use octopusd.Prelude.{
  ℕ, ◌+◌, ◌≡◌, Bool, true, false, ◌||◌, List, [], ◌∷◌, ◌++◌, Option, none, some, ◌==◌,
  if◌then◌else◌, length,
}
use octopusd.Prelude.Bytes.{Bytes, bytes_eq}
use octopusd.Prelude.Map.{Map, find, insert, erase, nat_key, bytes_key}
use octopusd.Config.{ServerInfo, SiteInfo}
use octopusd.Queue.{QueueMng, SendDuty, ip_port}
pub mod Moves

-- The server of the duty is not in the table of failures any more.
unfoldable pub is_recovered : SendDuty → QueueMng → Bool
is_recovered d q = elim (find (ip_port d.server_ip d.server_port) q.error_ip_port) [
  | none ↦ true
  | some n ↦ false
]

unfoldable pub mv_head : List SendDuty → QueueMng → QueueMng
unfolding is_recovered
mv_head [] q = q
mv_head (d ∷ rest) q =
    if is_recovered d q
    then record q { send_error_q = rest; send_q = q.send_q ++ d ∷ [] }
    else record q { send_error_q = rest ++ d ∷ [] }

-- CQueueMng::mvErrorQ2SendQ: the head of the error queue goes to the normal queue if its server
-- has recovered, and to the end of the error queue otherwise.
unfoldable pub mv_error_q2send_q : QueueMng → QueueMng
unfolding mv_head
mv_error_q2send_q q = mv_head q.send_error_q q

unfoldable pub lists_server : Bytes → List ServerInfo → Bool
lists_server key [] = false
lists_server key (s ∷ l) = bytes_eq (ip_port s.ip s.port) key || lists_server key l

-- Some site is served by the server: the set of keys that `clearDisabledDuty` builds holds it.
unfoldable pub is_configured : Bytes → Map Bytes SiteInfo → Bool
unfolding lists_server
is_configured key [] = false
is_configured key ((name, s) ∷ m) = lists_server key s.server_list || is_configured key m

unfoldable pub clear_head : List SendDuty → QueueMng → QueueMng
unfolding is_configured
clear_head [] q = q
clear_head (d ∷ rest) q =
    if is_configured (ip_port d.server_ip d.server_port) q.config.map_site
    then record q { send_error_q = rest ++ d ∷ [] }
    else record q { send_error_q = rest }

-- CQueueMng::clearDisabledDuty: the head of the error queue is dropped if no site is served by
-- its server.
unfoldable pub clear_disabled_duty : QueueMng → QueueMng
unfolding clear_head
clear_disabled_duty q = clear_head q.send_error_q q

-- CQueueMng::clearErrorIPPort: the empty text clears the whole table.
unfoldable pub clear_error_ip_port : Bytes → QueueMng → QueueMng
clear_error_ip_port key q =
    if bytes_eq [] key
    then record q { error_ip_port = [] }
    else record q { error_ip_port = erase key q.error_ip_port }

-- CQueueMng::getQueueInfo.
unfoldable pub get_queue_info : QueueMng → ℕ
get_queue_info q = length q.send_q + length q.send_error_q

-- CQueueMng::initThreadStatInfo.
unfoldable pub init_thread_stat_info : ℕ → ℕ → QueueMng → QueueMng
init_thread_stat_info type me q =
    if type == 0
    then record q { recv_work_time = insert me 0 q.recv_work_time }
    else if type == 1
    then record q { send_work_time = insert me 0 q.send_work_time }
    else q

unfoldable pub clear_work : Map ℕ ℕ → Map ℕ ℕ
clear_work [] = []
clear_work ((t, n) ∷ m) = (t, 0) ∷ clear_work m

-- What `printStatInfo` leaves of the statistics that it has printed.
unfoldable pub clear_stat_info : QueueMng → QueueMng
unfolding clear_work
clear_stat_info q = record q {
  recv_work_time = clear_work q.recv_work_time;
  send_work_time = clear_work q.send_work_time;
  total_size_of_recv_file = 0;
  nr_of_recv_upload_file = 0;
  nr_of_recv_del_file = 0;
  nr_of_recv_mv_file = 0;
  nr_of_recv_cp_file = 0;
  nr_of_send_upload_file = 0;
  nr_of_send_del_file = 0;
  nr_of_send_mv_file = 0;
  nr_of_send_cp_file = 0;
}
