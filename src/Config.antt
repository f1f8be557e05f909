-- ===== src/Config.antt =====
-- sharelib/ConfigMng.cpp, SiteInfo.h, ServerInfo.h and ComCfg.h: the part of the configuration
-- that the queues and the server list reach. The locks are not modelled: each method holds its
-- lock from its first access to its last. The numbers of the common part are not negative, since
-- the reader of the configuration files refuses others.
use octopusd.Prelude.{ℕ, Bool, false, ◌&&◌, ◌||◌, List, [], ◌∷◌, none, some}
use octopusd.Prelude.Bytes.{Bytes, bytes_eq}
use octopusd.Prelude.Int.{ℤ, int_eq}
use octopusd.Prelude.Map.{Map, find, get_or, touch, bytes_key}

-- CServerInfo.
pub record ServerInfo : Type 0 where
  pub name : Bytes
  pub ip : Bytes
  pub port : ℤ

-- CSiteInfo.
pub record SiteInfo : Type 0 where
  pub name : Bytes
  pub server_list : List ServerInfo
  pub root_dir : Bytes

-- CComCfg.
pub record ComCfg : Type 0 where
  pub login_ip : Bytes
  pub server_flag : Bytes
  pub log_mode : ℕ
  pub file_mode_option : Bytes
  pub del_file_after_upload : ℕ
  pub if_upload_zero_file : ℕ
  pub max_limit_of_upload_file : ℕ
  pub protocol_type : ℕ
  pub max_nr_of_retry : ℕ
  pub if_fail_log_flag : ℕ
  pub max_nr_of_queue_duty : ℕ
  pub max_nr_of_save_last_suc_duty : ℕ
  pub time_of_thread_stat : ℕ
  pub time_of_fail_duty_retry : ℕ
  pub time_of_check_run_status : ℕ
  pub max_nr_of_duty_to_alarm : ℕ
  pub distribute_flag : ℕ
  pub db_host : Bytes
  pub db_user : Bytes
  pub db_password : Bytes
  pub server_ip : Bytes
  pub server_port : ℕ
  pub recv_nr_of_thread : ℕ
  pub send_nr_of_thread : ℕ
  pub send_error_nr_of_thread : ℕ
  pub max_nr_of_cnt : ℕ
  pub recv_msg_timeout : ℕ
  pub recv_file_timeout : ℕ
  pub send_flow_ctrl : ℕ

-- CConfigMng, with its table of sites.
pub record ConfigMng : Type 0 where
  pub com_cfg : ComCfg
  pub map_site : Map Bytes SiteInfo

-- CSiteInfo::CSiteInfo(): what `m_mapSite[...]` enters for a missing key.
abbrev pub default_site : SiteInfo
default_site = record { name = []; server_list = []; root_dir = [] }

-- CConfigMng::getSiteRootDir; the empty text means that there is no such site.
unfoldable pub get_site_root_dir : ConfigMng → Bytes → Bytes
get_site_root_dir c site = elim (find site c.map_site) [ none ↦ [] | some s ↦ s.root_dir ]

-- CConfigMng::getSiteServer reads by `m_mapSite[...]`, which enters a missing site.
unfoldable pub get_site_server : ConfigMng → Bytes → List ServerInfo × ConfigMng
unfolding get_or touch
get_site_server c site = (
  (get_or site default_site c.map_site).server_list,
  record c { map_site = touch site default_site c.map_site },
)

-- The test that two loops make of each server: the same address and port.
unfoldable pub is_server : Bytes → ℤ → ServerInfo → Bool
unfolding int_eq bytes_eq
is_server ip port s = bytes_eq ip s.ip && int_eq port s.port

unfoldable pub has_server : Bytes → ℤ → List ServerInfo → Bool
unfolding is_server
has_server ip port [] = false
has_server ip port (s ∷ l) = is_server ip port s || has_server ip port l

-- CConfigMng::checkServerExist: true for its 0.
unfoldable pub check_server_exist : ConfigMng → Bytes → Bytes → ℤ → Bool × ConfigMng
unfolding get_or touch has_server
check_server_exist c site ip port = (
  has_server ip port (get_or site default_site c.map_site).server_list,
  record c { map_site = touch site default_site c.map_site },
)
