-- ===== src/Manager.antt =====
-- sharelib/ProtocolMng.cpp and ComFun.cpp: what the messages of the second version reach. The
-- files are their contents by their paths, and what the file system answers to a copy or a write
-- is an argument; a file that is there opens for reading.
use octopusd.Prelude.{
  ℕ, Bool, true, false, List, [], ◌∷◌, ◌++◌, Option, none, some, ◌==◌, if◌then◌else◌, take,
}
use octopusd.Prelude.Bytes.{Bytes, codes}
use octopusd.Prelude.Map.{Map, find, insert, bytes_key}
use octopusd.Prelude.Int.{ℤ}
use octopusd.Config.{ConfigMng}
use octopusd.Queue.{QueueMng}
use octopusd.Setup.Sites.{DbRow}
use octopusd.Maintain.{Daemon, Sources, read_sources, refresh_common, refresh_sites}
use octopusd.Wire.{c_string, set_version2_resp}
pub mod Update
pub mod Tree
pub mod Forward
pub mod Clone
pub mod Handle

abbrev pub Files : Type 0
Files = Map Bytes Bytes

-- The files, and what the commands of Maintain reach.
pub record Manager : Type 0 where
  pub files : Files
  pub daemon : Daemon

-- CComFun::readWholeFileContent; an empty file is not read, and a zero byte ends the content.
unfoldable pub read_content : Option Bytes → Option Bytes
unfolding c_string
read_content none = none
read_content (some []) = none
read_content (some (c ∷ s)) = some (c_string (c ∷ s))

unfoldable pub read_whole_file_content : Bytes → Files → Option Bytes
unfolding read_content find
read_whole_file_content name files = read_content (find name files)

-- CComFun::cpFile, by what the command answers.
unfoldable pub cp_content : Bytes → Option Bytes → Files → Files
unfolding insert
cp_content to none files = files
cp_content to (some s) files = insert to s files

unfoldable pub cp_file : Bool → Bytes → Bytes → Files → Files
unfolding cp_content find
cp_file ok from to files = if ok then cp_content to (find from files) files else files

-- What a write meets: the file does not open, so many bytes are written, or all are.
pub data Write : Type 0 where
  not_opened : Write
  short : ℕ → Write
  whole : Write

-- CComFun::writeWholeFileContent; true stands for 0. An empty content empties the file and is no
-- success.
unfoldable pub write_whole_file_content : Write → Bytes → Bytes → Files → Bool × Files
unfolding insert
write_whole_file_content not_opened name s files = (false, files)
write_whole_file_content (short n) name [] files = (false, insert name [] files)
write_whole_file_content whole name [] files = (false, insert name [] files)
write_whole_file_content (short n) name (c ∷ s) files = (false, insert name (take n (c ∷ s)) files)
write_whole_file_content whole name (c ∷ s) files = (true, insert name (c ∷ s) files)

-- The paths below `g_sHomeDir`.
unfoldable pub common_cfg : Bytes → Bytes
common_cfg home = home ++ codes "/cfg/common.cfg"

unfoldable pub site_cfg : Bytes → Bytes
site_cfg home = home ++ codes "/cfg/siteinfo.cfg"

unfoldable pub mobile_cfg : Bytes → Bytes
mobile_cfg home = home ++ codes "/cfg/mobilelist.cfg"

unfoldable pub bak : Bytes → Bytes
bak name = name ++ codes ".bak"

-- What a handler meets: the home directory, the copy to the backup, the write and the copy back,
-- what the data base gives and what a new CConfigMng holds, the date and the time, which servers can be reached
-- and how many connections wait.
pub record HandlerEnv : Type 0 where
  pub home : Bytes
  pub backed_up : Bool
  pub write : Write
  pub restored : Bool
  pub rows : Option (List DbRow)
  pub fresh : ConfigMng
  pub date : Bytes
  pub exact_time : Bytes
  pub connects : Bytes → ℤ → Bool
  pub pool_size : ℕ

-- The files that `CConfigMng::init` reads.
unfoldable pub sources_of : HandlerEnv → Files → Sources
unfolding common_cfg site_cfg find
sources_of env files = record {
  common_file = find (common_cfg env.home) files;
  site_file = find (site_cfg env.home) files;
  rows = env.rows;
  fresh = env.fresh;
}

-- g_insMaintain.refreshCommonCfg() and g_insMaintain.refreshSiteInfo(); `none` where the files are
-- refused.
unfoldable pub with_config : Manager → ConfigMng → Manager
with_config m c = record m {
  daemon = record m.daemon { queue = record m.daemon.queue { config = c } };
}

unfoldable pub common_refreshed : HandlerEnv → Manager → Option Manager
unfolding read_sources refresh_common with_config sources_of
common_refreshed env m = elim (read_sources (sources_of env m.files)) [
  | none ↦ none
  | some new ↦ some (with_config m (refresh_common (some new) m.daemon.queue.config))
]

unfoldable pub sites_refreshed : HandlerEnv → Manager → Option Manager
unfolding read_sources refresh_sites with_config sources_of
sites_refreshed env m = elim (read_sources (sources_of env m.files)) [
  | none ↦ none
  | some new ↦ some (with_config m (refresh_sites (some new) m.daemon.queue.config))
]

-- `setVersion2Resp` for a success and for a failure.
unfoldable pub succeeded : Bytes → List Bytes
unfolding set_version2_resp
succeeded value = set_version2_resp (codes "0") (codes "successfully") value

unfoldable pub failed : Bytes → List Bytes
unfolding set_version2_resp
failed desc = set_version2_resp (codes "1") desc []
