-- ===== src/Manager/Update.antt =====
-- sharelib/ProtocolMng.cpp: the new content of a configuration file, in `processVersion2`.
pub mod Atomic
use octopusd.Prelude.{
  ℕ, ◌+◌, ◌≡◌, ◌≢◌, ◌⊎◌, inl, inr, refl, sym, ap, ◌∙◌, Bool, true, false, not, List, [], ◌∷◌, ◌++◌,
  Option, none, some, arith, if◌then◌else◌, length, length-append, Bool-cases,
}
use octopusd.Prelude.Bytes.{Bytes, codes, bytes_eq, bytes_eq→eq}
use octopusd.Prelude.Map.{find, insert, find-insert, bytes_key}
use octopusd.Manager.{
  Files, Manager, HandlerEnv, Write, not_opened, short, whole, cp_content, cp_file,
  write_whole_file_content, bak, succeeded, failed, common_cfg, site_cfg, mobile_cfg,
  common_refreshed, sites_refreshed, read_whole_file_content,
}

-- The file with the backup of its old content.
unfoldable pub with_backup : HandlerEnv → Bytes → Manager → Manager
unfolding cp_file bak
with_backup env name m = record m { files = cp_file env.backed_up name (bak name) m.files }

unfoldable pub give_back : HandlerEnv → Bytes → Manager → Manager
unfolding cp_file bak
give_back env name m = record m { files = cp_file env.restored (bak name) name m.files }

-- How a new content fares: it is not written, it is refused by the refresh, or it is in force.
pub data Rewrite : Type 0 where
  not_written : Manager → Rewrite
  refused : Manager → Rewrite
  in_force : Manager → Rewrite

unfoldable pub refresh_or_back : HandlerEnv → Bytes → Manager → Option Manager → Rewrite
unfolding give_back
refresh_or_back env name m none = refused (give_back env name m)
refresh_or_back env name m (some m') = in_force m'

-- Behind the backup: the write and the refresh, which is an argument.
unfoldable pub rewrite_cfg :
    HandlerEnv → Bytes → (Manager → Option Manager) → Bytes → Manager → Rewrite
unfolding write_whole_file_content refresh_or_back give_back
rewrite_cfg env name refresh content m =
    let wrote = write_whole_file_content env.write name content m.files in
    let m' = record m { files = wrote.1 } in
    if not wrote.0
    then not_written (give_back env name m')
    else refresh_or_back env name m' (refresh m')

-- The response, with the words for a refusal.
unfoldable pub respond : Bytes → Rewrite → Manager × List Bytes
unfolding succeeded failed
respond desc (not_written m) =
    (m, failed (codes "writeWholeFileContent failed, please refer log info."))
respond desc (refused m) = (m, failed desc)
respond desc (in_force m) = (m, succeeded [])

-- The two files with a refresh.
pub data CfgPart : Type 0 where
  common_part site_part : CfgPart

unfoldable pub cfg_path : HandlerEnv → CfgPart → Bytes
unfolding common_cfg site_cfg
cfg_path env common_part = common_cfg env.home
cfg_path env site_part = site_cfg env.home

unfoldable pub cfg_refreshed : HandlerEnv → CfgPart → Manager → Option Manager
unfolding common_refreshed sites_refreshed
cfg_refreshed env common_part = common_refreshed env
cfg_refreshed env site_part = sites_refreshed env

unfoldable pub refusal : CfgPart → Bytes
refusal common_part = codes "refreshCommonCfg failed, please refer log info."
refusal site_part = codes "refreshSiteInfo failed, please refer log info."

unfoldable pub update_part : HandlerEnv → CfgPart → Bytes → Manager → Manager × List Bytes
unfolding cfg_path cfg_refreshed refusal respond rewrite_cfg with_backup
update_part env p content m = respond (refusal p) (
    rewrite_cfg env (cfg_path env p) (cfg_refreshed env p) content
      (with_backup env (cfg_path env p) m))

-- What the two files and the list of mobile numbers share: the content, or a failure.
unfoldable pub show_file : Bytes → Manager → List Bytes
unfolding read_whole_file_content succeeded failed
show_file name m = elim (read_whole_file_content name m.files) [
  | none ↦ failed (codes "read failed," ++ name)
  | some s ↦ succeeded s
]

-- The list of mobile numbers, which nothing reads at once: true means that it is written.
unfoldable pub update_mobile : HandlerEnv → Bytes → Manager → Bool × Manager
unfolding cp_file bak write_whole_file_content mobile_cfg
update_mobile env content m =
    let name = mobile_cfg env.home in
    let wrote =
      write_whole_file_content env.write name content
        (cp_file env.backed_up name (bak name) m.files) in
    if wrote.0
    then (true, record m { files = wrote.1 })
    else (false, record m { files = cp_file env.restored (bak name) name wrote.1 })
