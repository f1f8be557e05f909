-- ===== src/Examples/Managers.antt =====
-- sharelib/ProtocolMng.cpp: messages of the second version to a small daemon.
use mathlib.Core.Logic.{◌↔◌}
use octopusd.Prelude.{◌≡◌, ◌≢◌, refl, true, [], ◌∷◌, none, some, arith}
use octopusd.Prelude.Bytes.{Bytes, codes, bytes_eq}
use octopusd.Prelude.Int.{pos}
use octopusd.Prelude.Map.{find, bytes_key}
use octopusd.Manager.{Files, Manager, HandlerEnv, whole, short, site_cfg, common_cfg}
use octopusd.Manager.Update.{common_part, cfg_path, cfg_refreshed, update_part}
use octopusd.Manager.Update.Atomic.{UpdateOf, update_part-atomic}
use octopusd.Manager.Tree.{search_tree, tree_text, search_tree-tree_text}
use octopusd.Manager.Forward.{forward_targets, last_named, all_servers, forward_targets-last}
use octopusd.Manager.Clone.{clone_site_cfg}
use octopusd.Manager.Clone.Safe.{ClonedOf, clone_site_cfg-ClonedOf}
use octopusd.Manager.Handle.{protocol_common_cfg, out_of_range, process_version2, protocol_site_cfg}
use octopusd.Manager.Handle.Missing.{Lacks, process_version2-Lacks}
use octopusd.Manager.Handle.Range.{process_version2-ne-out_of_range}
use octopusd.Examples.Data.{busy, config}

abbrev common_text : Bytes
common_text = codes "[COMMON]\nDistributeFlag = 2\n"

-- One site that is found in the data base's place.
abbrev sites_file : Bytes
sites_file =
    codes
      "[SITEINFO]\nNrOfSite = 1\n\n[SITE001]\nSiteName = news\nServerGroup = g\nDocumentRoot = /r\n"

abbrev files : Files
files = (codes "/o/cfg/common.cfg", common_text) ∷ (codes "/o/cfg/siteinfo.cfg", sites_file) ∷ []

abbrev pub manager : Manager
manager = record {
  files = files;
  daemon = record {
    flags = some (λ n. pos 0);
    queue = busy;
    pool = record { connections = []; served = []; closed = [] };
  };
}

-- The disk is full behind ten bytes.
abbrev pub full_disk : HandlerEnv
full_disk = record {
  home = codes "/o";
  backed_up = true;
  write = short 10;
  restored = true;
  rows = none;
  fresh = config;
  date = codes "20240101";
  exact_time = codes "12:00:00";
  connects = λ ip port. true;
  pool_size = 0;
}

update_part-atomic_example :
    UpdateOf
      (cfg_path full_disk common_part)
      (codes "[COMMON]\n")
      common_text
      (cfg_refreshed full_disk common_part)
      manager
      (update_part full_disk common_part (codes "[COMMON]\n") manager)
unfolding cfg_path common_cfg find bytes_eq
update_part-atomic_example =
    update_part-atomic full_disk common_part (codes "[COMMON]\n") common_text manager refl refl refl

search_tree-tree_text_example : search_tree (codes "news") config ≡ tree_text (codes "news") config
search_tree-tree_text_example = search_tree-tree_text (codes "news") config

forward_targets-last_example :
    find (codes "a") (forward_targets [] config)
    ≡ last_named (codes "a") (all_servers config.map_site) none
forward_targets-last_example = forward_targets-last (codes "a") config

clone_site_cfg-ClonedOf_example :
    ClonedOf
      (record full_disk { write = whole })
      sites_file
      manager
      (clone_site_cfg (record full_disk { write = whole }) (codes "news") (codes "sport") manager)
unfolding site_cfg find bytes_eq
clone_site_cfg-ClonedOf_example =
    clone_site_cfg-ClonedOf (record full_disk { write = whole }) sites_file manager refl refl refl
      (codes "news") (codes "sport")

process_version2-ne-out_of_range_example :
    process_version2 full_disk protocol_site_cfg
      (codes "2" ∷ codes "news" ∷ codes "sport" ∷ [])
      manager
    ≢ out_of_range
process_version2-ne-out_of_range_example =
    process_version2-ne-out_of_range full_disk protocol_site_cfg
      (codes "2" ∷ codes "news" ∷ codes "sport" ∷ []) manager (omega arith)

process_version2-Lacks_example :
    (process_version2 full_disk protocol_common_cfg (codes "1" ∷ []) manager ≡ out_of_range)
    ↔ Lacks full_disk protocol_common_cfg (codes "1") [] manager
process_version2-Lacks_example =
    process_version2-Lacks full_disk protocol_common_cfg (codes "1") [] manager
