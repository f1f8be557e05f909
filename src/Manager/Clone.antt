-- ===== src/Manager/Clone.antt =====
-- sharelib/ProtocolMng.cpp: `cloneSiteCfg`, which gives a site the servers of another one by a new
-- file of sites.
use octopusd.Prelude.{
  ℕ, zero, suc, ◌+◌, Bool, true, false, not, List, [], ◌∷◌, ◌++◌, Option, none, some, ◌==◌,
  if◌then◌else◌, length,
}
use octopusd.Prelude.Bytes.{Bytes, codes, bytes_eq}
use octopusd.Prelude.Int.{pos, pos_part, int_str}
use octopusd.Prelude.Map.{find, bytes_key}
use octopusd.ConfigFile.{Sections, Loaded, loaded, bad_line, no_file, load}
use octopusd.Setup.{item_text, item_number}
use octopusd.Setup.Sites.{numbered}
use octopusd.Text.Replace.{find_first, find8replace}
use octopusd.Manager.{Manager, HandlerEnv, site_cfg, sites_refreshed, read_whole_file_content}
use octopusd.Manager.Update.{Rewrite, not_written, refused, in_force, with_backup, rewrite_cfg}
pub mod Safe

-- `sServerGroup`, `sDocumentRoot` and `sExistServerGroup`.
pub record Found : Type 0 where
  pub server_group : Bytes
  pub document_root : Bytes
  pub exist_server_group : Bytes

-- The section of a site.
unfoldable pub site_sec : ℕ → Bytes
unfolding numbered
site_sec i = numbered (codes "SITE") i

-- The loop over the sites, with the rounds that are left.
unfoldable pub find_sites : ℕ → ℕ → Sections → Bytes → Bytes → Found → Found
unfolding item_text site_sec
find_sites zero i m by add f = f
find_sites (suc n) i m by add f =
    let sec = site_sec i in
    let name = item_text m sec (codes "SiteName") in
    let group = item_text m sec (codes "ServerGroup") in
    find_sites n (i + 1) m by add (
      if bytes_eq name by
      then record f { server_group = group; document_root = item_text m sec (codes "DocumentRoot") }
      else if bytes_eq name add
      then record f { exist_server_group = group }
      else f)

-- The text of a site, behind an empty line.
unfoldable pub site_lines : ℕ → Bytes → Bytes → Bytes → Bytes
unfolding site_sec
site_lines i name group root =
    codes "\n["
    ++ (site_sec i
        ++ (codes "]\nSiteName = "
            ++ (name
                ++ (codes "\nServerGroup = "
                    ++ (group ++ (codes "\nDocumentRoot = " ++ (root ++ codes "\n")))))))

unfoldable pub nr_line : ℕ → Bytes
unfolding int_str
nr_line n = codes "NrOfSite = " ++ (int_str (pos n) ++ codes "\n")

-- The sites as they are.
unfoldable pub old_sites : ℕ → ℕ → Sections → Bytes
unfolding site_lines site_sec item_text
old_sites zero i m = []
old_sites (suc n) i m =
    let sec = site_sec i in
    site_lines i (item_text m sec (codes "SiteName")) (item_text m sec (codes "ServerGroup"))
      (item_text m sec (codes "DocumentRoot"))
    ++ old_sites n (i + 1) m

-- The sites with another group for one of them.
unfoldable pub regrouped_sites : ℕ → ℕ → Sections → Bytes → Bytes → Bytes
unfolding site_lines site_sec item_text
regrouped_sites zero i m add group = []
regrouped_sites (suc n) i m add group =
    let sec = site_sec i in
    let name = item_text m sec (codes "SiteName") in
    site_lines i name (if bytes_eq add name then group else item_text m sec (codes "ServerGroup"))
      (item_text m sec (codes "DocumentRoot"))
    ++ regrouped_sites n (i + 1) m add group

-- The directory of a new site; `none` where the replacement never ends.
unfoldable pub new_root : Bytes → Bytes → Bytes → Option Bytes
unfolding find_first find8replace
new_root by add root = elim (find_first by root) [
  | none ↦ some (codes "/usr/local/qq_" ++ (add ++ codes "/htdocs"))
  | some parts ↦ find8replace (suc (length root)) root by add 2
]

unfoldable pub sites_added : ℕ → Sections → Bytes → Bytes → Found → Option Bytes → Option Bytes
unfolding nr_line old_sites site_lines
sites_added n m by add f none = none
sites_added n m by add f (some root) =
    some (nr_line (n + 1) ++ (old_sites n 1 m ++ site_lines (n + 1) add f.server_group root))

-- What stands behind the text before `NrOfSite`.
unfoldable pub new_sites : ℕ → Sections → Bytes → Bytes → Found → Option Bytes
unfolding sites_added new_root nr_line regrouped_sites
new_sites n m by add f =
    if length f.exist_server_group == 0
    then sites_added n m by add f (new_root by add f.document_root)
    else some (nr_line n ++ regrouped_sites n 1 m add f.server_group)

-- The text ends with the end of a line. It is not empty where the file was loaded.
unfoldable pub ends_line : Bytes → Bool
ends_line [] = false
ends_line (c ∷ []) = c == 10
ends_line (c ∷ d ∷ s) = ends_line (d ∷ s)

-- The text of the file before `NrOfSite`, where that stands at the start of a line.
unfoldable pub text_before : Option (Bytes × Bytes) → Option Bytes
unfolding ends_line
text_before none = none
text_before (some (a, b)) = if ends_line a then some a else none

unfoldable pub head_of : Option Bytes → Option Bytes
unfolding text_before find_first
head_of none = none
head_of (some content) = text_before (find_first (codes "NrOfSite") content)

-- True stands for 0.
unfoldable pub after_rewrite : Rewrite → Bool × Manager
after_rewrite (not_written m) = (false, m)
after_rewrite (refused m) = (false, m)
after_rewrite (in_force m) = (true, m)

unfoldable pub rewrite_sites : HandlerEnv → Bytes → Option Bytes → Manager → Option (Bool × Manager)
unfolding after_rewrite rewrite_cfg
rewrite_sites env head none m = none
rewrite_sites env head (some rest) m =
    some
      (after_rewrite (rewrite_cfg env (site_cfg env.home) (sites_refreshed env) (head ++ rest) m))

unfoldable pub clone_behind :
    HandlerEnv
    → ℕ
    → Sections
    → Bytes
    → Bytes
    → Found
    → Manager
    → Option Bytes
    → Option (Bool × Manager)
unfolding rewrite_sites new_sites
clone_behind env n secs by add f m none = some (false, m)
clone_behind env n secs by add f m (some head) =
    rewrite_sites env head (new_sites n secs by add f) m

-- The groups are known: the backup is made and the content is read.
unfoldable pub clone_found :
    HandlerEnv → ℕ → Sections → Bytes → Bytes → Found → Manager → Option (Bool × Manager)
unfolding with_backup head_of clone_behind read_whole_file_content
clone_found env n secs by add f m =
    let saved = with_backup env (site_cfg env.home) m in
    if length f.server_group == 0
    then some (false, m)
    else if bytes_eq f.exist_server_group f.server_group
    then some (true, m)
    else clone_behind env n secs by add f saved
        (head_of (read_whole_file_content (site_cfg env.home) saved.files))

unfoldable pub clone_loaded :
    HandlerEnv → Bytes → Bytes → Manager → Loaded → Option (Bool × Manager)
unfolding item_number find_sites clone_found
clone_loaded env by add m no_file = some (false, m)
clone_loaded env by add m (bad_line n) = some (false, m)
clone_loaded env by add m (loaded secs) =
    let n = pos_part (item_number secs (codes "SITEINFO") (codes "NrOfSite")) in
    clone_found env n secs by add
      (find_sites n 1 secs by add
        (record { server_group = []; document_root = []; exist_server_group = [] }))
      m

-- CProtocolMng::cloneSiteCfg; `none` means that it does not end.
unfoldable pub clone_site_cfg : HandlerEnv → Bytes → Bytes → Manager → Option (Bool × Manager)
unfolding clone_loaded load find site_cfg
clone_site_cfg env by add m =
    if bytes_eq by add
    then some (true, m)
    else clone_loaded env by add m (load (find (site_cfg env.home) m.files))
