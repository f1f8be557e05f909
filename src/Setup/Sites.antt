-- ===== src/Setup/Sites.antt =====
-- sharelib/ConfigMng.cpp: the part of `init` that reads the sites, from cfg/siteinfo.cfg or from
-- the data base, and the whole of `init`. The tables of servers and groups are filled and used
-- here alone. `none` stands for -1; `divideup_str` always has a result.
use octopusd.Prelude.{
  ℕ, zero, suc, ◌+◌, Bool, true, false, not, ◌&&◌, List, [], ◌∷◌, ◌++◌, Option, none, some, map,
  ltb, ◌==◌, if◌then◌else◌,
}
use octopusd.Prelude.Bytes.{Bytes, codes}
use octopusd.Prelude.Int.{pos, decimal, atoi}
use octopusd.Prelude.Map.{Map, find, insert, get_or, bytes_key}
use octopusd.Prelude.Chain.{◌>>=◌, ◌>>◌, guard}
use octopusd.Config.{ConfigMng, ServerInfo, SiteInfo}
use octopusd.ConfigFile.{Sections, load}
use octopusd.Text.Flag.{divideup_str}
use octopusd.Text.Ip.{check_ip}
use octopusd.Setup.{item_text, non_empty_text, item_number, not_negative, between, sections_of}
use octopusd.Setup.Common.{read_common}

-- `m.find(k) != m.end()`.
unfoldable pub has : {V : Type 0} → Bytes → Map Bytes V → Bool
has k m = elim (find k m) [ none ↦ false | some v ↦ true ]

-- `%03d`, and the name of the section of that number.
unfoldable pub three_digits : ℕ → Bytes
unfolding decimal
three_digits n =
    if ltb n 10 then b'0' ∷ b'0' ∷ decimal n else if ltb n 100 then b'0' ∷ decimal n else decimal n

unfoldable pub numbered : Bytes → ℕ → Bytes
unfolding three_digits
numbered prefix n = prefix ++ three_digits n

-- [SERVER001]: a server of a new name.
unfoldable pub read_server : Sections → Bytes → Map Bytes ServerInfo → Option (Map Bytes ServerInfo)
unfolding item_text non_empty_text item_number between check_ip has
read_server m sec servers = do
  name ← non_empty_text (item_text m sec (codes "ServerName"))
  guard (not (has name servers))
  ip ← non_empty_text (item_text m sec (codes "IP"))
  guard (check_ip ip)
  port ← between 1000 65535 (item_number m sec (codes "Port"))
  some (insert name (record { name = name; ip = ip; port = pos port }) servers)

-- The loop from a number on, with the rounds that are left.
unfoldable pub read_servers :
    ℕ → ℕ → Sections → Map Bytes ServerInfo → Option (Map Bytes ServerInfo)
unfolding read_server numbered
read_servers zero i m servers = some servers
read_servers (suc n) i m servers = do
  more ← read_server m (numbered (codes "SERVER") i) servers
  read_servers n (i + 1) m more

-- [SERVERGROUP001]: the names of servers, each of which must be there.
unfoldable pub all_there : Map Bytes ServerInfo → List Bytes → Bool
unfolding has
all_there servers [] = true
all_there servers (n ∷ l) = has n servers && all_there servers l

unfoldable pub server_list : Bytes → Option (List Bytes)
unfolding divideup_str
server_list [] = some []
server_list (c ∷ s) = divideup_str (c ∷ s) b'|'

unfoldable pub read_group :
    Sections
    → Bytes
    → Map Bytes ServerInfo
    → Map Bytes (List Bytes)
    → Option (Map Bytes (List Bytes))
unfolding item_text non_empty_text has server_list all_there
read_group m sec servers groups = do
  name ← non_empty_text (item_text m sec (codes "GroupName"))
  guard (not (has name groups))
  names ← server_list (item_text m sec (codes "ServerList"))
  guard (all_there servers names)
  some (insert name names groups)

unfoldable pub read_groups :
    ℕ
    → ℕ
    → Sections
    → Map Bytes ServerInfo
    → Map Bytes (List Bytes)
    → Option (Map Bytes (List Bytes))
unfolding read_group numbered
read_groups zero i m servers groups = some groups
read_groups (suc n) i m servers groups = do
  more ← read_group m (numbered (codes "SERVERGROUP") i) servers groups
  read_groups n (i + 1) m servers more

-- What `m_mapServer[...]` would enter for a missing name.
abbrev pub default_server : ServerInfo
default_server = record { name = []; ip = []; port = pos 0 }

-- [SITE001]: a site of a new name, its servers by those of its group.
unfoldable pub read_site :
    Sections
    → Bytes
    → Map Bytes ServerInfo
    → Map Bytes (List Bytes)
    → Map Bytes SiteInfo
    → Option (Map Bytes SiteInfo)
unfolding item_text non_empty_text has get_or
read_site m sec servers groups sites = do
  name ← non_empty_text (item_text m sec (codes "SiteName"))
  guard (not (has name sites))
  group ← non_empty_text (item_text m sec (codes "ServerGroup"))
  names ← find group groups
  root ← non_empty_text (item_text m sec (codes "DocumentRoot"))
  some (
      insert name
        (record {
          name = name;
          server_list = map (λ n. get_or n default_server servers) names;
          root_dir = root;
        })
        sites)

unfoldable pub read_sites :
    ℕ
    → ℕ
    → Sections
    → Map Bytes ServerInfo
    → Map Bytes (List Bytes)
    → Map Bytes SiteInfo
    → Option (Map Bytes SiteInfo)
unfolding read_site numbered
read_sites zero i m servers groups sites = some sites
read_sites (suc n) i m servers groups sites = do
  more ← read_site m (numbered (codes "SITE") i) servers groups sites
  read_sites n (i + 1) m servers groups more

-- DistributeFlag 2: the whole file.
unfoldable pub read_siteinfo : Option Bytes → Option (Map Bytes SiteInfo)
unfolding sections_of load item_number not_negative read_servers read_groups read_sites
read_siteinfo file = do
  m ← sections_of (load file)
  nr_of_server ← not_negative (item_number m (codes "SERVERINFO") (codes "NrOfServer"))
  servers ← read_servers nr_of_server 1 m []
  nr_of_group ← not_negative (item_number m (codes "SERVERGROUP") (codes "NrOfServerGroup"))
  groups ← read_groups nr_of_group 1 m servers []
  nr_of_site ← not_negative (item_number m (codes "SITEINFO") (codes "NrOfSite"))
  read_sites nr_of_site 1 m servers groups []

-- DistributeFlag 0: names and directories alone.
unfoldable pub read_root : Sections → Bytes → Map Bytes SiteInfo → Option (Map Bytes SiteInfo)
unfolding item_text non_empty_text has
read_root m sec sites = do
  name ← non_empty_text (item_text m sec (codes "SiteName"))
  guard (not (has name sites))
  root ← non_empty_text (item_text m sec (codes "DocumentRoot"))
  some (insert name (record { name = name; server_list = []; root_dir = root }) sites)

unfoldable pub read_roots : ℕ → ℕ → Sections → Map Bytes SiteInfo → Option (Map Bytes SiteInfo)
unfolding read_root numbered
read_roots zero i m sites = some sites
read_roots (suc n) i m sites = do
  more ← read_root m (numbered (codes "SITE") i) sites
  read_roots n (i + 1) m more

unfoldable pub read_site_roots : Option Bytes → Option (Map Bytes SiteInfo)
unfolding sections_of load item_number not_negative read_roots
read_site_roots file = do
  m ← sections_of (load file)
  nr_of_site ← not_negative (item_number m (codes "SITEINFO") (codes "NrOfSite"))
  read_roots nr_of_site 1 m []

-- DistributeFlag 1: a row of t_site_server, its site, address and port.
pub record DbRow : Type 0 where
  pub site_id : Bytes
  pub ip : Bytes
  pub port : Bytes

unfoldable pub row_server : DbRow → ServerInfo
unfolding atoi
row_server r = record { name = r.ip; ip = r.ip; port = atoi r.port }

unfoldable pub read_row : DbRow → Map Bytes SiteInfo → Map Bytes SiteInfo
unfolding row_server
read_row r sites = elim (find r.site_id sites) [
  | none ↦
      insert r.site_id
        (record {
          name = r.site_id;
          server_list = row_server r ∷ [];
          root_dir = codes "/usr/local/qq_" ++ (r.site_id ++ codes "/htdocs");
        })
        sites
  | some site ↦
      insert r.site_id (record site { server_list = site.server_list ++ row_server r ∷ [] }) sites
]

unfoldable pub read_rows : List DbRow → Map Bytes SiteInfo → Map Bytes SiteInfo
unfolding read_row
read_rows [] sites = sites
read_rows (r ∷ l) sites = read_rows l (read_row r sites)

-- CConfigMng::readInfoFromDB; `none` stands for a failing data base, and for -1.
unfoldable pub read_info_from_db : Option (List DbRow) → Option (Map Bytes SiteInfo)
unfolding read_rows
read_info_from_db none = none
read_info_from_db (some rows) = some (read_rows rows [])

unfoldable pub read_by_flag : ℕ → Option Bytes → Option (List DbRow) → Option (Map Bytes SiteInfo)
unfolding read_info_from_db read_siteinfo read_site_roots
read_by_flag flag file rows =
    if flag == 1
    then read_info_from_db rows
    else if flag == 2
    then read_siteinfo file
    else if flag == 0
    then read_site_roots file
    else some []

-- CConfigMng::init, by the two files and what the data base gives.
unfoldable pub init :
    Option Bytes → Option Bytes → Option (List DbRow) → ConfigMng → Option ConfigMng
unfolding read_common read_by_flag
init common_file site_file rows c = do
  com_cfg ← read_common common_file c.com_cfg
  map_site ← read_by_flag com_cfg.distribute_flag site_file rows
  some (record { com_cfg = com_cfg; map_site = map_site })
