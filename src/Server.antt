-- ===== src/Server.antt =====
-- sharelib/ServerMng.cpp: a server is added to a site or taken from it, in the table of sites that
-- the queues read. The answer is 0 in every case; what differs is the table.
use octopusd.Prelude.{ℕ, Bool, true, false, List, [], ◌∷◌, ◌++◌, Option, none, some, if◌then◌else◌}
use octopusd.Prelude.Bytes.{Bytes, codes}
use octopusd.Prelude.Int.{ℤ}
use octopusd.Prelude.Map.{Map, find, insert, get_or, touch, bytes_key}
use octopusd.Config.{ServerInfo, SiteInfo, ConfigMng, default_site, is_server, check_server_exist}
pub mod Sites
pub mod Unique

-- What the two operations read of a CServerAddMsg and of a CServerDelMsg.
pub record ServerMsg : Type 0 where
  pub site_name : Bytes
  pub server_ip : Bytes
  pub port : ℤ

unfoldable pub new_server : ServerMsg → ServerInfo
new_server m = record { name = m.server_ip; ip = m.server_ip; port = m.port }

unfoldable pub new_site : ServerMsg → SiteInfo
unfolding new_server
new_site m = record {
  name = m.site_name;
  server_list = new_server m ∷ [];
  root_dir = codes "/usr/local/qq_" ++ (m.site_name ++ codes "/htdocs");
}

-- `m_mapSite[site].m_vecServerList = l`.
unfoldable pub set_servers : Bytes → List ServerInfo → ConfigMng → ConfigMng
unfolding get_or insert
set_servers site l c = record c {
  map_site =
      insert site (record (get_or site default_site c.map_site) { server_list = l }) c.map_site;
}

-- The end of `addServer`, on what `checkServerExist` answers.
unfoldable pub push_server : ServerMsg → Bool × ConfigMng → ConfigMng
unfolding set_servers get_or new_server
push_server m (true, c) = c
push_server m (false, c) =
    set_servers m.site_name
      ((get_or m.site_name default_site c.map_site).server_list ++ new_server m ∷ []) c

-- CServerMng::addServer.
unfoldable pub add_server : ServerMsg → ConfigMng → ConfigMng
unfolding push_server new_site find insert check_server_exist
add_server m c = elim (find m.site_name c.map_site) [
  | none ↦ record c { map_site = insert m.site_name (new_site m) c.map_site }
  | some _ ↦ push_server m (check_server_exist c m.site_name m.server_ip m.port)
]

-- The loop of `delServer`: the first server with the address and the port is erased.
unfoldable pub erase_server : Bytes → ℤ → List ServerInfo → List ServerInfo
unfolding is_server
erase_server ip port [] = []
erase_server ip port (s ∷ l) =
    let rest = erase_server ip port l in if is_server ip port s then l else s ∷ rest

-- CServerMng::delServer.
unfoldable pub del_server : ServerMsg → ConfigMng → ConfigMng
unfolding erase_server set_servers find
del_server m c = elim (find m.site_name c.map_site) [
  | none ↦ c
  | some site ↦ set_servers m.site_name (erase_server m.server_ip m.port site.server_list) c
]
