-- ===== src/Manager/Forward.antt =====
-- sharelib/ProtocolMng.cpp: `forwardVersion2Msg`, which sends a message to the servers of one site
-- or of all.
use octopusd.Prelude.{
  ◌≡◌, refl, ◌∙◌, sym, ap, List, [], ◌∷◌, ◌++◌, Option, none, some, if◌then◌else◌,
}
use octopusd.Prelude.Bytes.{Bytes, bytes_eq}
use octopusd.Prelude.Map.{Map, find, insert, find-insert, bytes_key}
use octopusd.Config.{ServerInfo, SiteInfo, ConfigMng}
use octopusd.Manager.{HandlerEnv}

-- `insServerList[sKey] = ...` for the servers of a site, by their names.
unfoldable pub collect_servers : List ServerInfo → Map Bytes ServerInfo → Map Bytes ServerInfo
unfolding insert
collect_servers [] m = m
collect_servers (s ∷ l) m = collect_servers l (insert s.name s m)

unfoldable pub collect_sites : Map Bytes SiteInfo → Map Bytes ServerInfo → Map Bytes ServerInfo
unfolding collect_servers
collect_sites [] m = m
collect_sites ((name, site) ∷ l) m = collect_sites l (collect_servers site.server_list m)

unfoldable pub servers_of_found : Option SiteInfo → Map Bytes ServerInfo
unfolding collect_servers
servers_of_found none = []
servers_of_found (some site) = collect_servers site.server_list []

unfoldable pub forward_targets : Bytes → ConfigMng → Map Bytes ServerInfo
unfolding collect_sites servers_of_found find
forward_targets [] c = collect_sites c.map_site []
forward_targets (b ∷ name) c = servers_of_found (find (b ∷ name) c.map_site)

-- The servers that can be reached are sent the message, in the order of their names.
unfoldable pub reached : HandlerEnv → Map Bytes ServerInfo → List ServerInfo
reached env [] = []
reached env ((name, s) ∷ m) =
    let rest = reached env m in if env.connects s.ip s.port then s ∷ rest else rest

-- CProtocolMng::forwardVersion2Msg: the servers that the message is sent to.
unfoldable pub forward_version2_msg : HandlerEnv → Bytes → ConfigMng → List ServerInfo
unfolding reached forward_targets
forward_version2_msg env site c = reached env (forward_targets site c)

-- The last server of a name.
abbrev pub last_named : Bytes → List ServerInfo → Option ServerInfo → Option ServerInfo
last_named name [] o = o
last_named name (s ∷ l) o = last_named name l (if bytes_eq s.name name then some s else o)

abbrev pub all_servers : Map Bytes SiteInfo → List ServerInfo
all_servers [] = []
all_servers ((name, site) ∷ m) = site.server_list ++ all_servers m

last_named-append :
    (name : Bytes) (a b : List ServerInfo) (o : Option ServerInfo)
    → last_named name (a ++ b) o ≡ last_named name b (last_named name a o)
last_named-append name [] b o = refl
last_named-append name (s ∷ a) b o = last_named-append name a b _

find-collect_servers :
    (name : Bytes) (l : List ServerInfo) (m : Map Bytes ServerInfo)
    → find name (collect_servers l m) ≡ last_named name l (find name m)
unfolding collect_servers
find-collect_servers name [] m = refl
find-collect_servers name (s ∷ l) m =
    find-collect_servers name l (insert s.name s m)
    ∙ ap (last_named name l) (find-insert name s.name s m)

find-collect_sites :
    (name : Bytes) (sites : Map Bytes SiteInfo) (m : Map Bytes ServerInfo)
    → find name (collect_sites sites m) ≡ last_named name (all_servers sites) (find name m)
unfolding collect_sites
find-collect_sites name [] m = refl
find-collect_sites name ((n, site) ∷ sites) m =
    find-collect_sites name sites (collect_servers site.server_list m)
    ∙ ap (last_named name (all_servers sites)) (find-collect_servers name site.server_list m)
    ∙ sym (last_named-append name site.server_list (all_servers sites) (find name m))

-- A message for all sites is meant, for each name of a server, for the last server of that name in
-- the order of the sites and of the servers in each, and for no other server of that name.
pub forward_targets-last :
    (name : Bytes) (c : ConfigMng)
    → find name (forward_targets [] c) ≡ last_named name (all_servers c.map_site) none
unfolding forward_targets
forward_targets-last name c = find-collect_sites name c.map_site [] ∙ unfold find in refl
