-- ===== src/Setup/Servers.antt =====
-- sharelib/ConfigMng.cpp: the sites that `init` reads from cfg/siteinfo.cfg.
use octopusd.Prelude.{
  ℕ, zero, suc, ◌+◌, ◌≡◌, ◌≢◌, ◌≤◌, refl, Bool, true, false, ◌&&◌, List, [], ◌∷◌, Option, some, map,
  All, Option-cases, Bool-cases, inl, inr, either_way,
}
use mathlib.Core.Path.{subst}
use octopusd.Prelude.Bytes.{Bytes, codes, bytes_eq, bytes_lt}
use octopusd.Prelude.Int.{pos}
use octopusd.Prelude.Map.{Map, find, insert, get_or, bytes_key}
use octopusd.Prelude.Chain.{
  Ensures, bind-Ensures, skip-Ensures, some-Ensures, guard-Ensures, Ensures-of, Ensures-some,
}
use octopusd.Config.{ServerInfo, SiteInfo}
use octopusd.ConfigFile.{Sections}
use octopusd.Text.Ip.{check_ip}
use octopusd.Setup.{item_text, item_number}
use octopusd.Setup.Ranges.{non_empty_text_lem, between_lem}
use octopusd.Setup.Sites.{
  has, numbered, read_server, read_servers, all_there, read_group, read_groups, default_server,
  read_site, read_sites, read_siteinfo,
}

-- Every value of a map has the property.
abbrev pub AllValues : {V : Type 0} → (V → Type 0) → Map Bytes V → Type 0
AllValues P m = All (λ p. P p.1) m

insert-AllValues :
    {V : Type 0} (P : V → Type 0) (k : Bytes) (v : V) (m : Map Bytes V)
    → P v
    → AllValues P m
    → AllValues P (insert k v m)
unfolding insert
insert-AllValues P k v [] pv h = (pv, tt)
insert-AllValues P k v ((j, w) ∷ m) pv h =
    either_way (AllValues P) (bytes_eq j k) (pv, h.1)
      (either_way (AllValues P) (bytes_lt k j) (pv, h) (h.0, insert-AllValues P k v m pv h.1))

find-AllValues :
    {V : Type 0} (P : V → Type 0) (k : Bytes) (m : Map Bytes V) (v : V)
    → AllValues P m
    → find k m ≡ some v
    → P v
unfolding find
find-AllValues P k [] v h e = cc
find-AllValues P k ((j, w) ∷ m) v h e = elim (Bool-cases (bytes_eq j k)) [
  | inl same ↦ let value : w ≡ v = cc (rw (same, find) at e) in subst P value h.0
  | inr other ↦ find-AllValues P k m v h.1 (rw (other, find) at e)
]

-- A server that duties can be sent to.
abbrev pub GoodServer : ServerInfo → Type 0
GoodServer s =
    (s.name ≢ []) × (check_ip s.ip ≡ true) × ((p : ℕ) × (s.port ≡ pos p) × (1000 ≤ p) × (p ≤ 65535))

abbrev pub GoodSite : SiteInfo → Type 0
GoodSite s = (s.name ≢ []) × (s.root_dir ≢ []) × All GoodServer s.server_list

abbrev GoodServers : Map Bytes ServerInfo → Type 0
GoodServers = AllValues GoodServer

read_server-GoodServers :
    (m : Sections) (sec : Bytes) (servers : Map Bytes ServerInfo)
    → GoodServers servers
    → Ensures GoodServers (read_server m sec servers)
unfolding read_server
read_server-GoodServers m sec servers good =
    bind-Ensures GoodServers _ _
      (Ensures-of _ (non_empty_text_lem (item_text m sec (codes "ServerName"))))
      (λ name h1. skip-Ensures GoodServers _ _ (λ _. skip-Ensures GoodServers _ _ (λ ip.
        bind-Ensures GoodServers _ _ (guard-Ensures _) (λ _ h2.
          bind-Ensures GoodServers _ _
            (Ensures-of _ (between_lem 1000 65535 (item_number m sec (codes "Port"))))
            (λ port h3. some-Ensures GoodServers (
              insert-AllValues GoodServer name _ servers (h1, h2, (port, refl, h3.0, h3.1))
                good))))))

read_servers-GoodServers :
    (n i : ℕ) (m : Sections) (servers : Map Bytes ServerInfo)
    → GoodServers servers
    → Ensures GoodServers (read_servers n i m servers)
unfolding read_servers
read_servers-GoodServers zero i m servers good = some-Ensures GoodServers good
read_servers-GoodServers (suc n) i m servers good =
    bind-Ensures GoodServers _ _
      (read_server-GoodServers m (numbered (codes "SERVER") i) servers good)
      (λ more h. read_servers-GoodServers n (i + 1) m more h)

-- The groups name servers of the table.
abbrev Known : Map Bytes ServerInfo → Map Bytes (List Bytes) → Type 0
Known servers = AllValues (λ names. all_there servers names ≡ true)

read_group-Known :
    (m : Sections) (sec : Bytes) (servers : Map Bytes ServerInfo) (groups : Map Bytes (List Bytes))
    → Known servers groups
    → Ensures (Known servers) (read_group m sec servers groups)
unfolding read_group
read_group-Known m sec servers groups known = skip-Ensures (Known servers) _ _ (λ name.
    skip-Ensures (Known servers) _ _ (λ _. skip-Ensures (Known servers) _ _ (λ names.
      bind-Ensures (Known servers) _ _ (guard-Ensures _) (λ _ h.
        some-Ensures (Known servers)
          (insert-AllValues (λ l. all_there servers l ≡ true) name names groups h known)))))

read_groups-Known :
    (n i : ℕ) (m : Sections) (servers : Map Bytes ServerInfo) (groups : Map Bytes (List Bytes))
    → Known servers groups
    → Ensures (Known servers) (read_groups n i m servers groups)
unfolding read_groups
read_groups-Known zero i m servers groups known = some-Ensures (Known servers) known
read_groups-Known (suc n) i m servers groups known =
    bind-Ensures (Known servers) _ _
      (read_group-Known m (numbered (codes "SERVERGROUP") i) servers groups known)
      (λ more h. read_groups-Known n (i + 1) m servers more h)

has-GoodServer :
    (servers : Map Bytes ServerInfo) (n : Bytes)
    → GoodServers servers
    → has n servers ≡ true
    → GoodServer (get_or n default_server servers)
unfolding has get_or
has-GoodServer servers n good h = elim (Option-cases (find n servers)) [
  | inl e ↦ absurd (false_true (rw (e, has) at h))
  | inr (v, e) ↦ rw (e, get_or) (find-AllValues GoodServer n servers v good e)
]
  where
    false_true : false ≡ true → ⊥
    false_true e = cc

both : (a b : Bool) → (a && b) ≡ true → (a ≡ true) × (b ≡ true)
both true b h = (refl, h)
both false b h = cc

-- The servers of a site are those of its group's names.
named_servers :
    (servers : Map Bytes ServerInfo) (names : List Bytes)
    → GoodServers servers
    → all_there servers names ≡ true
    → All GoodServer (map (λ n. get_or n default_server servers) names)
unfolding all_there
named_servers servers [] good h = tt
named_servers servers (n ∷ names) good h =
    let (here, there) = both (has n servers) (all_there servers names) h in
    (has-GoodServer servers n good here, named_servers servers names good there)

abbrev GoodSites : Map Bytes SiteInfo → Type 0
GoodSites = AllValues GoodSite

read_site-GoodSites :
    (m : Sections) (sec : Bytes) (servers : Map Bytes ServerInfo) (groups : Map Bytes (List Bytes))
    (sites : Map Bytes SiteInfo)
    → GoodServers servers
    → Known servers groups
    → GoodSites sites
    → Ensures GoodSites (read_site m sec servers groups sites)
unfolding read_site
read_site-GoodSites m sec servers groups sites good known h =
    bind-Ensures GoodSites _ _
      (Ensures-of _ (non_empty_text_lem (item_text m sec (codes "SiteName"))))
      (λ name h1. skip-Ensures GoodSites _ _ (λ _. skip-Ensures GoodSites _ _ (λ group.
        bind-Ensures GoodSites _ _
          (Ensures-of (find group groups) (λ names e.
            find-AllValues (λ l. all_there servers l ≡ true) group groups names known e))
          (λ names h2.
            bind-Ensures GoodSites _ _
              (Ensures-of _ (non_empty_text_lem (item_text m sec (codes "DocumentRoot"))))
              (λ root h3. some-Ensures GoodSites (
                insert-AllValues GoodSite name _ sites (h1, h3, named_servers servers names good h2)
                  h))))))

read_sites-GoodSites :
    (n i : ℕ) (m : Sections) (servers : Map Bytes ServerInfo) (groups : Map Bytes (List Bytes))
    (sites : Map Bytes SiteInfo)
    → GoodServers servers
    → Known servers groups
    → GoodSites sites
    → Ensures GoodSites (read_sites n i m servers groups sites)
unfolding read_sites
read_sites-GoodSites zero i m servers groups sites good known h = some-Ensures GoodSites h
read_sites-GoodSites (suc n) i m servers groups sites good known h =
    bind-Ensures GoodSites _ _
      (read_site-GoodSites m (numbered (codes "SITE") i) servers groups sites good known h)
      (λ more h'. read_sites-GoodSites n (i + 1) m servers groups more good known h')

-- Every site of an accepted site file has a name and a directory, and each of its servers has a
-- name, an address that passes the test of addresses, and a port from 1000 to 65535.
read_siteinfo-GoodSite :
    (file : Option Bytes) (sites : Map Bytes SiteInfo)
    → read_siteinfo file ≡ some sites
    → AllValues GoodSite sites
unfolding read_siteinfo
read_siteinfo-GoodSite file sites h =
    Ensures-some GoodSites (read_siteinfo file) sites
      (skip-Ensures GoodSites _ _ (λ m. skip-Ensures GoodSites _ _ (λ nr_of_server.
        bind-Ensures GoodSites _ _ (read_servers-GoodServers nr_of_server 1 m [] tt)
          (λ servers good. skip-Ensures GoodSites _ _ (λ nr_of_group.
            bind-Ensures GoodSites _ _ (read_groups-Known nr_of_group 1 m servers [] tt)
              (λ groups known. skip-Ensures GoodSites _ _ (λ nr_of_site.
                read_sites-GoodSites nr_of_site 1 m servers groups [] good known tt)))))))
      h
