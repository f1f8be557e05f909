-- ===== src/Manager/Tree.antt =====
-- sharelib/ProtocolMng.cpp: the list of the sites with their servers, in `processVersion2`.
use octopusd.Prelude.{
  ◌≡◌, refl, ◌∙◌, sym, ap, List, [], ◌∷◌, ◌++◌, Option, none, some, append_assoc, append-nil,
}
use octopusd.Prelude.Bytes.{Bytes, codes}
use octopusd.Prelude.Int.{int_str}
use octopusd.Prelude.Map.{Map, find, bytes_key}
use octopusd.Config.{ServerInfo, SiteInfo, ConfigMng}

-- The inner loop, on the text so far.
unfoldable pub tree_servers : List ServerInfo → Bytes → Bytes
unfolding int_str
tree_servers [] out = out
tree_servers (s ∷ l) out = tree_servers l (out ++ (b':' ∷ (s.ip ++ b'_' ∷ int_str s.port)))

unfoldable pub tree_site : List ServerInfo → Bytes → Bytes
unfolding tree_servers
tree_site [] out = out ++ codes ":none"
tree_site (s ∷ l) out = tree_servers (s ∷ l) out

unfoldable pub with_semicolon : Bytes → Bytes
with_semicolon [] = []
with_semicolon (c ∷ s) = (c ∷ s) ++ b';' ∷ []

-- The loop over the sites.
unfoldable pub tree_sites : Map Bytes SiteInfo → Bytes → Bytes
unfolding tree_site with_semicolon
tree_sites [] out = out
tree_sites ((name, site) ∷ m) out =
    tree_sites m (tree_site site.server_list (with_semicolon out ++ name))

unfoldable pub tree_of_site : Bytes → Option SiteInfo → Bytes
unfolding tree_sites
tree_of_site name none = name ++ codes ":null"
tree_of_site name (some site) = tree_sites ((name, site) ∷ []) []

-- ProtocolSearchTree: an empty name stands for all sites.
unfoldable pub search_tree : Bytes → ConfigMng → Bytes
unfolding tree_of_site tree_sites find
search_tree [] c = tree_sites c.map_site []
search_tree (b ∷ name) c = tree_of_site (b ∷ name) (find (b ∷ name) c.map_site)

-- An independent description: the address and port of each server behind a colon, and the sites
-- with semicolons between them.
abbrev pub server_text : ServerInfo → Bytes
server_text s = b':' ∷ (s.ip ++ b'_' ∷ int_str s.port)

abbrev pub servers_text : List ServerInfo → Bytes
servers_text [] = []
servers_text (s ∷ l) = server_text s ++ servers_text l

abbrev pub tail_text : List ServerInfo → Bytes
tail_text [] = codes ":none"
tail_text (s ∷ l) = servers_text (s ∷ l)

abbrev pub site_text : Bytes × SiteInfo → Bytes
site_text (name, site) = name ++ tail_text site.server_list

abbrev pub sites_text : Map Bytes SiteInfo → Bytes
sites_text [] = []
sites_text (e ∷ []) = site_text e
sites_text (e ∷ f ∷ m) = site_text e ++ b';' ∷ sites_text (f ∷ m)

tree_servers_lem : (l : List ServerInfo) (out : Bytes) → tree_servers l out ≡ out ++ servers_text l
unfolding tree_servers
tree_servers_lem [] out = sym (append-nil out)
tree_servers_lem (s ∷ l) out =
    tree_servers_lem l (out ++ server_text s) ∙ append_assoc out (server_text s) (servers_text l)

tree_site_lem : (l : List ServerInfo) (out : Bytes) → tree_site l out ≡ out ++ tail_text l
unfolding tree_site
tree_site_lem [] out = refl
tree_site_lem (s ∷ l) out = tree_servers_lem (s ∷ l) out

-- Behind a site there is some text.
semicolon_behind :
    (out : Bytes) (l : List ServerInfo)
    → with_semicolon (out ++ tail_text l) ≡ (out ++ tail_text l) ++ b';' ∷ []
unfolding with_semicolon
semicolon_behind [] [] = refl
semicolon_behind [] (s ∷ l) = refl
semicolon_behind (c ∷ out) l = refl

tree_sites_lem :
    (name : Bytes) (site : SiteInfo) (m : Map Bytes SiteInfo) (out : Bytes)
    → tree_sites ((name, site) ∷ m) out ≡ with_semicolon out ++ sites_text ((name, site) ∷ m)
unfolding tree_sites
tree_sites_lem name site [] out =
    tree_site_lem site.server_list (with_semicolon out ++ name)
    ∙ append_assoc (with_semicolon out) name (tail_text site.server_list)
tree_sites_lem name site ((name', site') ∷ m) out =
    let front = with_semicolon out ++ name in
    let here = front ++ tail_text site.server_list in
    let rest = sites_text ((name', site') ∷ m) in
    ap (tree_sites ((name', site') ∷ m)) (tree_site_lem site.server_list front)
    ∙ tree_sites_lem name' site' m here
    ∙ ap (λ t. t ++ rest) (semicolon_behind front site.server_list)
    ∙ append_assoc here (b';' ∷ []) rest
    ∙ append_assoc front (tail_text site.server_list) (b';' ∷ rest)
    ∙ simp append_assoc refl

-- The text for all sites is their texts, with semicolons between them.
all_sites : (m : Map Bytes SiteInfo) → tree_sites m [] ≡ sites_text m
all_sites [] = unfold tree_sites in refl
all_sites ((name, site) ∷ m) = tree_sites_lem name site m [] ∙ unfold with_semicolon in refl

-- What is asked for: all sites, one, or one that is not there.
abbrev pub tree_text : Bytes → ConfigMng → Bytes
tree_text [] c = sites_text c.map_site
tree_text (b ∷ name) c = elim (find (b ∷ name) c.map_site) as (λ _. Bytes) [
  | none ↦ (b ∷ name) ++ codes ":null"
  | some site ↦ site_text (b ∷ name, site)
]

-- The loops give, for every name and configuration, the independent description of the sites that
-- are asked for: each with its servers' addresses and ports, with semicolons between sites.
pub search_tree-tree_text : (name : Bytes) (c : ConfigMng) → search_tree name c ≡ tree_text name c
unfolding search_tree
search_tree-tree_text [] c = all_sites c.map_site
search_tree-tree_text (b ∷ name) c =
    elim (find (b ∷ name) c.map_site)
      as (λ o. tree_of_site (b ∷ name) o ≡ (elim o as (λ _. Bytes) [
        | none ↦ (b ∷ name) ++ codes ":null"
        | some site ↦ site_text (b ∷ name, site)
      ])) [
        | none ↦ unfold tree_of_site in refl
        | some site ↦ unfold tree_of_site in all_sites ((b ∷ name, site) ∷ [])
      ]
