-- ===== src/Server/Sites.antt =====
-- sharelib/ServerMng.cpp: what adding and taking away a server do to the table of sites.
use octopusd.Prelude.{
  ◌≡◌, refl, sym, ap, ◌∙◌, Bool, true, false, List, [], ◌∷◌, ◌++◌, Option, none, some,
  if◌then◌else◌,
}
use octopusd.Prelude.Bytes.{Bytes, bytes_eq, bytes_eq→eq}
use octopusd.Prelude.Map.{Map, find, insert, get_or, touch, bytes_key, find-insert}
use octopusd.Config.{ServerInfo, SiteInfo, ConfigMng, default_site, has_server, check_server_exist}
use octopusd.Server.{
  ServerMsg, new_server, new_site, set_servers, push_server, add_server, erase_server, del_server,
}

-- The servers of a site; none where there is no such site.
unfoldable pub servers_of : Bytes → ConfigMng → List ServerInfo
unfolding get_or
servers_of site c = (get_or site default_site c.map_site).server_list

-- Whether the site has the server of a message.
unfoldable pub serves : ServerMsg → ConfigMng → Bool
unfolding servers_of has_server
serves m c = has_server m.server_ip m.port (servers_of m.site_name c)

abbrev list_of : Option SiteInfo → List ServerInfo
list_of none = []
list_of (some s) = s.server_list

list_or_default :
    (o : Option SiteInfo)
    → (elim o as (λ _. SiteInfo) [ none ↦ default_site | some v ↦ v ]).server_list ≡ list_of o
list_or_default none = refl
list_or_default (some s) = refl

servers_of_lem : (site : Bytes) (c : ConfigMng) → servers_of site c ≡ list_of (find site c.map_site)
unfolding servers_of get_or
servers_of_lem site c = list_or_default (find site c.map_site)

servers_of-set_servers :
    (site other : Bytes) (l : List ServerInfo) (c : ConfigMng)
    → servers_of other (set_servers site l c)
      ≡ (if bytes_eq site other then l else servers_of other c)
unfolding set_servers
servers_of-set_servers site other l c =
    servers_of_lem other (set_servers site l c)
    ∙ ap list_of (
        find-insert other site (record (get_or site default_site c.map_site) { server_list = l })
          c.map_site)
    ∙ on (bytes_eq site other)
  where
    on :
        (b : Bool)
        → list_of (
            if b
            then some (record (get_or site default_site c.map_site) { server_list = l })
            else find other c.map_site)
          ≡ (if b then l else servers_of other c)
    on true = refl
    on false = sym (servers_of_lem other c)

-- The servers of every site behind an addition.
abbrev pub after_add : ServerMsg → Bytes → ConfigMng → List ServerInfo
after_add m other c =
    if bytes_eq m.site_name other
    then (if serves m c then servers_of other c else servers_of other c ++ new_server m ∷ [])
    else servers_of other c

-- The servers of every site behind a deletion.
abbrev pub after_del : ServerMsg → Bytes → ConfigMng → List ServerInfo
after_del m other c =
    if bytes_eq m.site_name other
    then erase_server m.server_ip m.port (servers_of other c)
    else servers_of other c

servers_missing :
    (site : Bytes) (c : ConfigMng) → find site c.map_site ≡ none → servers_of site c ≡ []
servers_missing site c e = servers_of_lem site c ∙ ap list_of e

serves_missing :
    (m : ServerMsg) (c : ConfigMng) → find m.site_name c.map_site ≡ none → serves m c ≡ false
unfolding serves
serves_missing m c e =
    ap (has_server m.server_ip m.port) (servers_missing m.site_name c e) ∙ unfold has_server in refl

touch_known :
    (site : Bytes) (l : Map Bytes SiteInfo) (s : SiteInfo)
    → find site l ≡ some s
    → touch site default_site l ≡ l
unfolding touch
touch_known site l s e = rw (e, touch) refl

check_known :
    (m : ServerMsg) (c : ConfigMng) (s : SiteInfo)
    → find m.site_name c.map_site ≡ some s
    → check_server_exist c m.site_name m.server_ip m.port ≡ (serves m c, c)
unfolding check_server_exist serves servers_of
check_known m c s e =
    ap (λ t. (serves m c, record c { map_site = t })) (touch_known m.site_name c.map_site s e)

-- What is done to the list of the site itself, said of every site's list.
on_site :
    (site other : Bytes) (c : ConfigMng) (f : List ServerInfo → List ServerInfo)
    → (if bytes_eq site other then f (servers_of site c) else servers_of other c)
      ≡ (if bytes_eq site other then f (servers_of other c) else servers_of other c)
on_site site other c f = on (bytes_eq site other) refl
  where
    on :
        (b : Bool)
        → bytes_eq site other ≡ b
        → (if b then f (servers_of site c) else servers_of other c)
          ≡ (if b then f (servers_of other c) else servers_of other c)
    on true e = ap (λ t. f (servers_of t c)) (bytes_eq→eq site other e)
    on false e = refl

both : (b : Bool) (l : List ServerInfo) → (if b then l else l) ≡ l
both true l = refl
both false l = refl

list_of_if :
    (b : Bool) (s : SiteInfo) (o : Option SiteInfo)
    → list_of (if b then some s else o) ≡ (if b then s.server_list else list_of o)
list_of_if true s o = refl
list_of_if false s o = refl

add_known :
    (m : ServerMsg) (other : Bytes) (c : ConfigMng) (b : Bool)
    → servers_of other (push_server m (b, c)) ≡ (
        if bytes_eq m.site_name other
        then (if b then servers_of other c else servers_of other c ++ new_server m ∷ [])
        else servers_of other c)
unfolding push_server servers_of
add_known m other c true = sym (both (bytes_eq m.site_name other) (servers_of other c))
add_known m other c false =
    servers_of-set_servers m.site_name other (servers_of m.site_name c ++ new_server m ∷ []) c
    ∙ on_site m.site_name other c (λ l. l ++ new_server m ∷ [])

add_missing :
    (m : ServerMsg) (other : Bytes) (c : ConfigMng)
    → find m.site_name c.map_site ≡ none
    → servers_of other (record c { map_site = insert m.site_name (new_site m) c.map_site })
      ≡ after_add m other c
unfolding new_site
add_missing m other c e =
    servers_of_lem other (record c { map_site = insert m.site_name (new_site m) c.map_site })
    ∙ ap list_of (find-insert other m.site_name (new_site m) c.map_site)
    ∙ list_of_if (bytes_eq m.site_name other) (new_site m) (find other c.map_site)
    ∙ ap (λ l. if bytes_eq m.site_name other then new_server m ∷ [] else l)
        (sym (servers_of_lem other c))
    ∙ ap (λ l. if bytes_eq m.site_name other then l ++ new_server m ∷ [] else servers_of other c)
        (sym (servers_missing m.site_name c e))
    ∙ on_site m.site_name other c (λ l. l ++ new_server m ∷ [])
    ∙ ap
        (λ b.
          if bytes_eq m.site_name other
          then (if b then servers_of other c else servers_of other c ++ new_server m ∷ [])
          else servers_of other c)
        (sym (serves_missing m c e))

add_on :
    (m : ServerMsg) (other : Bytes) (c : ConfigMng) (o : Option SiteInfo)
    → find m.site_name c.map_site ≡ o
    → servers_of other (add_server m c) ≡ after_add m other c
unfolding add_server
add_on m other c none e = rw (e, add_server) (add_missing m other c e)
add_on m other c (some s) e =
    ap (servers_of other) (rw (e, add_server) (ap (push_server m) (check_known m c s e)))
    ∙ add_known m other c (serves m c)

-- An addition puts the server at the end of its site's list, unless the list has a server with
-- the address and the port; a missing site is made. The lists of the other sites stay.
pub add_server-servers_of :
    (m : ServerMsg) (other : Bytes) (c : ConfigMng)
    → servers_of other (add_server m c) ≡ after_add m other c
add_server-servers_of m other c = add_on m other c (find m.site_name c.map_site) refl

del_on :
    (m : ServerMsg) (other : Bytes) (c : ConfigMng) (o : Option SiteInfo)
    → find m.site_name c.map_site ≡ o
    → servers_of other (del_server m c) ≡ after_del m other c
unfolding del_server
del_on m other c none e =
    rw (e, del_server)
      (sym (both (bytes_eq m.site_name other) (servers_of other c))
        ∙ sym (on_site m.site_name other c (λ l. l))
        ∙ ap (λ l. if bytes_eq m.site_name other then l else servers_of other c)
            (servers_missing m.site_name c e
              ∙ sym (
                  ap (erase_server m.server_ip m.port) (servers_missing m.site_name c e)
                  ∙ unfold erase_server in refl))
        ∙ on_site m.site_name other c (erase_server m.server_ip m.port))
del_on m other c (some s) e =
    rw (e, del_server)
      (servers_of-set_servers m.site_name other (erase_server m.server_ip m.port s.server_list) c
        ∙ ap
            (λ l.
              if bytes_eq m.site_name other
              then erase_server m.server_ip m.port l
              else servers_of other c)
            (sym (servers_of_lem m.site_name c ∙ ap list_of e))
        ∙ on_site m.site_name other c (erase_server m.server_ip m.port))

-- A deletion takes from its site's list the first server with the address and the port, where
-- there is one. The lists of the other sites stay.
pub del_server-servers_of :
    (m : ServerMsg) (other : Bytes) (c : ConfigMng)
    → servers_of other (del_server m c) ≡ after_del m other c
del_server-servers_of m other c = del_on m other c (find m.site_name c.map_site) refl
