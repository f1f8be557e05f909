-- ===== src/Server/Unique.antt =====
-- sharelib/ServerMng.cpp: servers that a list names twice, and the one operation behind the other.
use octopusd.Prelude.{
  ◌≡◌, refl, sym, ap, ◌∙◌, Bool, true, false, ◌||◌, List, [], ◌∷◌, ◌++◌, arith, if◌then◌else◌,
  Bool-cases, inl, inr,
}
use octopusd.Prelude.Bytes.{Bytes, bytes_eq, bytes_eq_refl, bytes_eq_iff, bytes_eq→eq}
use octopusd.Prelude.Int.{ℤ, int_eq_iff}
use octopusd.Prelude.Map.{bytes_key}
use octopusd.Config.{ServerInfo, ConfigMng, is_server, has_server}
use octopusd.Server.{ServerMsg, new_server, add_server, erase_server, del_server}
use octopusd.Server.Sites.{servers_of, serves, add_server-servers_of, del_server-servers_of}

is_server_new : (m : ServerMsg) → is_server m.server_ip m.port (new_server m) ≡ true
unfolding is_server new_server
is_server_new m = rw (bytes_eq_refl m.server_ip, (int_eq_iff m.port m.port).1 refl) refl

has_server-snoc :
    (ip : Bytes) (port : ℤ) (l : List ServerInfo) (s : ServerInfo)
    → has_server ip port (l ++ s ∷ []) ≡ (has_server ip port l || is_server ip port s)
unfolding has_server
has_server-snoc ip port [] s = ground arith
has_server-snoc ip port (t ∷ l) s = ground (arith, has_server-snoc ip port l s)

has_server-add :
    (m : ServerMsg) (l : List ServerInfo)
    → has_server m.server_ip m.port
        (if has_server m.server_ip m.port l then l else l ++ new_server m ∷ [])
      ≡ true
has_server-add m l = elim (Bool-cases (has_server m.server_ip m.port l)) [
  | inl e ↦ rw (e, e) refl
  | inr e ↦ rw (e, has_server-snoc m.server_ip m.port l (new_server m), e) (is_server_new m)
]

-- An added server is in the list of its site.
pub add_server-serves : (m : ServerMsg) (c : ConfigMng) → serves m (add_server m c) ≡ true
unfolding serves
add_server-serves m c =
    ap (has_server m.server_ip m.port) (add_server-servers_of m m.site_name c)
    ∙ rw (bytes_eq_refl m.site_name) (has_server-add m (servers_of m.site_name c))

-- No two servers of a list have the same address and port.
unfoldable pub IsUnique : List ServerInfo → Type 0
IsUnique [] = Unit
IsUnique (s ∷ l) = (has_server s.ip s.port l ≡ false) × IsUnique l

-- Two servers that one message names are the same.
same_server :
    (ip : Bytes) (port : ℤ) (s : ServerInfo)
    → is_server ip port s ≡ true
    → (ip ≡ s.ip) × (port ≡ s.port)
unfolding is_server
same_server ip port s h = ground (arith, bytes_eq_iff ip s.ip, int_eq_iff port s.port)

other_way :
    (m : ServerMsg) (s : ServerInfo)
    → is_server m.server_ip m.port s ≡ false
    → is_server s.ip s.port (new_server m) ≡ false
unfolding is_server new_server
other_way m s h = ground (
  arith,
  bytes_eq_iff m.server_ip s.ip,
  bytes_eq_iff s.ip m.server_ip,
  int_eq_iff m.port s.port,
  int_eq_iff s.port m.port,
)

IsUnique-snoc :
    (m : ServerMsg) (l : List ServerInfo)
    → IsUnique l
    → has_server m.server_ip m.port l ≡ false
    → IsUnique (l ++ new_server m ∷ [])
unfolding IsUnique has_server
IsUnique-snoc m [] u h = (refl, tt)
IsUnique-snoc m (s ∷ l) u h = (new_for s l h u.0, IsUnique-snoc m l u.1 (ground arith))
  where
    new_for :
        (s : ServerInfo) (l : List ServerInfo)
        → (is_server m.server_ip m.port s || has_server m.server_ip m.port l) ≡ false
        → has_server s.ip s.port l ≡ false
        → has_server s.ip s.port (l ++ new_server m ∷ []) ≡ false
    new_for s l h k =
        rw (has_server-snoc s.ip s.port l (new_server m), k) (other_way m s (ground arith))

erase_server-gone :
    (ip : Bytes) (port : ℤ) (l : List ServerInfo)
    → IsUnique l
    → has_server ip port (erase_server ip port l) ≡ false
unfolding IsUnique has_server erase_server
erase_server-gone ip port [] u = refl
erase_server-gone ip port (s ∷ l) u = elim (Bool-cases (is_server ip port s)) [
  | inl e ↦ let (i, p) = same_server ip port s e in rw (e, i, p) u.0
  | inr e ↦ rw (e, e) (erase_server-gone ip port l u.1)
]

erase_server-snoc :
    (m : ServerMsg) (l : List ServerInfo)
    → has_server m.server_ip m.port l ≡ false
    → erase_server m.server_ip m.port (l ++ new_server m ∷ []) ≡ l
unfolding has_server erase_server
erase_server-snoc m [] h = rw (is_server_new m) refl
erase_server-snoc m (s ∷ l) h = ground (arith, erase_server-snoc m l)

-- Where the list of the site names no server twice, a deleted server is no longer in it.
pub del_server-serves :
    (m : ServerMsg) (c : ConfigMng)
    → IsUnique (servers_of m.site_name c)
    → serves m (del_server m c) ≡ false
unfolding serves
del_server-serves m c u =
    ap (has_server m.server_ip m.port) (del_server-servers_of m m.site_name c)
    ∙ rw (bytes_eq_refl m.site_name)
        (erase_server-gone m.server_ip m.port (servers_of m.site_name c) u)

not_served :
    (m : ServerMsg) (other : Bytes) (c : ConfigMng)
    → bytes_eq m.site_name other ≡ true
    → serves m c ≡ false
    → has_server m.server_ip m.port (servers_of other c) ≡ false
unfolding serves
not_served m other c e h = rw (sym (bytes_eq→eq m.site_name other e)) h

del_add_on :
    (m : ServerMsg) (other : Bytes) (c : ConfigMng) (b : Bool)
    → bytes_eq m.site_name other ≡ b
    → serves m c ≡ false
    → (if b
        then erase_server m.server_ip m.port (
            if b
            then (if serves m c
                then servers_of other c
                else servers_of other c ++ new_server m ∷ [])
            else servers_of other c)
        else (if b
            then (if serves m c
                then servers_of other c
                else servers_of other c ++ new_server m ∷ [])
            else servers_of other c))
      ≡ servers_of other c
del_add_on m other c true e h =
    rw h (erase_server-snoc m (servers_of other c) (not_served m other c e h))
del_add_on m other c false e h = refl

-- A server that is added to a site without it and then deleted leaves the list of every site as
-- it was.
del_server-add_server :
    (m : ServerMsg) (other : Bytes) (c : ConfigMng)
    → serves m c ≡ false
    → servers_of other (del_server m (add_server m c)) ≡ servers_of other c
del_server-add_server m other c h =
    del_server-servers_of m other (add_server m c)
    ∙ ap (λ l. if bytes_eq m.site_name other then erase_server m.server_ip m.port l else l)
        (add_server-servers_of m other c)
    ∙ del_add_on m other c (bytes_eq m.site_name other) refl h

IsUnique-add :
    (m : ServerMsg) (other : Bytes) (c : ConfigMng) (b : Bool)
    → bytes_eq m.site_name other ≡ b
    → IsUnique (servers_of other c)
    → IsUnique (
        if b
        then (if serves m c then servers_of other c else servers_of other c ++ new_server m ∷ [])
        else servers_of other c)
IsUnique-add m other c true e u = elim (Bool-cases (serves m c)) [
  | inl h ↦ rw h u
  | inr h ↦ rw h (IsUnique-snoc m (servers_of other c) u (not_served m other c e h))
]
IsUnique-add m other c false e u = u

-- An addition names no server twice in a list that names none twice.
pub add_server-IsUnique :
    (m : ServerMsg) (other : Bytes) (c : ConfigMng)
    → IsUnique (servers_of other c)
    → IsUnique (servers_of other (add_server m c))
add_server-IsUnique m other c u =
    rw (add_server-servers_of m other c)
      (IsUnique-add m other c (bytes_eq m.site_name other) refl u)
