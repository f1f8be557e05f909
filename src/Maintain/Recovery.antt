-- ===== src/Maintain/Recovery.antt =====
-- sharelib/Maintain.cpp: the table of failed servers behind `routine`.
use octopusd.Prelude.{
  ℕ, ◌≡◌, ◌≢◌, refl, ap, ◌∙◌, Bool, true, false, ◌&&◌, ◌||◌, [], ◌∷◌, Option, none, some, arith,
  if◌then◌else◌, All, Bool-cases, inl, inr,
}
use octopusd.Prelude.Bytes.{Bytes, bytes_eq, bytes_eq_iff}
use octopusd.Prelude.Int.{ℤ, pos, atoi, int_str, atoi-int_str}
use octopusd.Prelude.Map.{Map, find, erase, find-erase, bytes_key}
use octopusd.Queue.{QueueMng, ip_port}
use octopusd.Queue.Upkeep.{clear_error_ip_port}
use octopusd.Queue.Run.{clears_error, step, run, run-append}
use octopusd.Text.Flag.{Lacks, get_flag_str, get_flag_str-append}
use octopusd.Maintain.{recover_parts, recover_server, recover_servers}

module _ (first second : Bytes → ℤ → Bool) where
  -- The server answers twice, or its key is none.
  unfoldable pub parts_recover : Option (Bytes × Bytes) → Bool
  parts_recover none = true
  parts_recover (some (ip, port)) = first ip (atoi port) && second ip (atoi port)

  unfoldable pub recovers : Bytes → Bool
  unfolding parts_recover
  recovers key = parts_recover (get_flag_str key b'_')

  clear_lem :
      (k key : Bytes) (q : QueueMng)
      → key ≢ []
      → find k (step (clears_error key) q).error_ip_port
        ≡ (if bytes_eq key k then none else find k q.error_ip_port)
  unfolding step clear_error_ip_port bytes_eq erase
  clear_lem k [] q h = absurd (h refl)
  clear_lem k (c ∷ key) q h = find-erase k (c ∷ key) q.error_ip_port

  -- The calls for one server.
  recover_parts_lem :
      (k key : Bytes) (o : Option (Bytes × Bytes)) (q : QueueMng)
      → key ≢ []
      → find k (run (recover_parts first second key o) q).error_ip_port
        ≡ (if bytes_eq key k && parts_recover o then none else find k q.error_ip_port)
  unfolding recover_parts run parts_recover
  recover_parts_lem k key none q h = clear_lem k key q h ∙ ground arith
  recover_parts_lem k key (some (ip, port)) q h =
      elim (Bool-cases (first ip (atoi port) && second ip (atoi port))) [
        | inl e ↦ rw e (clear_lem k key q h ∙ ground arith)
        | inr e ↦ rw e (ground arith)
      ]

  recover_server_lem :
      (k key : Bytes) (q : QueueMng)
      → key ≢ []
      → find k (run (recover_server first second key) q).error_ip_port
        ≡ (if bytes_eq key k && recovers key then none else find k q.error_ip_port)
  unfolding recover_server recovers
  recover_server_lem k key q h = recover_parts_lem k key (get_flag_str key b'_') q h

  unfoldable listed : Bytes → Map Bytes ℕ → Bool
  listed k [] = false
  listed k ((key, n) ∷ m) = bytes_eq key k || listed k m

  -- Every key of the table is there.
  abbrev Named : Map Bytes ℕ → Type 0
  Named m = All (λ p. p.0 ≢ []) m

  recover_servers-find :
      (k : Bytes) (m : Map Bytes ℕ) (q : QueueMng)
      → Named m
      → find k (run (recover_servers first second m) q).error_ip_port
        ≡ (if listed k m && recovers k then none else find k q.error_ip_port)
  unfolding recover_servers run listed
  recover_servers-find k [] q h = refl
  recover_servers-find k ((key, n) ∷ m) q (there, h) =
      let own = recover_server first second key in
      let one = recover_server_lem k key q there in
      let rest = recover_servers-find k m (run own q) h in
      let same = λ (e : bytes_eq key k ≡ true). ap recovers ((bytes_eq_iff key k).0 e) in
      rw (run-append own (recover_servers first second m) q) (ground (arith, one, rest, same))

  find-listed : (k : Bytes) (m : Map Bytes ℕ) → listed k m ≡ false → find k m ≡ none
  unfolding listed find
  find-listed k [] h = refl
  find-listed k ((key, n) ∷ m) h = ground (arith, find-listed k m)

  recovers-ip_port :
      (ip : Bytes) (port : ℕ)
      → Lacks b'_' ip
      → recovers (ip_port ip (pos port)) ≡ (first ip (pos port) && second ip (pos port))
  unfolding recovers ip_port parts_recover
  recovers-ip_port ip port h =
      rw (get_flag_str-append ip (int_str (pos port)) b'_' h, atoi-int_str port) refl

  -- From a table of failed servers without an empty key, in which no other thread's call comes
  -- between, the routine takes off the table exactly what is there of the servers that answer
  -- twice: a server whose address has no `_` stays as it was unless it answers both times.
  recover_servers_lem :
      (ip : Bytes) (port : ℕ) (q : QueueMng)
      → Lacks b'_' ip
      → Named q.error_ip_port
      → find
          (ip_port ip (pos port))
          (run (recover_servers first second q.error_ip_port) q).error_ip_port
        ≡ (if first ip (pos port) && second ip (pos port)
            then none
            else find (ip_port ip (pos port)) q.error_ip_port)
  recover_servers_lem ip port q plain named =
      let k = ip_port ip (pos port) in
      ground (
        arith,
        recover_servers-find k q.error_ip_port q named,
        find-listed k q.error_ip_port,
        recovers-ip_port ip port plain,
      )
