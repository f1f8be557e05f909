-- ===== src/Manager/Clone/Safe.antt =====
-- sharelib/ProtocolMng.cpp: a clone of a site takes effect, or the old sites stay.
use octopusd.Prelude.{
  ℕ, ◌≡◌, ◌⊎◌, inl, inr, refl, ◌∙◌, Bool, true, false, [], ◌++◌, Option, none, some, ◌==◌, length,
  either_way,
}
use octopusd.Prelude.Bytes.{Bytes, codes, bytes_eq}
use octopusd.Prelude.Map.{find, bytes_key}
use octopusd.Prelude.Int.{pos_part}
use octopusd.Setup.{item_number}
use octopusd.ConfigFile.{Sections, Loaded, loaded, bad_line, no_file, load}
use octopusd.Manager.{Manager, HandlerEnv, site_cfg, sites_refreshed}
use octopusd.Manager.Update.{Rewrite, not_written, refused, in_force, with_backup}
use octopusd.Manager.Update.Atomic.{
  RewriteOf, rewrite_cfg-RewriteOf, sites_refreshed-files, with_backup-bak, with_backup-name,
}
use octopusd.Manager.Clone.{
  Found, find_sites, new_sites, after_rewrite, rewrite_sites, clone_behind, clone_found,
  clone_loaded, clone_site_cfg,
}

-- What a clone makes of the state, by what it answers.
abbrev pub ClonedOf : HandlerEnv → Bytes → Manager → Option (Bool × Manager) → Type 0
ClonedOf env old m none = Unit {0}
ClonedOf env old m (some (false, m')) =
    (find (site_cfg env.home) m'.files ≡ some old) × (m'.daemon ≡ m.daemon)
ClonedOf env old m (some (true, m')) =
    (m' ≡ m) ⊎ (sites_refreshed env (record m { files = m'.files }) ≡ some m')

module _ (env : HandlerEnv) (old : Bytes) (m : Manager) (restored : env.restored ≡ true)
    (backed : env.backed_up ≡ true) (there : find (site_cfg env.home) m.files ≡ some old) where
  after_rewrite-ClonedOf :
      (content : Bytes) (r : Rewrite)
      → RewriteOf
          (site_cfg env.home)
          content
          old
          (sites_refreshed env)
          (with_backup env (site_cfg env.home) m)
          r
      → ClonedOf env old m (some (after_rewrite r))
  unfolding after_rewrite with_backup
  after_rewrite-ClonedOf content (not_written r) h = h
  after_rewrite-ClonedOf content (refused r) h = h
  after_rewrite-ClonedOf content (in_force r) h = inr h.1

  rewrite_sites-ClonedOf :
      (head : Bytes) (rest : Option Bytes)
      → ClonedOf env old m (rewrite_sites env head rest (with_backup env (site_cfg env.home) m))
  unfolding rewrite_sites
  rewrite_sites-ClonedOf head none = tt
  rewrite_sites-ClonedOf head (some rest) = after_rewrite-ClonedOf (head ++ rest) _ (
      rewrite_cfg-RewriteOf env (site_cfg env.home) (head ++ rest) old (sites_refreshed env)
        (sites_refreshed-files env) restored (with_backup env (site_cfg env.home) m)
        (with_backup-bak env (site_cfg env.home) old m backed there))

  clone_behind-ClonedOf :
      (n : ℕ) (secs : Sections) (by add : Bytes) (f : Found) (head : Option Bytes)
      → ClonedOf env old m
          (clone_behind env n secs by add f (with_backup env (site_cfg env.home) m) head)
  unfolding clone_behind
  clone_behind-ClonedOf n secs by add f none =
      (with_backup-name env (site_cfg env.home) m ∙ there, unfold with_backup in refl)
  clone_behind-ClonedOf n secs by add f (some head) =
      rewrite_sites-ClonedOf head (new_sites n secs by add f)

  clone_found-ClonedOf :
      (n : ℕ) (secs : Sections) (by add : Bytes) (f : Found)
      → ClonedOf env old m (clone_found env n secs by add f m)
  unfolding clone_found
  clone_found-ClonedOf n secs by add f =
      either_way (ClonedOf env old m) (length f.server_group == 0) (there, refl)
        (either_way (ClonedOf env old m) (bytes_eq f.exist_server_group f.server_group) (inl refl)
          (clone_behind-ClonedOf n secs by add f _))

  clone_loaded-ClonedOf :
      (by add : Bytes) (l : Loaded) → ClonedOf env old m (clone_loaded env by add m l)
  unfolding clone_loaded
  clone_loaded-ClonedOf by add no_file = (there, refl)
  clone_loaded-ClonedOf by add (bad_line n) = (there, refl)
  clone_loaded-ClonedOf by add (loaded secs) =
      let n = pos_part (item_number secs (codes "SITEINFO") (codes "NrOfSite")) in
      clone_found-ClonedOf n secs by add (
        find_sites n 1 secs by add
          (record { server_group = []; document_root = []; exist_server_group = [] }))

  -- Where the file of sites is there and can be copied to its backup and back, a clone that ends
  -- with a failure, whatever step it fails at, leaves the old sites in the file and the flags,
  -- queues, configuration and connections as they were; one that ends with a success changes
  -- nothing at all, or leaves what a refresh makes of the sites in the new file.
  pub clone_site_cfg-ClonedOf : (by add : Bytes) → ClonedOf env old m (clone_site_cfg env by add m)
  unfolding clone_site_cfg
  clone_site_cfg-ClonedOf by add =
      either_way (ClonedOf env old m) (bytes_eq by add) (inl refl)
        (clone_loaded-ClonedOf by add (load (find (site_cfg env.home) m.files)))
