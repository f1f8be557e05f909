-- ===== src/Manager/Update/Atomic.antt =====
-- sharelib/ProtocolMng.cpp: a new configuration takes effect, or the old one stays.
use octopusd.Prelude.{
  ℕ, ◌≡◌, ◌≢◌, ◌⊎◌, inl, inr, refl, sym, ap, ◌∙◌, true, false, not, List, [], ◌∷◌, Option, none,
  some, arith, length, length-append, take, each_way, either_way, Bool-cases,
}
use octopusd.Prelude.Bytes.{Bytes, codes, bytes_eq, bytes_eq→eq, bytes_eq_refl}
use octopusd.Prelude.Map.{find, insert, find-insert, bytes_key}
use octopusd.Manager.{
  Files, Manager, HandlerEnv, Write, not_opened, short, whole, cp_content, cp_file,
  write_whole_file_content, bak, succeeded, failed, common_refreshed, sites_refreshed, with_config,
}
use octopusd.Manager.Update.{
  with_backup, give_back, Rewrite, not_written, refused, in_force, refresh_or_back, rewrite_cfg,
  respond, CfgPart, common_part, site_part, cfg_path, cfg_refreshed, refusal, update_part,
}

bytes_eq_ne : (s t : Bytes) → (s ≢ t) → bytes_eq s t ≡ false
bytes_eq_ne s t h = elim (Bool-cases (bytes_eq s t)) [
  | inl e ↦ absurd (h (bytes_eq→eq s t e))
  | inr e ↦ e
]

name-ne-bak : (name : Bytes) → name ≢ bak name
unfolding bak
name-ne-bak name e = omega (arith, ap length e, length-append name (codes ".bak"))

bak-ne : (name : Bytes) → bytes_eq name (bak name) ≡ false
bak-ne name = bytes_eq_ne name (bak name) (name-ne-bak name)

ne-bak : (name : Bytes) → bytes_eq (bak name) name ≡ false
ne-bak name = bytes_eq_ne (bak name) name (λ e. name-ne-bak name (sym e))

bak-insert :
    (name v : Bytes) (files : Files) → find (bak name) (insert name v files) ≡ find (bak name) files
bak-insert name v files = rw (find-insert (bak name) name v files, bak-ne name) refl

name-bak-insert :
    (name v : Bytes) (files : Files) → find name (insert (bak name) v files) ≡ find name files
name-bak-insert name v files = rw (find-insert name (bak name) v files, ne-bak name) refl

insert_self : (name v : Bytes) (files : Files) → find name (insert name v files) ≡ some v
insert_self name v files = rw (find-insert name name v files, bytes_eq_refl name) refl

-- What a write leaves: the backup, and the content where it answers 0.
write-result :
    (w : Write) (name : Bytes) (s : Bytes) (files : Files)
    → let r = write_whole_file_content w name s files in
      (find (bak name) r.1 ≡ find (bak name) files) × (r.0 ≡ true → find name r.1 ≡ some s)
unfolding write_whole_file_content
write-result not_opened name s files = (refl, λ e. cc)
write-result (short n) name [] files = (bak-insert name [] files, λ e. cc)
write-result whole name [] files = (bak-insert name [] files, λ e. cc)
write-result (short n) name (c ∷ s) files = (bak-insert name (take n (c ∷ s)) files, λ e. cc)
write-result whole name (c ∷ s) files =
    (bak-insert name (c ∷ s) files, λ e. insert_self name (c ∷ s) files)

cp_file-copied :
    (from to v : Bytes) (files : Files)
    → find from files ≡ some v
    → find to (cp_file true from to files) ≡ some v
unfolding cp_file
cp_file-copied from to v files e = rw (e, cp_content) (unfold cp_content in insert_self to v files)

-- What a rewrite makes of the state: the new content is there and the state is what a refresh
-- gives, or the old one is, and all else is as it was.
abbrev pub RewriteOf :
    Bytes → Bytes → Bytes → (Manager → Option Manager) → Manager → Rewrite → Type 0
RewriteOf name content old refresh m (not_written r) =
    (find name r.files ≡ some old) × (r.daemon ≡ m.daemon)
RewriteOf name content old refresh m (refused r) =
    (find name r.files ≡ some old) × (r.daemon ≡ m.daemon)
RewriteOf name content old refresh m (in_force r) =
    (find name r.files ≡ some content) × (refresh (record m { files = r.files }) ≡ some r)

abbrev first_byte : List Bytes → ℕ
first_byte [] = 0
first_byte ([] ∷ l) = 0
first_byte ((c ∷ s) ∷ l) = c

failed-ne : (desc : Bytes) → failed desc ≢ succeeded []
unfolding failed succeeded
failed-ne desc e = omega (arith, ap first_byte e)

common_refreshed-files :
    (env : HandlerEnv) (a b : Manager) → common_refreshed env a ≡ some b → b.files ≡ a.files
unfolding common_refreshed with_config
common_refreshed-files env a b e = ground arith

pub sites_refreshed-files :
    (env : HandlerEnv) (a b : Manager) → sites_refreshed env a ≡ some b → b.files ≡ a.files
unfolding sites_refreshed with_config
sites_refreshed-files env a b e = ground arith

module _ (env : HandlerEnv) (name content old : Bytes) (refresh : Manager → Option Manager)
    (keeps : (a b : Manager) → refresh a ≡ some b → b.files ≡ a.files)
    (restored : env.restored ≡ true) (m : Manager) where
  given_back :
      (files : Files)
      → find (bak name) files ≡ some old
      → find name (give_back env name (record m { files = files })).files ≡ some old
  unfolding give_back
  given_back files kept = rw restored (cp_file-copied (bak name) name old files kept)

  refresh_or_back-RewriteOf :
      (files : Files) (o : Option Manager)
      → find (bak name) files ≡ some old
      → find name files ≡ some content
      → refresh (record m { files = files }) ≡ o
      → RewriteOf name content old refresh m
          (refresh_or_back env name (record m { files = files }) o)
  unfolding refresh_or_back give_back
  refresh_or_back-RewriteOf files none kept new e = (given_back files kept, refl)
  refresh_or_back-RewriteOf files (some m') kept new e =
      let same : m'.files ≡ files = keeps (record m { files = files }) m' e in
      (ap (find name) same ∙ new, ap (λ f. refresh (record m { files = f })) same ∙ e)

  pub rewrite_cfg-RewriteOf :
      find (bak name) m.files ≡ some old
      → RewriteOf name content old refresh m (rewrite_cfg env name refresh content m)
  unfolding rewrite_cfg give_back
  rewrite_cfg-RewriteOf backup =
      let wrote = write_whole_file_content env.write name content m.files in
      let result = write-result env.write name content m.files in
      let kept : find (bak name) wrote.1 ≡ some old = result.0 ∙ backup in
      each_way (RewriteOf name content old refresh m) (not wrote.0)
        (λ e. (given_back wrote.1 kept, refl))
        (λ e.
          refresh_or_back-RewriteOf wrote.1 (refresh (record m { files = wrote.1 })) kept
            (result.1 (ground arith)) refl)

pub with_backup-bak :
    (env : HandlerEnv) (name old : Bytes) (m : Manager)
    → env.backed_up ≡ true
    → find name m.files ≡ some old
    → find (bak name) (with_backup env name m).files ≡ some old
unfolding with_backup
with_backup-bak env name old m backed there =
    rw backed (cp_file-copied name (bak name) old m.files there)

pub with_backup-name :
    (env : HandlerEnv) (name : Bytes) (m : Manager)
    → find name (with_backup env name m).files ≡ find name m.files
unfolding with_backup cp_file
with_backup-name env name m =
    either_way (λ (f : Files). find name f ≡ find name m.files) env.backed_up
      (copied (find name m.files)) refl
  where
    copied : (o : Option Bytes) → find name (cp_content (bak name) o m.files) ≡ find name m.files
    copied none = unfold cp_content in refl
    copied (some v) = unfold cp_content in name-bak-insert name v m.files

-- The same by the response.
abbrev pub UpdateOf :
    Bytes → Bytes → Bytes → (Manager → Option Manager) → Manager → Manager × List Bytes → Type 0
UpdateOf name content old refresh m r =
    ((r.1 ≡ succeeded [])
      × (find name r.0.files ≡ some content)
      × (refresh (record m { files = r.0.files }) ≡ some r.0))
    ⊎ ((r.1 ≢ succeeded []) × (find name r.0.files ≡ some old) × (r.0.daemon ≡ m.daemon))

respond-UpdateOf :
    (name desc content old : Bytes) (refresh : Manager → Option Manager) (m : Manager) (r : Rewrite)
    → RewriteOf name content old refresh m r
    → UpdateOf name content old refresh m (respond desc r)
unfolding respond
respond-UpdateOf name desc content old refresh m (not_written r) h = inr (failed-ne _, h.0, h.1)
respond-UpdateOf name desc content old refresh m (refused r) h = inr (failed-ne desc, h.0, h.1)
respond-UpdateOf name desc content old refresh m (in_force r) h = inl (refl, h.0, h.1)

pub cfg_refreshed-files :
    (env : HandlerEnv) (p : CfgPart) (a b : Manager)
    → cfg_refreshed env p a ≡ some b
    → b.files ≡ a.files
unfolding cfg_refreshed
cfg_refreshed-files env common_part a b e = common_refreshed-files env a b e
cfg_refreshed-files env site_part a b e = sites_refreshed-files env a b e

-- Where the old file is there and can be copied to its backup and back, a new content for the
-- common configuration or the sites, whatever becomes of its write, is answered with a success
-- and in place, and the configuration is what a refresh makes of it; or it is answered with a
-- failure, the old content is in place, and the flags, queues, configuration and connections are
-- as they were.
pub update_part-atomic :
    (env : HandlerEnv) (p : CfgPart) (content old : Bytes) (m : Manager)
    → env.restored ≡ true
    → env.backed_up ≡ true
    → find (cfg_path env p) m.files ≡ some old
    → UpdateOf (cfg_path env p) content old (cfg_refreshed env p) m (update_part env p content m)
unfolding update_part with_backup
update_part-atomic env p content old m restored backed there =
    let name = cfg_path env p in
    let saved = with_backup env name m in
    respond-UpdateOf name (refusal p) content old (cfg_refreshed env p) m
      (rewrite_cfg env name (cfg_refreshed env p) content saved)
      (rewrite_cfg-RewriteOf env name content old (cfg_refreshed env p) (cfg_refreshed-files env p)
        restored saved (with_backup-bak env name old m backed there))
