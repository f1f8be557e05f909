-- ===== src/Queue/Check/Exclusive.antt =====
-- sharelib/QueueMng.cpp: the duties in their normal state that are being received for one file of
-- one site, behind a check.
use Prim.Native.Nat.{ℕ, ◌+◌, ◌≤◌}
use octopusd.Prelude.{
  ◌≡◌, ◌≢◌, ◌⊎◌, inl, inr, refl, Bool, ◌&&◌, [], ◌∷◌, ◌==◌, if◌then◌else◌, arith,
}
use octopusd.Prelude.Bytes.{Bytes, bytes_eq, bytes_eq_iff}
use octopusd.Prelude.Map.{Map, insert, nat_key}
use octopusd.Prelude.Map.Order.{Above, IsSorted, insert-IsSorted}
use octopusd.Queue.{QueueMng, RecvingDuty, over}
use octopusd.Queue.Check.{
  is_normal, is_rival, Verdict, older, fresh, replaces_recving, scan_recving, entered,
  check_sending, count_recv, check,
}

-- A duty in its normal state for this file of this site.
is_active : Bytes → Bytes → RecvingDuty → Bool
unfolding is_normal
is_active site path r =
    is_normal r.state && (bytes_eq site r.site_name && bytes_eq path r.dest_path_file)

-- The number of such duties.
unfoldable pub active : Bytes → Bytes → Map ℕ RecvingDuty → ℕ
unfolding is_active
active site path [] = 0
active site path ((t, r) ∷ m) = (if is_active site path r then 1 else 0) + active site path m

-- The number of those of other threads.
others : ℕ → Bytes → Bytes → Map ℕ RecvingDuty → ℕ
unfolding is_active
others me site path [] = 0
others me site path ((t, r) ∷ m) =
    (if t == me then 0 else if is_active site path r then 1 else 0) + others me site path m

others-le-active :
    (me : ℕ) (site path : Bytes) (m : Map ℕ RecvingDuty)
    → others me site path m ≤ active site path m
unfolding others active
others-le-active me site path [] = omega arith
others-le-active me site path ((t, r) ∷ m) = ground (arith, others-le-active me site path m)

active-Above :
    (me b : ℕ) (site path : Bytes) (m : Map ℕ RecvingDuty)
    → me ≤ b
    → Above b m
    → others me site path m ≡ active site path m
unfolding others active
active-Above me b site path [] h s = refl
active-Above me b site path ((t, r) ∷ m) h s = ground (arith, active-Above me t site path m)

weight : Bytes → Bytes → RecvingDuty → ℕ
unfolding is_active
weight site path r = if is_active site path r then 1 else 0

-- An entry of a thread takes the place of the one it had.
active-insert :
    (me : ℕ) (d : RecvingDuty) (site path : Bytes) (m : Map ℕ RecvingDuty)
    → IsSorted m
    → active site path (insert me d m) ≡ weight site path d + others me site path m
unfolding active others weight insert
active-insert me d site path [] s = ground arith
active-insert me d site path ((t, r) ∷ []) s = ground arith
active-insert me d site path ((t, r) ∷ (u, r') ∷ m) s =
    ground
      (arith, active-insert me d site path ((u, r') ∷ m), active-Above me t site path ((u, r') ∷ m))

weight_over :
    (r : RecvingDuty) (site path : Bytes) → weight site path (record r { state = over }) ≡ 0
unfolding weight
weight_over r site path = ground arith

-- An entry that is over makes no duty active.
pub active-insert_over :
    (t : ℕ) (r : RecvingDuty) (site path : Bytes) (m : Map ℕ RecvingDuty)
    → IsSorted m
    → active site path (insert t (record r { state = over }) m) ≤ active site path m
active-insert_over t r site path m s = omega (
  arith,
  active-insert t (record r { state = over }) site path m s,
  weight_over r site path,
  others-le-active t site path m,
)

module _ (me : ℕ) (d : RecvingDuty) where
  scan-Above : (b : ℕ) (m : Map ℕ RecvingDuty) → Above b m → Above b (scan_recving me d m).1
  unfolding scan_recving
  scan-Above b [] s = tt
  scan-Above b ((t, r) ∷ m) s = ground (arith, scan-Above t m)

  scan-IsSorted : (m : Map ℕ RecvingDuty) → IsSorted m → IsSorted (scan_recving me d m).1
  unfolding scan_recving
  scan-IsSorted [] s = tt
  scan-IsSorted ((t, r) ∷ m) s = ground (arith, scan-Above t m)

  -- The loop makes no duty active.
  others-scan-le :
      (site path : Bytes) (m : Map ℕ RecvingDuty)
      → others me site path (scan_recving me d m).1 ≤ others me site path m
  unfolding scan_recving others is_rival
  others-scan-le site path [] = omega arith
  others-scan-le site path ((t, r) ∷ m) = ground (arith, others-scan-le site path m)

  -- If the loop finds no rival, no other thread has the file.
  others-scan_fresh :
      (m : Map ℕ RecvingDuty)
      → (scan_recving me d m).0 ≡ fresh
      → others me d.site_name d.dest_path_file (scan_recving me d m).1 ≡ 0
  unfolding scan_recving others is_rival
  others-scan_fresh [] h = refl
  others-scan_fresh ((t, r) ∷ m) h = ground (arith, others-scan_fresh m)

  -- If it replaces a rival, that one is no more active.
  others-scan_replaces :
      (m : Map ℕ RecvingDuty)
      → (scan_recving me d m).0 ≡ replaces_recving
      → others me d.site_name d.dest_path_file (scan_recving me d m).1 + 1
        ≡ others me d.site_name d.dest_path_file m
  unfolding scan_recving others is_rival
  others-scan_replaces [] h = cc
  others-scan_replaces ((t, r) ∷ m) h = ground (arith, others-scan_replaces m)

  scan-ne-replaces_sending :
      (m : Map ℕ RecvingDuty) → (scan_recving me d m).0 ≡ Verdict.replaces_sending → ⊥
  unfolding scan_recving
  scan-ne-replaces_sending [] h = cc
  scan-ne-replaces_sending ((t, r) ∷ m) h = ground (arith, scan-ne-replaces_sending m)

  -- Another thread's duty for this file is left only if the duty itself is given up.
  others-scan_target :
      (m : Map ℕ RecvingDuty)
      → others me d.site_name d.dest_path_file m ≤ 1
      → ((scan_recving me d m).0 ≡ older → ⊥)
      → others me d.site_name d.dest_path_file (scan_recving me d m).1 ≡ 0
  others-scan_target m h kept = cases (scan_recving me d m).0 refl
    where
      cases :
          (v : Verdict)
          → (scan_recving me d m).0 ≡ v
          → others me d.site_name d.dest_path_file (scan_recving me d m).1 ≡ 0
      cases older e = absurd (kept e)
      cases fresh e = others-scan_fresh m e
      cases replaces_recving e = omega (arith, others-scan_replaces m e)
      cases Verdict.replaces_sending e = absurd (scan-ne-replaces_sending m e)

-- The duties that are being received are in the order of their threads, and of those for one
-- file of one site at most one is in its normal state.
pub record IsExclusive (q : QueueMng) : Type 0 where
  pub sorted : IsSorted q.recving_q
  pub unique : (site path : Bytes) → active site path q.recving_q ≤ 1

-- What a duty that is entered as normal shows of the verdict and of the file.
weight-entered :
    (v : Verdict) (d : RecvingDuty) (site path : Bytes)
    → (weight site path (entered v d) ≡ 0)
      ⊎ ((weight site path (entered v d) ≡ 1)
          × (v ≢ older)
          × (site ≡ d.site_name)
          × (path ≡ d.dest_path_file))
unfolding weight entered
weight-entered v d site path =
    ground (arith, bytes_eq_iff site d.site_name, bytes_eq_iff path d.dest_path_file)

count_recv-recving_q : (t : ℕ) (q : QueueMng) → (count_recv t q).recving_q ≡ q.recving_q
unfolding count_recv
count_recv-recving_q t q = ground arith

check_sending-recving_q :
    (me : ℕ) (d : RecvingDuty) (v : Verdict) (q : QueueMng)
    → (check_sending me d v q).1.recving_q
      ≡ insert me (entered (check_sending me d v q).0 d) q.recving_q
unfolding check_sending
check_sending-recving_q me d older q = refl
check_sending-recving_q me d replaces_recving q = refl
check_sending-recving_q me d Verdict.replaces_sending q = refl
check_sending-recving_q me d fresh q = ground arith

check_sending-older :
    (me : ℕ) (d : RecvingDuty) (v : Verdict) (q : QueueMng)
    → v ≡ older
    → (check_sending me d v q).0 ≡ older
unfolding check_sending
check_sending-older me d older q e = refl
check_sending-older me d fresh q e = cc
check_sending-older me d replaces_recving q e = cc
check_sending-older me d Verdict.replaces_sending q e = cc

-- What `check` makes of the duties that are being received.
pub check-recving_q :
    (me : ℕ) (d : RecvingDuty) (q : QueueMng)
    → (check me d q).1.recving_q
      ≡ insert me (entered (check me d q).0 d) (scan_recving me d q.recving_q).1
unfolding check
check-recving_q me d q = check_sending-recving_q me d (scan_recving me d q.recving_q).0 _

check-older :
    (me : ℕ) (d : RecvingDuty) (q : QueueMng)
    → (scan_recving me d q.recving_q).0 ≡ older
    → (check me d q).0 ≡ older
unfolding check
check-older me d q e = check_sending-older me d _ _ e

active-check :
    (me : ℕ) (d : RecvingDuty) (q : QueueMng)
    → IsExclusive q
    → (site path : Bytes)
    → active site path (insert me (entered (check me d q).0 d) (scan_recving me d q.recving_q).1)
      ≤ 1
active-check me d q v site path =
    let own =
      active-insert me (entered (check me d q).0 d) site path _ (scan-IsSorted me d _ v.sorted) in
    elim (weight-entered (check me d q).0 d site path) [
      | inl light ↦ omega (
        arith,
        own,
        light,
        others-scan-le me d site path q.recving_q,
        others-le-active me site path q.recving_q,
        v.unique site path,
      )
      | inr (heavy, newer, here, there) ↦
          let clear =
            others-scan_target me d q.recving_q
              (omega (
                arith,
                others-le-active me d.site_name d.dest_path_file q.recving_q,
                v.unique d.site_name d.dest_path_file,
              ))
              (λ e. newer (check-older me d q e)) in
          ground (arith, own, heavy, here, there, clear)
    ]

-- If the table of received duties has rising keys and at most one duty in its normal state for
-- each file of each site, both hold behind a check of any duty by any thread.
pub check-IsExclusive :
    (me : ℕ) (d : RecvingDuty) (q : QueueMng) → IsExclusive q → IsExclusive (check me d q).1
check-IsExclusive me d q v = record {
  sorted = rw (check-recving_q me d q) (insert-IsSorted me _ _ (scan-IsSorted me d _ v.sorted));
  unique = λ site path. rw (check-recving_q me d q) (active-check me d q v site path);
}
