-- ===== src/Queue/Check/Freshness.antt =====
-- sharelib/QueueMng.cpp: which of two duties for one file wins.
use octopusd.Prelude.{
  ℕ, ◌+◌, ◌≡◌, ◌≢◌, ◌⊎◌, ◌∙◌, ap, refl, some, Bool, true, false, ◌&&◌, ◌||◌, [], ◌∷◌, arith, inl,
  inr, ==-false, if◌then◌else◌,
}
use octopusd.Prelude.Bytes.{bytes_lt}
use octopusd.Prelude.Map.{Map, insert, find, find-insert, nat_key}
use octopusd.Queue.{QueueMng, RecvingDuty, SendDuty, giveup}
use octopusd.Queue.Check.Exclusive.{check-recving_q}
use octopusd.Queue.Check.{
  is_rival, Verdict, older, fresh, replaces_recving, replaces_sending, scan_recving, scan_sending,
  entered, count_recv, count_work, check_sending, check,
}

-- A duty of another thread, in its normal state and for the same file, that was sent later.
unfoldable pub newer_recving : ℕ → RecvingDuty → Map ℕ RecvingDuty → Bool
unfolding is_rival
newer_recving me d [] = false
newer_recving me d ((t, r) ∷ m) =
    (is_rival me d t r.state r.site_name r.dest_path_file && bytes_lt d.sended_time r.sended_time)
    || newer_recving me d m

unfoldable pub newer_sending : ℕ → RecvingDuty → Map ℕ SendDuty → Bool
unfolding is_rival
newer_sending me d [] = false
newer_sending me d ((t, s) ∷ m) =
    (is_rival me d t s.state s.site_name s.dest_path_file && bytes_lt d.sended_time s.sended_time)
    || newer_sending me d m

-- How many duties of other threads for the same file are being sent in their normal state.
unfoldable pub sending_rivals : ℕ → RecvingDuty → Map ℕ SendDuty → ℕ
unfolding is_rival
sending_rivals me d [] = 0
sending_rivals me d ((t, s) ∷ m) =
    (if is_rival me d t s.state s.site_name s.dest_path_file then 1 else 0) + sending_rivals me d m

module _ (me : ℕ) (d : RecvingDuty) where
  scan_recving-older :
      (m : Map ℕ RecvingDuty)
      → (scan_recving me d m).0 ≡ older
      → newer_recving me d (scan_recving me d m).1 ≡ true
  unfolding scan_recving newer_recving
  scan_recving-older [] h = cc
  scan_recving-older ((t, r) ∷ m) h = ground (arith, scan_recving-older m)

  scan_sending-older :
      (v : Verdict) (m : Map ℕ SendDuty)
      → v ≢ older
      → (scan_sending v me d m).0 ≡ older
      → newer_sending me d (scan_sending v me d m).1 ≡ true
  unfolding scan_sending newer_sending
  scan_sending-older v [] w h = absurd (w h)
  scan_sending-older v ((t, s) ∷ m) w h =
      ground (arith, scan_sending-older v m, scan_sending-older replaces_sending m)

  scan_sending_clears :
      (v : Verdict) (m : Map ℕ SendDuty)
      → (scan_sending v me d m).0 ≢ older
      → sending_rivals me d (scan_sending v me d m).1 ≡ 0
  unfolding scan_sending sending_rivals
  scan_sending_clears v [] h = refl
  scan_sending_clears v ((t, s) ∷ m) h =
      ground (arith, scan_sending_clears v m, scan_sending_clears replaces_sending m)

  newer_recving-insert :
      (x : RecvingDuty) (m : Map ℕ RecvingDuty)
      → newer_recving me d (insert me x m) ≡ newer_recving me d m
  unfolding newer_recving insert
  newer_recving-insert x [] = ground arith
  newer_recving-insert x ((t, r) ∷ m) = ground (arith, newer_recving-insert x m)

  find-enter : (x : RecvingDuty) (m : Map ℕ RecvingDuty) → find me (insert me x m) ≡ some x
  find-enter x m = rw (find-insert me me x m) (ground arith)

  check_sending-older :
      (v : Verdict) (q : QueueMng)
      → (v ≡ older → newer_recving me d q.recving_q ≡ true)
      → (check_sending me d v q).0 ≡ older
      → (newer_recving me d (check_sending me d v q).1.recving_q ≡ true)
        ⊎ (newer_sending me d (check_sending me d v q).1.sending_q ≡ true)
  unfolding check_sending
  check_sending-older older q seen h =
      inl (newer_recving-insert (record d { state = giveup }) q.recving_q ∙ seen refl)
  check_sending-older replaces_recving q seen h = cc
  check_sending-older replaces_sending q seen h = cc
  check_sending-older fresh q seen h =
      inr (ground (arith, scan_sending-older fresh q.sending_q (λ e. cc)))

  check_sending_clears :
      (v : Verdict) (q : QueueMng)
      → q.config.com_cfg.distribute_flag ≢ 0
      → (check_sending me d v q).0 ≢ older
      → (check_sending me d v q).0 ≢ replaces_recving
      → v ≢ replaces_sending
      → sending_rivals me d (check_sending me d v q).1.sending_q ≡ 0
  unfolding check_sending
  check_sending_clears older q on kept h k = absurd (kept refl)
  check_sending_clears replaces_recving q on kept h k = absurd (h refl)
  check_sending_clears replaces_sending q on kept h k = absurd (k refl)
  check_sending_clears fresh q on kept h k =
      rw (==-false on) (scan_sending_clears fresh q.sending_q (rw (==-false on) at kept))

  count_recv-keeps :
      (t : ℕ) (q : QueueMng)
      → ((count_recv t q).config ≡ q.config) × ((count_recv t q).sending_q ≡ q.sending_q)
  unfolding count_recv
  count_recv-keeps t q = ground arith

find-check :
    (me : ℕ) (d : RecvingDuty) (q : QueueMng)
    → find me (check me d q).1.recving_q ≡ some (entered (check me d q).0 d)
find-check me d q = rw (check-recving_q me d q) (find-enter me d _ _)

entered_kept : (v : Verdict) (d : RecvingDuty) → v ≢ older → entered v d ≡ d
unfolding entered
entered_kept older d h = absurd (h refl)
entered_kept fresh d h = refl
entered_kept replaces_recving d h = refl
entered_kept replaces_sending d h = refl

entered_given_up :
    (v : Verdict) (d : RecvingDuty) → v ≡ older → entered v d ≡ record d { state = giveup }
unfolding entered
entered_given_up older d h = refl
entered_given_up fresh d h = cc
entered_given_up replaces_recving d h = cc
entered_given_up replaces_sending d h = cc

check-newer :
    (me : ℕ) (d : RecvingDuty) (q : QueueMng)
    → (check me d q).0 ≡ older
    → (newer_recving me d (check me d q).1.recving_q ≡ true)
      ⊎ (newer_sending me d (check me d q).1.sending_q ≡ true)
unfolding check
check-newer me d q =
    check_sending-older me d (scan_recving me d q.recving_q).0 _
      (scan_recving-older me d q.recving_q)

-- A duty is given up only for a newer one: another thread receives or sends the same file of the
-- same site, in its normal state, with a later time. The thread's own entry is then given up.
pub check_gives_up :
    (me : ℕ) (d : RecvingDuty) (q : QueueMng)
    → (check me d q).0 ≡ older
    → (find me (check me d q).1.recving_q ≡ some (record d { state = giveup }))
      × ((newer_recving me d (check me d q).1.recving_q ≡ true)
          ⊎ (newer_sending me d (check me d q).1.sending_q ≡ true))
check_gives_up me d q h =
    (find-check me d q ∙ ap some (entered_given_up _ d h), check-newer me d q h)

scan-ne-sending :
    (me : ℕ) (d : RecvingDuty) (m : Map ℕ RecvingDuty) → (scan_recving me d m).0 ≢ replaces_sending
unfolding scan_recving
scan-ne-sending me d [] h = cc
scan-ne-sending me d ((t, r) ∷ m) h = ground (arith, scan-ne-sending me d m)

check-clears :
    (me : ℕ) (d : RecvingDuty) (q : QueueMng)
    → q.config.com_cfg.distribute_flag ≢ 0
    → (check me d q).0 ≢ older
    → (check me d q).0 ≢ replaces_recving
    → sending_rivals me d (check me d q).1.sending_q ≡ 0
unfolding check
check-clears me d q on kept h =
    check_sending_clears me d (scan_recving me d q.recving_q).0 _
      (ground (
        arith,
        count_recv-keeps me d d.protocol_type
            (record q { recv_work_time = count_work me q.recv_work_time }),
      ))
      kept h (scan-ne-sending me d q.recving_q)

-- Where duties are passed on, a duty that is dealt with, and that has no rival among the received
-- duties, is entered as it is, and no other thread goes on sending that file of that site.
pub check_accepts :
    (me : ℕ) (d : RecvingDuty) (q : QueueMng)
    → q.config.com_cfg.distribute_flag ≢ 0
    → (check me d q).0 ≢ older
    → (check me d q).0 ≢ replaces_recving
    → (find me (check me d q).1.recving_q ≡ some d)
      × (sending_rivals me d (check me d q).1.sending_q ≡ 0)
check_accepts me d q on kept h =
    (find-check me d q ∙ ap some (entered_kept _ d kept), check-clears me d q on kept h)
