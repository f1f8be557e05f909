-- ===== src/Queue/Reload/Stale.antt =====
-- sharelib/QueueMng.cpp: `getFailDutyFFile2DutyQ` checks a duty in with its local path for its
-- place.
use mathlib.Core.Path.{subst}
use octopusd.Prelude.{ℕ, ◌≡◌, ◌⊎◌, refl, sym, ap, ◌∙◌, false, [], ◌∷◌, arith, ◌==◌, All, either_way}
use octopusd.Prelude.Bytes.{Bytes, bytes_eq}
use octopusd.Prelude.Map.{Map}
use octopusd.Queue.{QueueMng, RecvingDuty, SendDuty, protocol_upload_file, protocol_pack_file}
use octopusd.Queue.Check.{
  Verdict, fresh, check, is_rival, scan_recving, scan_sending, check_sending, count_recv,
  count_work,
}
use octopusd.Queue.Put.{direct, put_duty2send_q}
use octopusd.Queue.Reload.{ReloadEnv, is_newer, reset_duty, recheck_duty, is_older, reload_record}
use octopusd.Queue.Reload.Saved.{reload_record-put}

-- No entry is for a file of the path.
abbrev pub RecvsElsewhere : Bytes → Map ℕ RecvingDuty → Type 0
RecvsElsewhere path = All (λ (e : ℕ × RecvingDuty). bytes_eq path e.1.dest_path_file ≡ false)

abbrev pub SendsElsewhere : Bytes → Map ℕ SendDuty → Type 0
SendsElsewhere path = All (λ (e : ℕ × SendDuty). bytes_eq path e.1.dest_path_file ≡ false)

scan_recving-fresh :
    (me : ℕ) (d : RecvingDuty) (m : Map ℕ RecvingDuty)
    → RecvsElsewhere d.dest_path_file m
    → (scan_recving me d m).0 ≡ fresh
unfolding scan_recving is_rival
scan_recving-fresh me d [] h = refl
scan_recving-fresh me d ((t, r) ∷ m) h = ground (arith, scan_recving-fresh me d m h.1)

scan_sending-fresh :
    (me : ℕ) (d : RecvingDuty) (m : Map ℕ SendDuty)
    → SendsElsewhere d.dest_path_file m
    → (scan_sending fresh me d m).0 ≡ fresh
unfolding scan_sending is_rival
scan_sending-fresh me d [] h = refl
scan_sending-fresh me d ((t, s) ∷ m) h = ground (arith, scan_sending-fresh me d m h.1)

count_recv-sending_q : (t : ℕ) (q : QueueMng) → (count_recv t q).sending_q ≡ q.sending_q
unfolding count_recv
count_recv-sending_q t q = ground arith

check_sending-fresh :
    (me : ℕ) (d : RecvingDuty) (q : QueueMng)
    → SendsElsewhere d.dest_path_file q.sending_q
    → (check_sending me d fresh q).0 ≡ fresh
unfolding check_sending
check_sending-fresh me d q h =
    either_way (λ (r : Verdict × QueueMng). r.0 ≡ fresh) (q.config.com_cfg.distribute_flag == 0)
      refl (scan_sending-fresh me d q.sending_q h)

check-fresh :
    (me : ℕ) (d : RecvingDuty) (q : QueueMng)
    → RecvsElsewhere d.dest_path_file q.recving_q
    → SendsElsewhere d.dest_path_file q.sending_q
    → (check me d q).0 ≡ fresh
unfolding check
check-fresh me d q recvs sends =
    let q0 = record q { recv_work_time = count_work me q.recv_work_time } in
    let counted = count_recv d.protocol_type q0 in
    let q1 = record counted { recving_q = (scan_recving me d q.recving_q).1 } in
    let still : SendsElsewhere d.dest_path_file q1.sending_q =
      subst (SendsElsewhere d.dest_path_file) (sym (count_recv-sending_q d.protocol_type q0))
        sends in
    ap (λ v. (check_sending me d v q1).0) (scan_recving-fresh me d q.recving_q recvs)
    ∙ check_sending-fresh me d q1 still

-- A failed upload whose local file did not change is put again however late the duties are that
-- are received or sent for its place, where no thread has a duty for a place that is spelled as
-- its local path: that is the only place it is compared at.
pub reload_record_stale :
    (env : ReloadEnv) (me : ℕ) (d : SendDuty) (q : QueueMng)
    → (d.protocol_type ≡ protocol_upload_file) ⊎ (d.protocol_type ≡ protocol_pack_file)
    → is_newer (env.modified d.local_path_file) d.local_time ≡ false
    → RecvsElsewhere d.local_path_file q.recving_q
    → SendsElsewhere d.local_path_file q.sending_q
    → reload_record env me d q
      ≡ (put_duty2send_q env.io me (reset_duty d) direct 0 (check me (recheck_duty d) q).1).1
unfolding is_older recheck_duty
reload_record_stale env me d q upload kept recvs sends =
    reload_record-put env me d q upload kept
      (ap is_older (check-fresh me (recheck_duty d) q recvs sends))
