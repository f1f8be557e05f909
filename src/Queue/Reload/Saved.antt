-- ===== src/Queue/Reload/Saved.antt =====
-- sharelib/QueueMng.cpp: what `getFailDutyFFile2DutyQ` makes of a duty that `putFailDuty2File` wrote.
use octopusd.Prelude.{
  ℕ, ◌≡◌, ◌≢◌, ◌⊎◌, inl, inr, refl, sym, ap, ◌∙◌, true, false, List, [], ◌∷◌, ◌++◌, some, arith,
}
use octopusd.Queue.{
  DutyState, QueueMng, SendDuty, protocol_upload_file, protocol_pack_file, protocol_del_file,
}
use octopusd.Queue.Check.{check}
use octopusd.Queue.FailLog.{FailIo, put_fail_duty2file}
use octopusd.Queue.FailLog.Rotation.{init-put_fail_duty2file}
use octopusd.Queue.Put.{direct, put_duty2send_q}
use octopusd.Queue.Run.{run}
use octopusd.Queue.Reload.{
  ReloadEnv, records_of, other_records, take_file, is_reloadable, file_of, is_newer, reset_duty,
  recheck_duty, is_older, put_checked, reload_found, reload_record, reload_records,
  get_fail_duty_f_file2duty_q,
}

abbrev Records : Type 0
Records = List (ℕ × SendDuty)

records_of-saved :
    (n : ℕ) (d : SendDuty) (l : Records)
    → records_of n l ≡ []
    → records_of n (l ++ (n, d) ∷ []) ≡ d ∷ []
unfolding records_of
records_of-saved n d [] h = ground arith
records_of-saved n d ((k, e) ∷ l) h = ground (arith, records_of-saved n d l)

other_records-saved :
    (n : ℕ) (d : SendDuty) (l : Records)
    → records_of n l ≡ []
    → other_records n (l ++ (n, d) ∷ []) ≡ l
unfolding records_of other_records
other_records-saved n d [] h = ground arith
other_records-saved n d ((k, e) ∷ l) h = ground (arith, other_records-saved n d l)

-- The file of an upload is its local path.
file_of-upload :
    (env : ReloadEnv) (q : QueueMng) (d : SendDuty)
    → (d.protocol_type ≡ protocol_upload_file) ⊎ (d.protocol_type ≡ protocol_pack_file)
    → file_of env q.config d ≡ some d.local_path_file
unfolding file_of is_reloadable
file_of-upload env q d (inl e) = simp e refl
file_of-upload env q d (inr e) = simp e refl

pub reload_record-put :
    (env : ReloadEnv) (me : ℕ) (d : SendDuty) (q : QueueMng)
    → (d.protocol_type ≡ protocol_upload_file) ⊎ (d.protocol_type ≡ protocol_pack_file)
    → is_newer (env.modified d.local_path_file) d.local_time ≡ false
    → is_older (check me (recheck_duty d) q).0 ≡ false
    → reload_record env me d q
      ≡ (put_duty2send_q env.io me (reset_duty d) direct 0 (check me (recheck_duty d) q).1).1
unfolding reload_record reload_found put_checked
reload_record-put env me d q upload kept fresh =
    rw (file_of-upload env q d upload, kept, fresh) refl

reload_only_record :
    (env : ReloadEnv) (me n : ℕ) (d : SendDuty) (q : QueueMng)
    → env.is_moved ≡ true
    → env.opened ≡ true
    → records_of n q.disk.records ≡ d ∷ []
    → get_fail_duty_f_file2duty_q env me n q
      ≡ reload_record env me d (run (env.meanwhile 0) (take_file n q))
unfolding get_fail_duty_f_file2duty_q reload_records
reload_only_record env me n d q there opened only =
    simp (there, opened) (ap (λ l. reload_records env me 0 l (take_file n q)) only)

take_file-records :
    (n : ℕ) (q : QueueMng) → (take_file n q).disk.records ≡ other_records n q.disk.records
unfolding take_file
take_file-records n q = refl

module _ (io : ℕ → FailIo) (d : SendDuty) (q : QueueMng) (env : ReloadEnv) (me n : ℕ)
    (on : q.config.com_cfg.if_fail_log_flag ≢ 0)
    (upload : (d.protocol_type ≡ protocol_upload_file) ⊎ (d.protocol_type ≡ protocol_pack_file))
    (opens : (io q.disk.tries).open_record ≡ true) (writes : (io q.disk.tries).write_record ≡ true)
    (notes : (io q.disk.tries).open_seq ≡ true) (in_file : (put_fail_duty2file io d q).file_seq ≡ n)
    (alone : records_of n q.disk.records ≡ []) (there : env.is_moved ≡ true)
    (opened : env.opened ≡ true)
    (kept : is_newer (env.modified d.local_path_file) d.local_time ≡ false) where
  saved : (put_fail_duty2file io d q).disk.records ≡ q.disk.records ++ (n, d) ∷ []
  saved =
      rw (sym in_file) (init-put_fail_duty2file io d q on (no_deletion upload) opens writes notes).2
    where
      no_deletion :
          (d.protocol_type ≡ protocol_upload_file) ⊎ (d.protocol_type ≡ protocol_pack_file)
          → d.protocol_type ≢ protocol_del_file
      no_deletion u = ground arith

  -- An upload that was written as the only record of a file, where nothing changed its local file
  -- and no later duty is found when it is checked in, is put again by reloading that file, in its
  -- normal state and without failures and otherwise as it was, and its record is gone.
  pub get_fail_duty_f_file2duty_q-put_fail_duty2file :
      is_older
          (check me
            (recheck_duty d)
            (run (env.meanwhile 0) (take_file n (put_fail_duty2file io d q)))).0
        ≡ false
      → (get_fail_duty_f_file2duty_q env me n (put_fail_duty2file io d q)
          ≡ (put_duty2send_q env.io me
              (record d { state = DutyState.normal; nr_of_fail = 0 })
              direct
              0
              (check me
                (recheck_duty d)
                (run (env.meanwhile 0) (take_file n (put_fail_duty2file io d q)))).1).1)
        × ((take_file n (put_fail_duty2file io d q)).disk.records ≡ q.disk.records)
  unfolding reset_duty
  get_fail_duty_f_file2duty_q-put_fail_duty2file fresh =
      let q' = put_fail_duty2file io d q in
      let now = run (env.meanwhile 0) (take_file n q') in
      (
        reload_only_record env me n d q' there opened
              (ap (records_of n) saved ∙ records_of-saved n d q.disk.records alone)
            ∙ reload_record-put env me d now upload kept fresh,
        take_file-records n q'
            ∙ ap (other_records n) saved
            ∙ other_records-saved n d q.disk.records alone,
      )
