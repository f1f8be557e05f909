-- ===== src/Queue/Reload/Calls.antt =====
-- sharelib/QueueMng.cpp: the calls by which `getFailDutyFFile2DutyQ` puts failed duties again, and
-- what it makes of a duty that `putFailDuty2File` has written.
use octopusd.Prelude.{
  ℕ, ◌+◌, ◌≡◌, refl, sym, ap, ◌∙◌, true, false, List, [], ◌∷◌, ◌++◌, Option, none, some, each_way,
}
use octopusd.Prelude.Bytes.{Bytes}
use octopusd.Queue.{QueueMng, SendDuty}
use octopusd.Queue.Check.{check}
use octopusd.Queue.Put.{direct}
use octopusd.Queue.Run.{Call, checks, puts, run, run-append, step}
use octopusd.Queue.Reload.{
  ReloadEnv, records_of, take_file, file_of, is_newer, reset_duty, recheck_duty, is_older,
  put_checked, reload_found, reload_record, reload_records, get_fail_duty_f_file2duty_q,
}

-- The calls for one record: none where it is about no file, and none where that file was modified
-- behind the duty; else a check where a later duty is on its way, and a check and a put where none
-- is. Each case names its conditions, and no two hold at once.
pub data RecordCalls (env : ReloadEnv) (me : ℕ) (d : SendDuty) (q : QueueMng)
    : List Call → Type 0 where
  no_file : file_of env q.config d ≡ none → RecordCalls env me d q []
  passed_over :
      (path : Bytes)
      → file_of env q.config d ≡ some path
      → is_newer (env.modified path) d.local_time ≡ true
      → RecordCalls env me d q []
  given_up :
      (path : Bytes)
      → file_of env q.config d ≡ some path
      → is_newer (env.modified path) d.local_time ≡ false
      → is_older (check me (recheck_duty d) q).0 ≡ true
      → RecordCalls env me d q (checks me (recheck_duty d) ∷ [])
  put_again :
      (path : Bytes)
      → file_of env q.config d ≡ some path
      → is_newer (env.modified path) d.local_time ≡ false
      → is_older (check me (recheck_duty d) q).0 ≡ false
      → RecordCalls env me d q
          (checks me (recheck_duty d) ∷ puts env.io me (reset_duty d) direct 0 ∷ [])

-- The calls for a file, with those of the other threads before each record.
pub data FileCalls (env : ReloadEnv) (me : ℕ)
    : ℕ → List SendDuty → QueueMng → List Call → Type 0 where
  no_more : (k : ℕ) (q : QueueMng) → FileCalls env me k [] q []
  one_more :
      (k : ℕ) (d : SendDuty) (l : List SendDuty) (q : QueueMng) (cs rest : List Call)
      → RecordCalls env me d (run (env.meanwhile k) q) cs
      → FileCalls env me (k + 1) l (run cs (run (env.meanwhile k) q)) rest
      → FileCalls env me k (d ∷ l) q (env.meanwhile k ++ (cs ++ rest))

abbrev RecordOf : ReloadEnv → ℕ → SendDuty → QueueMng → QueueMng → Type 0
RecordOf env me d q q' = (cs : List Call) × RecordCalls env me d q cs × (q' ≡ run cs q)

put_checked-RecordOf :
    (env : ReloadEnv) (me : ℕ) (d : SendDuty) (q : QueueMng) (path : Bytes)
    → file_of env q.config d ≡ some path
    → is_newer (env.modified path) d.local_time ≡ false
    → RecordOf env me d q (put_checked env me d (check me (recheck_duty d) q))
unfolding put_checked run step
put_checked-RecordOf env me d q path found kept =
    each_way (RecordOf env me d q) (is_older (check me (recheck_duty d) q).0)
      (λ late. (_, given_up path found kept late, refl))
      (λ fresh. (_, put_again path found kept fresh, refl))

reload_found-RecordOf :
    (env : ReloadEnv) (me : ℕ) (d : SendDuty) (q : QueueMng) (o : Option Bytes)
    → file_of env q.config d ≡ o
    → RecordOf env me d q (reload_found env me d q o)
unfolding reload_found run
reload_found-RecordOf env me d q none found = ([], no_file found, refl)
reload_found-RecordOf env me d q (some path) found =
    each_way (RecordOf env me d q) (is_newer (env.modified path) d.local_time)
      (λ newer. ([], passed_over path found newer, refl))
      (λ kept. put_checked-RecordOf env me d q path found kept)

reload_record-RecordOf :
    (env : ReloadEnv) (me : ℕ) (d : SendDuty) (q : QueueMng)
    → RecordOf env me d q (reload_record env me d q)
unfolding reload_record
reload_record-RecordOf env me d q = reload_found-RecordOf env me d q (file_of env q.config d) refl

pub reload_records-FileCalls :
    (env : ReloadEnv) (me k : ℕ) (l : List SendDuty) (q : QueueMng)
    → (cs : List Call) × FileCalls env me k l q cs × (reload_records env me k l q ≡ run cs q)
unfolding reload_records
reload_records-FileCalls env me k [] q = ([], no_more k q, unfold run in refl)
reload_records-FileCalls env me k (d ∷ l) q =
    let now = run (env.meanwhile k) q in
    let one = reload_record-RecordOf env me d now in
    let all = reload_records-FileCalls env me (k + 1) l (run one.0 now) in
    (
      env.meanwhile k ++ (one.0 ++ all.0),
      one_more k d l q one.0 all.0 one.1 all.1,
      ap (reload_records env me (k + 1) l) one.2
          ∙ all.2
          ∙ sym (run-append (env.meanwhile k) (one.0 ++ all.0) q ∙ run-append one.0 all.0 now),
    )

-- Reloading a file that is there and opens is, for the queues, a sequence of calls behind taking
-- the file away: for each of its records in their order, those of the other threads, and then
-- nothing exactly where the record is about no file or its file was modified behind the duty; else
-- a check, and exactly where that finds no later duty a direct put of the duty in its normal state
-- and without failures.
pub get_fail_duty_f_file2duty_q-FileCalls :
    (env : ReloadEnv) (me n : ℕ) (q : QueueMng)
    → env.is_moved ≡ true
    → env.opened ≡ true
    → (cs : List Call) × FileCalls env me 0 (records_of n q.disk.records) (take_file n q) cs
      × (get_fail_duty_f_file2duty_q env me n q ≡ run cs (take_file n q))
unfolding get_fail_duty_f_file2duty_q
get_fail_duty_f_file2duty_q-FileCalls env me n q there opened =
    simp (there, opened)
      (reload_records-FileCalls env me 0 (records_of n q.disk.records) (take_file n q))
