-- ===== src/Queue/Reload.antt =====
-- sharelib/QueueMng.cpp: `getFailDutyFFile2DutyQ`, which puts the duties of a file of failed duties
-- again. What the file system answers is an argument, with what `analysePathFile` makes of a path
-- and the calls of the other threads before each record.
use octopusd.Prelude.{
  ℕ, suc, ◌+◌, Bool, true, false, not, ◌||◌, List, [], ◌∷◌, ◌++◌, Option, none, some, ltb, ◌==◌,
  if◌then◌else◌, length,
}
use octopusd.Prelude.Bytes.{Bytes}
use octopusd.Config.{ConfigMng, get_site_root_dir}
use octopusd.Text.Flag.{divideup_str}
use octopusd.Queue.{
  QueueMng, SendDuty, RecvingDuty, Disk, normal, protocol_upload_file, protocol_del_file,
  protocol_mv_file, protocol_cp_file, protocol_pack_file,
}
use octopusd.Queue.Check.{Verdict, older, fresh, replaces_recving, replaces_sending, check}
use octopusd.Queue.FailLog.{FailIo}
use octopusd.Queue.Put.{put_duty2send_q, direct}
use octopusd.Queue.Run.{Call, run}
pub mod Calls
pub mod Saved
pub mod Stale

-- For one file: whether it is there and is moved to failduty.do, whether that opens, the path
-- below a directory, when a file was changed, the calls before each record, and the outcomes of
-- writing failed duties.
pub record ReloadEnv : Type 0 where
  pub is_moved : Bool
  pub opened : Bool
  pub path_below : Bytes → Bytes → Option Bytes
  pub modified : Bytes → Option ℕ
  pub meanwhile : ℕ → List Call
  pub io : ℕ → FailIo

-- The records of a file, and the directory without it.
unfoldable pub records_of : ℕ → List (ℕ × SendDuty) → List SendDuty
records_of n [] = []
records_of n ((k, d) ∷ l) = let rest = records_of n l in if k == n then d ∷ rest else rest

unfoldable pub other_records : ℕ → List (ℕ × SendDuty) → List (ℕ × SendDuty)
other_records n [] = []
other_records n ((k, d) ∷ l) =
    let rest = other_records n l in if k == n then rest else (k, d) ∷ rest

unfoldable pub take_file : ℕ → QueueMng → QueueMng
unfolding other_records
take_file n q =
    let old = q.disk in record q { disk = record old { records = other_records n old.records } }

unfoldable pub is_reloadable : ℕ → Bool
is_reloadable t =
    t == protocol_upload_file
    || (t == protocol_del_file
        || (t == protocol_mv_file || (t == protocol_cp_file || t == protocol_pack_file)))

-- The source of a move or a copy: a site that has a directory, and a path below it.
unfoldable pub source_path : ReloadEnv → ConfigMng → Option (List Bytes) → Option Bytes
unfolding get_site_root_dir
source_path env c (some (site ∷ path ∷ [])) =
    let root = get_site_root_dir c site in
    if length root == 0 then none else env.path_below root path
source_path env c (some parts) = none
source_path env c none = none

-- The file that the duty is about, or `none` where the record is passed over.
unfoldable pub file_of : ReloadEnv → ConfigMng → SendDuty → Option Bytes
unfolding is_reloadable source_path divideup_str
file_of env c d =
    if not (is_reloadable d.protocol_type)
    then none
    else if d.protocol_type == protocol_mv_file || d.protocol_type == protocol_cp_file
    then source_path env c (divideup_str d.local_path_file b':')
    else some d.local_path_file

unfoldable pub is_newer : Option ℕ → ℕ → Bool
is_newer none local_time = false
is_newer (some t) local_time = ltb local_time t

-- The duty as it is put again, and as it is checked in: its local path stands for its place.
unfoldable pub reset_duty : SendDuty → SendDuty
reset_duty d = record d { state = normal; nr_of_fail = 0 }

unfoldable pub recheck_duty : SendDuty → RecvingDuty
recheck_duty d = record {
  state = normal;
  protocol_type = d.protocol_type;
  site_name = d.site_name;
  dest_path_file = d.local_path_file;
  sended_time = d.sended_time;
}

unfoldable pub is_older : Verdict → Bool
is_older older = true
is_older fresh = false
is_older replaces_recving = false
is_older replaces_sending = false

unfoldable pub put_checked : ReloadEnv → ℕ → SendDuty → Verdict × QueueMng → QueueMng
unfolding is_older reset_duty put_duty2send_q
put_checked env me d (v, q) =
    if is_older v then q else (put_duty2send_q env.io me (reset_duty d) direct 0 q).1

unfoldable pub reload_found : ReloadEnv → ℕ → SendDuty → QueueMng → Option Bytes → QueueMng
unfolding is_newer check put_checked recheck_duty
reload_found env me d q none = q
reload_found env me d q (some path) =
    if is_newer (env.modified path) d.local_time
    then q
    else put_checked env me d (check me (recheck_duty d) q)

-- One record.
unfoldable pub reload_record : ReloadEnv → ℕ → SendDuty → QueueMng → QueueMng
unfolding file_of reload_found
reload_record env me d q = reload_found env me d q (file_of env q.config d)

-- The loop over the records, with the number of the next one.
unfoldable pub reload_records : ReloadEnv → ℕ → ℕ → List SendDuty → QueueMng → QueueMng
unfolding reload_record run
reload_records env me k [] q = q
reload_records env me k (d ∷ l) q =
    reload_records env me (k + 1) l (reload_record env me d (run (env.meanwhile k) q))

-- CQueueMng::getFailDutyFFile2DutyQ, by the calling thread and the number of the file.
unfoldable pub get_fail_duty_f_file2duty_q : ReloadEnv → ℕ → ℕ → QueueMng → QueueMng
unfolding take_file reload_records records_of
get_fail_duty_f_file2duty_q env me n q =
    if not env.is_moved
    then q
    else if not env.opened
    then take_file n q
    else reload_records env me 0 (records_of n q.disk.records) (take_file n q)
