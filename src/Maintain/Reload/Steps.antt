-- ===== src/Maintain/Reload/Steps.antt =====
-- sharelib/Maintain.cpp: what `routineFailDuty` is for the queues and the flags.
use octopusd.Prelude.{ℕ, suc, ◌+◌, ◌≡◌, ◌≢◌, ◌≤◌, ◌<◌, ◌⊎◌, true, false, List}
use octopusd.Prelude.Int.{ℤ, pos, negsuc}
use octopusd.Queue.{QueueMng}
use octopusd.Queue.Reload.{ReloadEnv, records_of, take_file}
use octopusd.Queue.Reload.Calls.{FileCalls}
use octopusd.Queue.Run.{Call, run}
use octopusd.Maintain.{MaintainFlag, Daemon, flag_no, reload_fail_duty, get_flag}

-- One file: it is not there, it is taken away and does not open, or its duties are put again.
pub data FileStep (env : ReloadEnv) (me n : ℕ) (q : QueueMng) : QueueMng → Type 0 where
  not_there : env.is_moved ≡ false → FileStep env me n q q
  unopened : env.is_moved ≡ true → env.opened ≡ false → FileStep env me n q (take_file n q)
  reloaded :
      (cs : List Call)
      → env.is_moved ≡ true
      → env.opened ≡ true
      → FileCalls env me 0 (records_of n q.disk.records) (take_file n q) cs
      → FileStep env me n q (run cs (take_file n q))

-- So many files from a number on, in their order.
pub data FileSteps (envs : ℕ → ReloadEnv) (me : ℕ) : ℕ → ℕ → QueueMng → QueueMng → Type 0 where
  no_more : (k : ℕ) (q : QueueMng) → FileSteps envs me k 0 q q
  one_more :
      (k n : ℕ) (q q1 q2 : QueueMng)
      → FileStep (envs k) me k q q1
      → FileSteps envs me (k + 1) n q1 q2
      → FileSteps envs me k (suc n) q q2

-- The 10,000 files that there can be.
abbrev pub AllFiles : (ℕ → ReloadEnv) → ℕ → QueueMng → QueueMng → Type 0
AllFiles envs me = FileSteps envs me 0 10000

-- What the flag asks for: nothing, all files, file 0, one of the others, or no file that there is.
pub data Asked (envs : ℕ → ReloadEnv) (me : ℕ) (q : QueueMng) : ℤ → QueueMng → Type 0 where
  nothing : Asked envs me q (pos 0) q
  all_files : (q' : QueueMng) → AllFiles envs me q q' → Asked envs me q (negsuc 0) q'
  first_file : (q' : QueueMng) → FileStep (envs 0) me 0 q q' → Asked envs me q (negsuc 1) q'
  one_file :
      (n : ℕ) (q' : QueueMng)
      → n ≢ 0
      → n ≤ 9999
      → FileStep (envs n) me n q q'
      → Asked envs me q (pos n) q'
  too_large : (n : ℕ) → 9999 < n → Asked envs me q (pos n) q
  too_small : (n : ℕ) → 1 < n → Asked envs me q (negsuc n) q

-- All files are due again: the time between is set and has gone by.
abbrev pub Due : ℕ → ℕ → QueueMng → Type 0
Due now last q =
    (q.config.com_cfg.time_of_fail_duty_retry ≢ 0)
    × (last + q.config.com_cfg.time_of_fail_duty_retry ≤ now)

-- The second half of a turn: all files, and the time behind them, exactly where they are due.
pub data Repeated (envs : ℕ → ReloadEnv) (me now later last : ℕ) (q : QueueMng)
    : QueueMng → ℕ → Type 0 where
  due :
      (q' : QueueMng)
      → Due now last q
      → AllFiles envs me q q'
      → Repeated envs me now later last q q' later
  not_due :
      (q.config.com_cfg.time_of_fail_duty_retry ≡ 0)
        ⊎ (now < last + q.config.com_cfg.time_of_fail_duty_retry)
      → Repeated envs me now later last q q last

-- A whole turn: what the flag asks for, the flag, the other flags, the connections, and the second
-- half.
abbrev pub ReloadTurn :
    (ℕ → ReloadEnv) → (ℕ → ReloadEnv) → ℕ → ℕ → ℕ → ℕ → Daemon → Daemon × ℕ → Type 0
ReloadTurn asked routine me now later last d r =
    ((q : QueueMng) × Asked asked me d.queue (get_flag reload_fail_duty d.flags) q
      × Repeated routine me now later last q r.0.queue r.1)
    × (get_flag reload_fail_duty r.0.flags ≡ pos 0)
    × ((g : MaintainFlag)
        → flag_no g ≢ flag_no reload_fail_duty
        → get_flag g r.0.flags ≡ get_flag g d.flags)
    × (r.0.pool ≡ d.pool)

-- The first half of a turn.
abbrev FirstHalf : (ℕ → ReloadEnv) → ℕ → Daemon → Daemon → Type 0
FirstHalf envs me d d' =
    Asked envs me d.queue (get_flag reload_fail_duty d.flags) d'.queue
    × (get_flag reload_fail_duty d'.flags ≡ pos 0)
    × ((g : MaintainFlag)
        → flag_no g ≢ flag_no reload_fail_duty
        → get_flag g d'.flags ≡ get_flag g d.flags)
    × (d'.pool ≡ d.pool)
