-- ===== src/Maintain/Reload.antt =====
-- sharelib/Maintain.cpp: `reloadFailDuty` and `routineFailDuty`, by which failed duties are put
-- again: when the flag asks for it, and from time to time. What each file gives is an argument.
use octopusd.Prelude.{ℕ, zero, suc, ◌+◌, not, ◌&&◌, leb, ltb, ◌==◌, if◌then◌else◌}
use octopusd.Prelude.Int.{ℤ, pos, negsuc, int_eq}
use octopusd.Queue.{QueueMng}
use octopusd.Queue.Reload.{ReloadEnv, get_fail_duty_f_file2duty_q}
use octopusd.Maintain.{Daemon, reload_fail_duty, get_flag, set_flag}
pub mod Steps

-- The files from a number on.
unfoldable pub reload_files : (ℕ → ReloadEnv) → ℕ → ℕ → ℕ → QueueMng → QueueMng
unfolding get_fail_duty_f_file2duty_q
reload_files envs me zero k q = q
reload_files envs me (suc n) k q =
    reload_files envs me n (k + 1) (get_fail_duty_f_file2duty_q (envs k) me k q)

-- CMaintain::reloadFailDuty: -1 stands for all files and -2 for file 0.
unfoldable pub reload_by_seq : (ℕ → ReloadEnv) → ℕ → ℤ → QueueMng → QueueMng
unfolding reload_files get_fail_duty_f_file2duty_q
reload_by_seq envs me (negsuc zero) q = reload_files envs me 10000 0 q
reload_by_seq envs me (negsuc (suc zero)) q = get_fail_duty_f_file2duty_q (envs 0) me 0 q
reload_by_seq envs me (negsuc (suc (suc n))) q = q
reload_by_seq envs me (pos n) q =
    if ltb 9999 n then q else get_fail_duty_f_file2duty_q (envs n) me n q

-- The first half of CMaintain::routineFailDuty.
unfoldable pub serve_reload : (ℕ → ReloadEnv) → ℕ → Daemon → Daemon
unfolding reload_by_seq get_flag set_flag
serve_reload envs me d =
    let seq = get_flag reload_fail_duty d.flags in
    if int_eq seq (pos 0) then d else record d {
      queue = reload_by_seq envs me seq d.queue;
      flags = set_flag reload_fail_duty (pos 0) d.flags;
    }

-- CMaintain::routineFailDuty, with the time before and behind a reload of all files and
-- `m_iLastDealFailDutyTime`.
unfoldable pub routine_fail_duty :
    (ℕ → ReloadEnv) → (ℕ → ReloadEnv) → ℕ → ℕ → ℕ → ℕ → Daemon → Daemon × ℕ
unfolding serve_reload reload_by_seq
routine_fail_duty asked routine me now later last d =
    let served = serve_reload asked me d in
    let every = served.queue.config.com_cfg.time_of_fail_duty_retry in
    if not (every == 0) && leb (last + every) now
    then (record served { queue = reload_by_seq routine me (negsuc zero) served.queue }, later)
    else (served, last)
