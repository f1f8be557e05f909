-- ===== src/Receiver/Ends.antt =====
-- sharelib/ProtocolMng.cpp: the loop of `processRecv` over the data of a file, and its fuel.
use octopusd.Prelude.{
  ℕ, zero, suc, ◌-◌, ◌≡◌, ◌≤◌, refl, ◌&&◌, not, Option, none, some, arith, leb, ◌==◌, if◌then◌else◌,
  length, take, drop, either_way,
}
use octopusd.Prelude.Bytes.{Bytes}
use octopusd.Prelude.Int.{ℤ, pos, negsuc}
use octopusd.Prelude.Map.{find, bytes_key}
use octopusd.Config.{get_site_root_dir}
use octopusd.Queue.{QueueMng, SendDuty}
use octopusd.Queue.Check.{Verdict, check}
use octopusd.Queue.Run.{run}
use octopusd.Sender.{ResponseCode, info_fail, msg_buffer_size}
use octopusd.Sender.Ends.{IsSome}
use octopusd.Receiver.{RecvEnv, FileUploadMsg, Receiving, goes, stops, recv_block, recv_data}
use octopusd.Receiver.Upload.{
  Received, failing, finish, finish_option, duty_to_send, duty_received, receive_file, with_paths,
  checked_code, checked_in, process_sized, process_upload,
}

-- As much fuel as there are bytes to come is enough.
pub recv_data_ends :
    (f : ℕ) (env : RecvEnv) (protocol me left : ℕ) (incoming : Bytes) (s : Receiving)
    → left ≤ f
    → IsSome (recv_data f env protocol me left incoming s)
unfolding recv_data
recv_data_ends zero env protocol me zero incoming s h = (s, refl)
recv_data_ends (suc f) env protocol me zero incoming s h = (s, refl)
recv_data_ends zero env protocol me (suc left) incoming s h = absurd (omega arith)
recv_data_ends (suc f) env protocol me (suc left) incoming s h =
    let need = if leb msg_buffer_size (suc left) then msg_buffer_size else suc left in
    let smaller : suc left - need ≤ left = ground arith in
    elim (recv_block (env.blocks s.block_no) protocol me (take need incoming) s)
      as (λ r. IsSome (elim r as (λ _. Option Receiving) [
        | stops s' ↦ some s'
        | goes s' ↦ recv_data f env protocol me (suc left - need) (drop need incoming) s'
      ])) [
        | stops s' ↦ (s', refl)
        | goes s' ↦
            recv_data_ends f env protocol me (suc left - need) (drop need incoming) s' (omega arith)
      ]

finish_option_ends :
    (env : RecvEnv) (me : ℕ) (d : SendDuty) (size : ℕ) (o : Option Receiving)
    → IsSome o
    → IsSome (finish_option env me d size o)
unfolding finish_option
finish_option_ends env me d size o (s, e) = rw e (finish env me d size s, refl)

receive_file_ends :
    (env : RecvEnv) (me type : ℕ) (m : FileUploadMsg) (size : ℕ) (path : Bytes)
    (response : ResponseCode) (q : QueueMng)
    → IsSome (receive_file env me type m size path response q)
unfolding receive_file
receive_file_ends env me type m size path response q =
    let c = q.config.com_cfg in
    let max = c.max_limit_of_upload_file in
    either_way IsSome (not env.opened) (_, refl)
      (either_way IsSome (not (max == 0) && leb max size) (_, refl)
        (finish_option_ends env me (duty_to_send type m env.now path) size _
          (recv_data_ends size env c.protocol_type me size env.incoming _ (omega arith))))

with_paths_ends :
    (env : RecvEnv) (me type : ℕ) (m : FileUploadMsg) (size : ℕ) (response : ResponseCode)
    (q : QueueMng)
    → IsSome (with_paths env me type m size response q)
unfolding with_paths
with_paths_ends env me type m size response q =
    elim env.tmp_path
      as (λ o. IsSome (elim o as (λ _. Option Received) [
        | none ↦ some (failing info_fail q)
        | some tmp ↦ elim env.real_path as (λ _. Option Received) [
          | none ↦ some (failing info_fail q)
          | some path ↦ receive_file env me type m size path response q
        ]
      ])) [
        | none ↦ (failing info_fail q, refl)
        | some tmp ↦
            elim env.real_path
              as (λ o. IsSome (elim o as (λ _. Option Received) [
                | none ↦ some (failing info_fail q)
                | some path ↦ receive_file env me type m size path response q
              ])) [
                | none ↦ (failing info_fail q, refl)
                | some path ↦ receive_file_ends env me type m size path response q
              ]
      ]

checked_in_ends :
    (env : RecvEnv) (me type : ℕ) (m : FileUploadMsg) (size : ℕ) (r : Verdict × QueueMng)
    → IsSome (checked_in env me type m size r)
unfolding checked_in
checked_in_ends env me type m size (v, q) =
    either_way IsSome (length (get_site_root_dir q.config m.site_name) == 0)
      (failing info_fail q, refl) (with_paths_ends env me type m size (checked_code v) q)

process_sized_ends :
    (env : RecvEnv) (me type : ℕ) (m : FileUploadMsg) (size : ℤ) (q : QueueMng)
    → IsSome (process_sized env me type m size q)
unfolding process_sized
process_sized_ends env me type m (negsuc n) q = (failing info_fail q, refl)
process_sized_ends env me type m (pos size) q =
    elim (find m.site_name q.config.map_site)
      as (λ o. IsSome (elim o as (λ _. Option Received) [
        | none ↦ some (failing info_fail q)
        | some site ↦
            checked_in env me type m size (check me (duty_received type m) (run env.before_check q))
      ])) [ none ↦ (failing info_fail q, refl) | some site ↦ checked_in_ends env me type m size _ ]

-- The receipt of a file ends, whatever the file system, the socket and the other threads do.
pub process_upload_ends :
    (env : RecvEnv) (me type : ℕ) (m : FileUploadMsg) (q : QueueMng)
    → (r : Received) × (process_upload env me type m q ≡ some r)
unfolding process_upload
process_upload_ends env me type m q = process_sized_ends env me type m m.data_length q
