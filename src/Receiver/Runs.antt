-- ===== src/Receiver/Runs.antt =====
-- sharelib/ProtocolMng.cpp: the receipt of a file is, for the queues, a sequence of calls.
use mathlib.Core.Path.{subst}
use octopusd.Prelude.{
  ℕ, zero, suc, ◌+◌, ◌-◌, ◌≡◌, refl, sym, ap, ◌∙◌, Bool, not, ◌&&◌, List, [], ◌∷◌, ◌++◌, Option,
  none, some, ltb, leb, ◌==◌, if◌then◌else◌, length, take, drop, either_way,
}
use octopusd.Prelude.Bytes.{Bytes}
use octopusd.Prelude.Int.{ℤ, pos, negsuc}
use octopusd.Prelude.Map.{find, bytes_key}
use octopusd.Config.{get_site_root_dir}
use octopusd.Queue.{QueueMng, SendDuty, protocol_pack_file}
use octopusd.Queue.Check.{Verdict, check, judge_normal, recving_queue}
use octopusd.Queue.Put.{add_server_info}
use octopusd.Queue.Run.{Call, checks, judges, puts, run, run-append, step}
use octopusd.Sender.{ResponseCode, info_fail, msg_buffer_size, write_to_file_size}
use octopusd.Receiver.{
  Arrival, arrived, peer_gone, not_arrived, InBlock, RecvEnv, FileUploadMsg, Receiving, Round, goes,
  stops, look, store, take_in, recv_block, recv_data,
}
use octopusd.Receiver.Upload.{
  Received, failing, pass_on, finish, finish_option, duty_to_send, duty_received, checked_code,
  receive_file, with_paths, checked_in, process_sized, process_upload,
}

-- The queues come from calls.
abbrev pub RunsTo : QueueMng → QueueMng → Type 0
RunsTo q q' = (cs : List Call) × (q' ≡ run cs q)

RunsTo-refl : (q : QueueMng) → RunsTo q q
unfolding run
RunsTo-refl q = ([], refl)

pub RunsTo-trans : (a b c : QueueMng) → RunsTo a b → RunsTo b c → RunsTo a c
RunsTo-trans a b c (l, e) (m, f) = (l ++ m, f ∙ ap (run m) e ∙ sym (run-append l m a))

-- Calls of other threads, and then one of this one.
pub RunsTo-call : (before : List Call) (c : Call) (q : QueueMng) → RunsTo q (step c (run before q))
RunsTo-call before c q =
    RunsTo-trans q (run before q) (step c (run before q)) (before, refl)
      (c ∷ [], unfold run in refl)

abbrev queue_of : Round → QueueMng
queue_of (goes s) = s.queue
queue_of (stops s) = s.queue

look-RunsTo :
    (me : ℕ) (meanwhile : List Call) (s : Receiving) → RunsTo s.queue (look me meanwhile s).queue
unfolding look
look-RunsTo me meanwhile s =
    let judged = judge_normal me recving_queue (run meanwhile s.queue) in
    let Of = λ (r : Receiving). RunsTo s.queue r.queue in
    let one : RunsTo s.queue judged.1 =
      (unfold step in RunsTo-call meanwhile (judges me recving_queue) s.queue) in
    either_way Of (s.write_log_flag == 0) (either_way Of judged.0 one one) (meanwhile, refl)

store-queue :
    (flushed : Bool) (block : Bytes) (s : Receiving) → queue_of (store flushed block s) ≡ s.queue
unfolding store
store-queue flushed block s =
    let full = ltb write_to_file_size (length s.buffer + length block) in
    let Of = λ (r : Round). queue_of r ≡ s.queue in
    either_way Of (full && not flushed) refl (either_way Of full refl refl)

take_in-queue :
    (b : InBlock) (a : Arrival) (block : Bytes) (s : Receiving)
    → queue_of (take_in b a block s) ≡ s.queue
unfolding take_in
take_in-queue b arrived block s = store-queue b.flushed block s
take_in-queue b peer_gone block s = refl
take_in-queue b not_arrived block s = refl

recv_block-RunsTo :
    (b : InBlock) (protocol me : ℕ) (block : Bytes) (s : Receiving)
    → RunsTo s.queue (queue_of (recv_block b protocol me block s))
unfolding recv_block
recv_block-RunsTo b protocol me block s =
    let next = look me b.meanwhile s in
    either_way (λ (r : Round). RunsTo s.queue (queue_of r)) (protocol == 1 && not b.answered)
      (look-RunsTo me b.meanwhile s)
      (subst (RunsTo s.queue) (sym (take_in-queue b b.arrival block next))
        (look-RunsTo me b.meanwhile s))

abbrev ReceivingOf : QueueMng → Option Receiving → Type 0
ReceivingOf q none = Unit {0}
ReceivingOf q (some s) = RunsTo q s.queue

ReceivingOf-trans :
    (a b : QueueMng) (o : Option Receiving) → RunsTo a b → ReceivingOf b o → ReceivingOf a o
ReceivingOf-trans a b none r h = tt
ReceivingOf-trans a b (some s) r h = RunsTo-trans a b s.queue r h

round-ReceivingOf :
    (q : QueueMng) (rest : Receiving → Option Receiving) (r : Round)
    → RunsTo q (queue_of r)
    → ((s : Receiving) → ReceivingOf s.queue (rest s))
    → ReceivingOf q (elim r as (λ _. Option Receiving) [ stops s' ↦ some s' | goes s' ↦ rest s' ])
round-ReceivingOf q rest (stops s') h ih = h
round-ReceivingOf q rest (goes s') h ih = ReceivingOf-trans q s'.queue (rest s') h (ih s')

recv_data-ReceivingOf :
    (fuel : ℕ) (env : RecvEnv) (protocol me left : ℕ) (incoming : Bytes) (s : Receiving)
    → ReceivingOf s.queue (recv_data fuel env protocol me left incoming s)
unfolding recv_data
recv_data-ReceivingOf zero env protocol me zero incoming s = RunsTo-refl s.queue
recv_data-ReceivingOf (suc f) env protocol me zero incoming s = RunsTo-refl s.queue
recv_data-ReceivingOf zero env protocol me (suc left) incoming s = tt
recv_data-ReceivingOf (suc f) env protocol me (suc left) incoming s =
    let need = if leb msg_buffer_size (suc left) then msg_buffer_size else suc left in
    let block = recv_block (env.blocks s.block_no) protocol me (take need incoming) s in
    round-ReceivingOf s.queue (recv_data f env protocol me (suc left - need) (drop need incoming))
      block (recv_block-RunsTo (env.blocks s.block_no) protocol me (take need incoming) s)
      (recv_data-ReceivingOf f env protocol me (suc left - need) (drop need incoming))

abbrev ReceivedOf : QueueMng → Option Received → Type 0
ReceivedOf q none = Unit {0}
ReceivedOf q (some r) = RunsTo q r.queue

pass_on-RunsTo :
    (env : RecvEnv) (me : ℕ) (d : SendDuty) (size : ℕ) (content : Bytes) (s : Receiving)
    → RunsTo s.queue (pass_on env me d size content s).queue
unfolding pass_on
pass_on-RunsTo env me d size content s =
    either_way (λ (r : Received). RunsTo s.queue r.queue)
      (d.protocol_type == protocol_pack_file && not env.is_unpacked) (RunsTo-refl s.queue)
      (unfold step in RunsTo-call env.before_put (puts env.io me d add_server_info size) s.queue)

finish-RunsTo :
    (env : RecvEnv) (me : ℕ) (d : SendDuty) (size : ℕ) (s : Receiving)
    → RunsTo s.queue (finish env me d size s).queue
unfolding finish failing
finish-RunsTo env me d size s =
    let rest = not (length s.buffer == 0) && s.recv_ret == 0 in
    let Of = λ (r : Received). RunsTo s.queue r.queue in
    let same = RunsTo-refl s.queue in
    either_way Of (rest && not env.rest_written) same (
      either_way Of (not (s.recv_ret == 0)) same
        (either_way Of (not env.is_moved) same (pass_on-RunsTo env me d size _ s)))

finish_option-ReceivedOf :
    (env : RecvEnv) (me : ℕ) (d : SendDuty) (size : ℕ) (q : QueueMng) (o : Option Receiving)
    → ReceivingOf q o
    → ReceivedOf q (finish_option env me d size o)
unfolding finish_option
finish_option-ReceivedOf env me d size q none h = tt
finish_option-ReceivedOf env me d size q (some s) h =
    RunsTo-trans q s.queue (finish env me d size s).queue h (finish-RunsTo env me d size s)

receive_file-ReceivedOf :
    (env : RecvEnv) (me type : ℕ) (m : FileUploadMsg) (size : ℕ) (path : Bytes)
    (response : ResponseCode) (q : QueueMng)
    → ReceivedOf q (receive_file env me type m size path response q)
unfolding receive_file failing
receive_file-ReceivedOf env me type m size path response q =
    let c = q.config.com_cfg in
    let max = c.max_limit_of_upload_file in
    either_way (ReceivedOf q) (not env.opened) (RunsTo-refl q) (
      either_way (ReceivedOf q) (not (max == 0) && leb max size) (RunsTo-refl q) (
        finish_option-ReceivedOf env me (duty_to_send type m env.now path) size q _
          (recv_data-ReceivingOf size env c.protocol_type me size env.incoming _)))

two_paths-ReceivedOf :
    (q : QueueMng) (bad : Received) (go : Bytes → Option Received) (tmp real : Option Bytes)
    → bad.queue ≡ q
    → ((path : Bytes) → ReceivedOf q (go path))
    → ReceivedOf q (elim tmp as (λ _. Option Received) [
      | none ↦ some bad
      | some t ↦ elim real as (λ _. Option Received) [ none ↦ some bad | some path ↦ go path ]
    ])
two_paths-ReceivedOf q bad go none real e h = ([], unfold run in e)
two_paths-ReceivedOf q bad go (some t) none e h = ([], unfold run in e)
two_paths-ReceivedOf q bad go (some t) (some path) e h = h path

with_paths-ReceivedOf :
    (env : RecvEnv) (me type : ℕ) (m : FileUploadMsg) (size : ℕ) (response : ResponseCode)
    (q : QueueMng)
    → ReceivedOf q (with_paths env me type m size response q)
unfolding with_paths failing
with_paths-ReceivedOf env me type m size response q =
    two_paths-ReceivedOf q (failing info_fail q)
      (λ path. receive_file env me type m size path response q) env.tmp_path env.real_path refl
      (λ path. receive_file-ReceivedOf env me type m size path response q)

ReceivedOf-trans :
    (a b : QueueMng) (o : Option Received) → RunsTo a b → ReceivedOf b o → ReceivedOf a o
ReceivedOf-trans a b none r h = tt
ReceivedOf-trans a b (some x) r h = RunsTo-trans a b x.queue r h

checked_in-ReceivedOf :
    (env : RecvEnv) (me type : ℕ) (m : FileUploadMsg) (size : ℕ) (r : Verdict × QueueMng)
    → ReceivedOf r.1 (checked_in env me type m size r)
unfolding checked_in failing
checked_in-ReceivedOf env me type m size (v, q) =
    either_way (ReceivedOf q) (length (get_site_root_dir q.config m.site_name) == 0) (RunsTo-refl q)
      (with_paths-ReceivedOf env me type m size (checked_code v) q)

process_sized-ReceivedOf :
    (env : RecvEnv) (me type : ℕ) (m : FileUploadMsg) (size : ℤ) (q : QueueMng)
    → ReceivedOf q (process_sized env me type m size q)
unfolding process_sized failing
process_sized-ReceivedOf env me type m (negsuc n) q = RunsTo-refl q
process_sized-ReceivedOf env me type m (pos size) q =
    let checked = check me (duty_received type m) (run env.before_check q) in
    elim (find m.site_name q.config.map_site)
      as (λ o. ReceivedOf q (elim o as (λ _. Option Received) [
        | none ↦ some (failing info_fail q)
        | some site ↦ checked_in env me type m size checked
      ])) [
        | none ↦ RunsTo-refl q
        | some site ↦
            ReceivedOf-trans q checked.1 (checked_in env me type m size checked)
              (unfold step in RunsTo-call env.before_check (checks me (duty_received type m)) q)
              (checked_in-ReceivedOf env me type m size checked)
      ]

pub process_upload-RunsTo :
    (env : RecvEnv) (me type : ℕ) (m : FileUploadMsg) (q : QueueMng) (r : Received)
    → process_upload env me type m q ≡ some r
    → RunsTo q r.queue
unfolding process_upload
process_upload-RunsTo env me type m q r e =
    subst (ReceivedOf q) e (process_sized-ReceivedOf env me type m m.data_length q)
