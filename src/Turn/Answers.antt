-- ===== src/Turn/Answers.antt =====
-- sharelib/ProtocolMng.cpp: every turn of a receive thread ends with a response.
use octopusd.Prelude.{
  ℕ, ◌≡◌, ◌≢◌, ◌⊎◌, inl, inr, refl, sym, true, ◌||◌, List, [], Option, none, some, arith, ◌==◌,
  Bool-cases, each_way, either_way,
}
use mathlib.Core.Path.{subst}
use octopusd.Config.{ConfigMng}
use octopusd.Queue.{
  QueueMng, protocol_upload_file, protocol_del_file, protocol_mv_file, protocol_cp_file,
  protocol_pack_file,
}
use octopusd.Sender.{
  ResponseCode, check_ok, success, fail, head_fail, info_fail, data_fail, msg_error, service_pause,
  cancel_duty, unknown_code,
}
use octopusd.Receiver.{Arrival, arrived, peer_gone, not_arrived, FileUploadMsg}
use octopusd.Receiver.Upload.{Received, failing, duty_received, response_sent}
use octopusd.Receiver.Ends.{process_upload_ends}
use octopusd.Receiver.Orders.{receive_order, OrderMsg, FileAction, del, mv, cp}
use octopusd.Receiver.Named.{NameEnv, receive_name}
use octopusd.Receiver.Named.Calls.{receive_name-NamedCalls}
use octopusd.Receiver.Calls.{receive_order-OrderCalls}
use octopusd.Receiver.Runs.{RunsTo, RunsTo-call, process_upload-RunsTo}
use octopusd.Queue.Check.{check}
use octopusd.Queue.Run.{Call, checks, run, step}
use octopusd.Prelude.Bytes.{Bytes}
use octopusd.Prelude.Int.{ℤ, pos, negsuc}
use octopusd.Prelude.Map.{find, bytes_key}
use octopusd.Manager.{Manager, with_config}
use octopusd.Head.{
  UploadHead, file_name, file_data, read_upload, read_del, read_mv_cp, read_server_msg,
}
use octopusd.Server.{add_server, del_server}
use octopusd.Turn.{
  TurnEnv, TurnEnd, unending, no_answer, managed, answers, with_queue, responds, informed,
  end_received, end_ordered, other_checked, receive_other, upload_turn, order_turn, server_turn,
  by_type, by_version, by_head, process_recv, version1, protocol_add_server, protocol_del_server,
  protocol_check_status,
}

-- The rest of the message came, and it is of a type.
abbrev pub Came : TurnEnv → ℕ → Type 0
Came env type = (env.info ≡ arrived) × (env.type ≡ type)

-- What a turn changes: only a file that comes puts something at a file's place, and only a
-- deletion, a move or a copy works on other files; in both, the queues change by calls of the
-- threads. Only a message on a server changes the configuration of the queues, and nothing else of
-- them. Every other message leaves the queues as they were.
pub data Changed (env : TurnEnv) (q q' : QueueMng) : Option Bytes → Option FileAction → Type 0 where
  file_taken :
      (installed : Option Bytes)
      → Came env protocol_upload_file ⊎ Came env protocol_pack_file
      → RunsTo q q'
      → Changed env q q' installed none
  order_taken :
      (action : Option FileAction)
      → Came env protocol_del_file ⊎ (Came env protocol_mv_file ⊎ Came env protocol_cp_file)
      → RunsTo q q'
      → Changed env q q' none action
  server_added :
      Came env protocol_add_server
      → q' ≡ record q { config = add_server (read_server_msg env.info_bytes) q.config }
      → Changed env q q' none none
  server_deleted :
      Came env protocol_del_server
      → q' ≡ record q { config = del_server (read_server_msg env.info_bytes) q.config }
      → Changed env q q' none none
  untouched : q' ≡ q → Changed env q q' none none

-- A response that is none for a given-up duty, with what became of the queues, and the flags and
-- the connections as they were.
abbrev pub Answered : TurnEnv → Manager → TurnEnd → Type 0
Answered env m unending = ⊥
Answered env m (no_answer m') = ⊥
Answered env m (managed h) = ⊥
Answered env m (answers m' r installed action) =
    (r ≢ cancel_duty)
    × Changed env m.daemon.queue m'.daemon.queue installed action
    × (m'.daemon.flags ≡ m.daemon.flags)
    × (m'.daemon.pool ≡ m.daemon.pool)

response_sent-ne : (r : ResponseCode) → response_sent r ≢ cancel_duty
unfolding response_sent
response_sent-ne check_ok e = cc
response_sent-ne success e = cc
response_sent-ne fail e = cc
response_sent-ne head_fail e = cc
response_sent-ne info_fail e = cc
response_sent-ne data_fail e = cc
response_sent-ne msg_error e = cc
response_sent-ne service_pause e = cc
response_sent-ne cancel_duty e = cc
response_sent-ne unknown_code e = cc

responds-Answered : (env : TurnEnv) (m : Manager) (r : ResponseCode) → Answered env m (responds m r)
unfolding responds
responds-Answered env m r = (response_sent-ne r, untouched refl, refl, refl)

end_received-Answered :
    (env : TurnEnv) (m : Manager) (o : Option Received) (r : Received)
    → Came env protocol_upload_file ⊎ Came env protocol_pack_file
    → o ≡ some r
    → RunsTo m.daemon.queue r.queue
    → Answered env m (end_received m o)
unfolding end_received with_queue
end_received-Answered env m o r came e runs =
    subst (λ x. Answered env m (end_received m x)) (sym e)
      (response_sent-ne r.response, file_taken r.installed came runs, refl, refl)

-- A file that comes by its name, of any length, and one that comes neither way.
receive_name-RunsTo :
    (env : NameEnv) (me type : ℕ) (h : FileUploadMsg) (size : ℤ) (q : QueueMng)
    → RunsTo q (receive_name env me type h size q).queue
receive_name-RunsTo env me type h (negsuc n) q = ([], unfold receive_name failing run in refl)
receive_name-RunsTo env me type h (pos size) q =
    let calls = receive_name-NamedCalls env me type h size q in (calls.0, calls.2)

receive_other-RunsTo :
    (before : List Call) (me type : ℕ) (h : FileUploadMsg) (size : ℤ) (q : QueueMng)
    → RunsTo q (receive_other before me type h size q).queue
unfolding receive_other failing run
receive_other-RunsTo before me type h (negsuc n) q = ([], refl)
receive_other-RunsTo before me type h (pos size) q =
    let checked = check me (duty_received type h) (run before q) in
    elim (find h.site_name q.config.map_site)
      as (λ o.
        RunsTo q
          (elim o as (λ _. Received) [
            | none ↦ failing info_fail q
            | some site ↦ other_checked checked
          ]).queue) [
            | none ↦ ([], refl)
            | some site ↦
                (unfold other_checked step in
                  RunsTo-call before (checks me (duty_received type h)) q)
          ]

upload_turn-Answered :
    (env : TurnEnv) (me : ℕ) (h : UploadHead) (m : Manager)
    → Came env protocol_upload_file ⊎ Came env protocol_pack_file
    → Answered env m (upload_turn env me h m)
unfolding upload_turn
upload_turn-Answered env me h m came =
    let q = m.daemon.queue in
    let size = h.msg.data_length in
    let all = process_upload_ends env.recv me env.type h.msg q in
    let Of = Answered env m in
    either_way Of (h.data_type == file_name)
      (end_received-Answered env m _ (receive_name env.name me env.type h.msg size q) came refl
        (receive_name-RunsTo env.name me env.type h.msg size q))
      (either_way Of (h.data_type == file_data)
        (end_received-Answered env m _ all.0 came all.1
          (process_upload-RunsTo env.recv me env.type h.msg q all.0 all.1))
        (end_received-Answered env m _
          (receive_other env.recv.before_check me env.type h.msg size q) came refl
          (receive_other-RunsTo env.recv.before_check me env.type h.msg size q)))

order_turn-Answered :
    (env : TurnEnv) (me : ℕ) (order : OrderMsg) (m : Manager)
    → Came env protocol_del_file ⊎ (Came env protocol_mv_file ⊎ Came env protocol_cp_file)
    → Answered env m (order_turn env me order m)
unfolding order_turn end_ordered with_queue
order_turn-Answered env me order m came =
    let calls = receive_order-OrderCalls env.order me order m.daemon.queue in
    let ordered = receive_order env.order me order m.daemon.queue in
    (response_sent-ne _, order_taken ordered.action came (calls.0, calls.2), refl, refl)

server_turn-Answered :
    (env : TurnEnv) (change : ConfigMng → ConfigMng) (m : Manager)
    → ((q' : QueueMng)
        → q' ≡ record m.daemon.queue { config = change m.daemon.queue.config }
        → Changed env m.daemon.queue q' none none)
    → Answered env m (server_turn change m)
unfolding server_turn responds with_config
server_turn-Answered env change m h = (response_sent-ne success, h _ refl, refl, refl)

informed-Answered :
    (env : TurnEnv) (a : Arrival) (m : Manager) (handled : TurnEnd)
    → (a ≡ arrived → Answered env m handled)
    → Answered env m (informed a m handled)
unfolding informed
informed-Answered env arrived m handled h = h refl
informed-Answered env peer_gone m handled h = responds-Answered env m cancel_duty
informed-Answered env not_arrived m handled h = responds-Answered env m head_fail

-- A type is one of two.
type_cases : (t a b : ℕ) → (t == a || t == b) ≡ true → (t ≡ a) ⊎ (t ≡ b)
type_cases t a b e = elim (Bool-cases (t == a)) [
  | inl h ↦ inl (ground arith)
  | inr h ↦ inr (ground arith)
]

type_is : (t a : ℕ) → (t == a) ≡ true → t ≡ a
type_is t a e = ground arith

upload-Came :
    (env : TurnEnv)
    → (env.type == protocol_upload_file || env.type == protocol_pack_file) ≡ true
    → env.info ≡ arrived
    → Came env protocol_upload_file ⊎ Came env protocol_pack_file
upload-Came env is here = elim (type_cases env.type _ _ is) [
  | inl e ↦ inl (here, e)
  | inr e ↦ inr (here, e)
]

by_type-Answered : (env : TurnEnv) (me : ℕ) (m : Manager) → Answered env m (by_type env me m)
unfolding by_type
by_type-Answered env me m =
    let bytes = env.info_bytes in
    let Of = Answered env m in
    let informs = λ (t : TurnEnd) (h : env.info ≡ arrived → Answered env m t).
      informed-Answered env env.info m t h in
    each_way Of (env.type == protocol_upload_file || env.type == protocol_pack_file)
      (λ is.
        informs (upload_turn env me (read_upload bytes) m)
          (λ here. upload_turn-Answered env me (read_upload bytes) m (upload-Came env is here)))
      (λ _.
        each_way Of (env.type == protocol_del_file)
          (λ is. informs (order_turn env me (del (read_del bytes)) m) (λ here.
            order_turn-Answered env me (del (read_del bytes)) m (inl (here, type_is _ _ is))))
          (λ _.
            each_way Of (env.type == protocol_mv_file)
              (λ is. informs (order_turn env me (mv (read_mv_cp bytes)) m) (λ here.
                order_turn-Answered env me (mv (read_mv_cp bytes)) m
                  (inr (inl (here, type_is _ _ is)))))
              (λ _.
                each_way Of (env.type == protocol_cp_file)
                  (λ is. informs (order_turn env me (cp (read_mv_cp bytes)) m) (λ here.
                    order_turn-Answered env me (cp (read_mv_cp bytes)) m
                      (inr (inr (here, type_is _ _ is)))))
                  (λ _.
                    each_way Of (env.type == protocol_add_server)
                      (λ is. informs (server_turn (add_server (read_server_msg bytes)) m) (λ here.
                        server_turn-Answered env (add_server (read_server_msg bytes)) m
                          (λ q' e. server_added (here, type_is _ _ is) e)))
                      (λ _.
                        each_way Of (env.type == protocol_del_server)
                          (λ is.
                            informs (server_turn (del_server (read_server_msg bytes)) m) (λ here.
                              server_turn-Answered env (del_server (read_server_msg bytes)) m
                                (λ q' e. server_deleted (here, type_is _ _ is) e)))
                          (λ _.
                            either_way Of (env.type == protocol_check_status)
                              (responds-Answered env m check_ok)
                              (responds-Answered env m msg_error)))))))

by_head-Answered :
    (env : TurnEnv) (me : ℕ) (m : Manager) (a : Arrival)
    → env.version ≡ version1
    → Answered env m (by_head env me m a)
unfolding by_head by_version
by_head-Answered env me m arrived first = simp first (by_type-Answered env me m)
by_head-Answered env me m peer_gone first = responds-Answered env m cancel_duty
by_head-Answered env me m not_arrived first = responds-Answered env m head_fail

-- A turn of a receive thread with a message of the first version, whatever its type and bytes are
-- and whatever the socket, the file system and the other threads do, ends with a response that is
-- none for a given-up duty and leaves the flags and the connections as they were. Only a file that
-- has come puts something at a file's place, and only a deletion, a move or a copy that has come
-- works on other files; these change the queues by calls of the threads. A message on a server
-- that has come changes nothing of the queues but their configuration, to which the server is added
-- or from which it is deleted, and every other message leaves the queues as they were.
pub process_recv-Answered :
    (env : TurnEnv) (me : ℕ) (m : Manager)
    → env.version ≡ version1
    → Answered env m (process_recv env me m)
unfolding process_recv
process_recv-Answered env me m first = by_head-Answered env me m env.head first
