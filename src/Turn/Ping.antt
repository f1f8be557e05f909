-- ===== src/Turn/Ping.antt =====
-- sharelib/ProtocolMng.cpp: a server that is asked for its state.
use octopusd.Prelude.{ℕ, ◌≡◌, refl, ap, ◌∙◌, true, Option, none, some}
use octopusd.Prelude.Bytes.{Bytes}
use octopusd.Prelude.Int.{ℤ}
use octopusd.Config.{ConfigMng}
use octopusd.Sender.{check_ok}
use octopusd.Receiver.{arrived}
use octopusd.Receiver.Upload.{response_sent}
use octopusd.Manager.{Manager}
use octopusd.Head.{response_byte}
use octopusd.Turn.{
  TurnEnv, TurnEnd, unending, no_answer, managed, answers, responds, by_type, by_version, by_head,
  process_recv, version1, protocol_check_status, PingEnv, ping_timeout, is_alive,
  check_server_status,
}

-- The byte that a turn answers.
abbrev answer_byte : TurnEnd → Option ℕ
answer_byte unending = none
answer_byte (no_answer m) = none
answer_byte (managed h) = none
answer_byte (answers m r installed action) = some (response_byte r)

ping_turn :
    (env : TurnEnv) (me : ℕ) (m : Manager)
    → env.head ≡ arrived
    → env.version ≡ version1
    → env.type ≡ protocol_check_status
    → process_recv env me m ≡ answers m check_ok none none
unfolding process_recv by_head by_version by_type responds response_sent
ping_turn env me m head first asks = rw (head, first, asks) refl

-- A server that can be reached, is sent the message for its state and serves it in a turn is found
-- alive by the turn's answer, whatever the time that is waited, and the turn changes nothing.
check_server_status-process_recv :
    (env : TurnEnv) (me : ℕ) (m : Manager) (servers : Bytes → ℤ → PingEnv) (c : ConfigMng)
    (time_out : ℤ) (ip : Bytes) (port : ℤ)
    → env.head ≡ arrived
    → env.version ≡ version1
    → env.type ≡ protocol_check_status
    → (servers ip port).connected ≡ true
    → (servers ip port).asked (ping_timeout time_out c.com_cfg.recv_msg_timeout) ≡ true
    → (servers ip port).reply (ping_timeout time_out c.com_cfg.recv_msg_timeout)
      ≡ answer_byte (process_recv env me m)
    → (check_server_status servers c time_out ip port ≡ true)
      × (process_recv env me m ≡ answers m check_ok none none)
unfolding check_server_status is_alive response_byte
check_server_status-process_recv env me m servers c time_out ip port head first asks connected asked
      reply =
    let turn = ping_turn env me m head first asks in
    (rw (connected, asked, reply ∙ ap answer_byte turn) refl, turn)
