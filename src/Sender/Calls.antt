-- ===== src/Sender/Calls.antt =====
-- sharelib/ProtocolMng.cpp: the calls that `processSend` makes on the queues.
use octopusd.Prelude.{
  ℕ, ◌+◌, ◌*◌, ◌≤◌, ◌≡◌, true, false, ◌&&◌, List, [], ◌∷◌, ◌++◌, Option, none, some, length,
}
use octopusd.Queue.{QueueMng, SendDuty}
use octopusd.Queue.Check.{judge_normal, sending_queue}
use octopusd.Queue.Put.{direct}
use octopusd.Queue.Run.{Call, judges, finishes, puts, takes, run, step}
use octopusd.Sender.{
  SendEnv, Sending, Ending, idle, outdated, dropped, put_again, delivered, msg_buffer_size,
  send_by_type, end_sending, is_outdated,
}
use octopusd.Sender.Message.{start, IsOrder}
use octopusd.Sender.Rounds.{rounds, passed}

-- The duty with one failure more, put once more.
abbrev pub puts_failed : SendEnv → ℕ → SendDuty → Call
puts_failed env me d = puts env.io me (record d { nr_of_fail = d.nr_of_fail + 1 }) direct 0

-- The calls behind the message, by the ending.
unfoldable pub after_message : SendEnv → ℕ → SendDuty → Ending → List Call
after_message env me d put_again =
    env.before_end ++ (finishes me sending_queue ∷ (env.before_put ++ (puts_failed env me d ∷ [])))
after_message env me d idle = env.before_end ++ (finishes me sending_queue ∷ [])
after_message env me d outdated = env.before_end ++ (finishes me sending_queue ∷ [])
after_message env me d dropped = env.before_end ++ (finishes me sending_queue ∷ [])
after_message env me d (delivered b) = env.before_end ++ (finishes me sending_queue ∷ [])

-- The file is new enough and the server answers.
abbrev pub Reached : SendEnv → SendDuty → Type 0
Reached env d = (is_outdated env d ≡ false) × ((env.connected && env.head_sent) ≡ true)

-- What a turn of a send thread is for the queues, from a state of theirs on: its ending and its
-- calls, with those of the others between them, by the duty that the thread was given.
pub data Turn (env : SendEnv) (me type : ℕ) (q : QueueMng)
    : Option SendDuty → Ending → List Call → Type 0 where
  no_duty : Turn env me type q none idle (takes me type ∷ [])
  newer_file :
      (d : SendDuty)
      → is_outdated env d ≡ true
      → Turn env me type q (some d) outdated (takes me type ∷ finishes me sending_queue ∷ [])
  unreached :
      (d : SendDuty)
      → is_outdated env d ≡ false
      → (env.connected && env.head_sent) ≡ false
      → Turn env me type q (some d) put_again (
          takes me type
          ∷ (env.before_end
              ++ (puts_failed env me d ∷ (env.before_put ++ (finishes me sending_queue ∷ [])))))
  blocks_sent :
      (d : SendDuty) (n : ℕ) (s : Sending)
      → Reached env d
      → ¬ IsOrder d
      → send_by_type env me d (start (step (takes me type) q)) ≡ some s
      → s.block_no ≡ n
      → length s.out ≤ msg_buffer_size * passed env me 0 n (step (takes me type) q)
      → Turn env me type q
          (some d)
          (end_sending env me d s).0
          (takes me type ∷ (rounds env me 0 n ++ after_message env me d (end_sending env me d s).0))
  order_sent :
      (d : SendDuty) (e : Ending)
      → Reached env d
      → IsOrder d
      → ((judge_normal me sending_queue (run env.before_message (step (takes me type) q))).0 ≡ false
          → e ≡ dropped)
      → Turn env me type q (some d) e (
          takes me type
          ∷ ((env.before_message ++ (judges me sending_queue ∷ [])) ++ after_message env me d e))

-- The calls behind the message are those of its ending.
abbrev EndedBy : SendEnv → ℕ → SendDuty → QueueMng → Ending × QueueMng → Type 0
EndedBy env me d q r = r.1 ≡ run (after_message env me d r.0) q

-- A result, where there is one, is that of a turn and its calls.
abbrev Implements :
    SendEnv → ℕ → ℕ → Option SendDuty → QueueMng → Option (Ending × QueueMng) → Type 0
Implements env me type t q o =
    (r : Ending × QueueMng)
    → o ≡ some r
    → (cs : List Call) × Turn env me type q t r.0 cs × (r.1 ≡ run cs q)
