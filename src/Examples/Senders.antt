-- ===== src/Examples/Senders.antt =====
-- sharelib/ProtocolMng.cpp: turns of a send thread.
use octopusd.Prelude.{
  ℕ, ◌≡◌, ◌≢◌, ◌≤◌, ◌⊎◌, refl, true, false, [], ◌∷◌, ◌++◌, none, some, arith, take, ◌==◌,
}
use octopusd.Prelude.Bytes.{Bytes, codes}
use octopusd.Prelude.Map.{find, get_or}
use octopusd.Queue.{QueueMng}
use octopusd.Queue.Check.{judge_normal, is_normal}
use octopusd.Queue.Run.{run}
use octopusd.Sender.{
  SendEnv, Sending, FileStat, Ending, success, delivered, left_size, send_file, send_by_type,
  send_duty, is_outdated, process_send,
}
use octopusd.Sender.Ends.{process_send_ends}
use octopusd.Sender.Content.{send_file_all}
use octopusd.Sender.Lost.{started, send_duty_unsent}
use octopusd.Examples.Data.{idle, busy, sends_a, all_well}

abbrev abc : Bytes
abc = codes "abc"

abbrev three_bytes : FileStat
three_bytes = record { is_dir = false; size = 3 }

-- Everything goes well.
abbrev good_way : SendEnv
good_way = record {
  queue_safe_mode = 1;
  modified = none;
  connected = true;
  head_sent = true;
  file_stat = some three_bytes;
  content = some abc;
  before_message = [];
  message_sent = true;
  message_response = some success;
  blocks = λ n. record { meanwhile = []; block_sent = true; response = some success };
  before_end = [];
  last_response = none;
  before_put = [];
  io = all_well;
}

-- The blocks cannot be sent.
abbrev broken_way : SendEnv
broken_way = record good_way {
  blocks = λ n. record { meanwhile = []; block_sent = false; response = none };
}

-- Thread 8 has taken its duty.
abbrev sending : QueueMng
sending = record idle { sending_q = (8, sends_a) ∷ [] }

process_send_ends_example :
    (result : Ending × QueueMng) × (process_send good_way 8 0 busy ≡ some result)
process_send_ends_example = process_send_ends good_way 8 0 busy

send_file_all_example :
    (s : Sending) × (send_file 3 good_way 1 8 3 abc (started sending) ≡ some s)
    × ((k : ℕ) × (s.out ≡ [] ++ take k abc) × (k ≤ 3) × ((s.not_wait ≢ 0) ⊎ (k ≡ 3)))
send_file_all_example = send_file_all good_way 1 8 3 abc (started sending) (omega arith)

abbrev after_turn : Ending × QueueMng
after_turn = (process_send_ends good_way 8 0 busy).0

send_duty_unsent_example :
    (s : Sending) × (q' : QueueMng) × (send_by_type broken_way 8 sends_a (started sending) ≡ some s)
    × (s.out ≡ [])
    × (send_duty broken_way 8 sends_a sending ≡ some (delivered (1 == 1), q'))
unfolding is_outdated left_size judge_normal is_normal run get_or find
send_duty_unsent_example =
    send_duty_unsent broken_way 8 sends_a sending three_bytes abc refl refl refl refl refl refl refl
      refl (omega arith) (omega arith) refl refl refl refl
