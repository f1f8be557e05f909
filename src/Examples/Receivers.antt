-- ===== src/Examples/Receivers.antt =====
-- sharelib/ProtocolMng.cpp: receipts of files.
use octopusd.Prelude.{ℕ, ◌≡◌, ◌≤◌, ◌⊎◌, refl, true, false, List, [], ◌∷◌, some, arith, take}
use octopusd.Prelude.Bytes.{Bytes, codes, bytes_eq}
use octopusd.Prelude.Int.{pos}
use octopusd.Prelude.Map.{find, insert}
use octopusd.Queue.{QueueMng, protocol_upload_file}
use octopusd.Queue.Run.{Call, run}
use octopusd.Sender.{success}
use octopusd.Receiver.{arrived, RecvEnv, FileUploadMsg}
use octopusd.Receiver.Upload.{Received, receive_file, duty_received}
use octopusd.Receiver.Installed.{receive_file-installed}
use octopusd.Receiver.Orders.{
  OrderEnv, OrderMsg, mv, mv_file, receive_order, order_checked, mv_cp_checked, source_there,
  moved_from, carry_out,
}
use octopusd.Receiver.Calls.{OrderCalls, receive_order-OrderCalls}
use octopusd.Text.FilePath.{plain}
use octopusd.Receiver.Named.{NameEnv}
use octopusd.Examples.Data.{idle, sends_a, all_well}

abbrev abc : Bytes
abc = codes "abc"

abbrev place : Bytes
place = codes "/www/abc"

-- Everything goes well.
abbrev good_receipt : RecvEnv
good_receipt = record {
  before_check = [];
  tmp_path = some (codes "/www/tmp");
  real_path = some place;
  opened = true;
  incoming = abc;
  blocks = λ n. record { meanwhile = []; answered = true; arrival = arrived; flushed = true };
  rest_written = true;
  is_moved = true;
  is_unpacked = true;
  now = 7;
  before_put = [];
  io = all_well;
}

abbrev upload : FileUploadMsg
upload = record {
  site_name = sends_a.site_name;
  dest_path_file = sends_a.dest_path_file;
  sended_time = sends_a.sended_time;
  data_length = pos 3;
}

-- Thread 5 has checked its duty in.
abbrev receiving : QueueMng
receiving = record idle { recving_q = (5, duty_received protocol_upload_file upload) ∷ [] }

receive_file-installed_example :
    (r : Received) × (receive_file good_receipt 5 protocol_upload_file upload 3 place success
        receiving
      ≡ some r)
    × ((content : Bytes)
        → r.installed ≡ some content
        → (k : ℕ) × (content ≡ take k abc)
          × (k ≤ 3)
          × ((k ≡ 3)
              ⊎ ((receiving.config.com_cfg.protocol_type ≡ 1)
                  × ((n : ℕ) × ((good_receipt.blocks n).answered ≡ false)))))
receive_file-installed_example =
    receive_file-installed good_receipt 5 protocol_upload_file upload 3 place success receiving
      (omega arith)

-- Both paths are there, and no other thread calls.
abbrev good_order : OrderEnv
good_order = record {
  before_check = [];
  path = some place;
  source_path = some (codes "/www/b");
  before_judge = [];
  now = 7;
  before_put = [];
  io = all_well;
}

abbrev move_order : OrderMsg
move_order = mv (record {
  site_name = sends_a.site_name;
  dest_path_file = sends_a.dest_path_file;
  sended_time = sends_a.sended_time;
  src_path_file = codes "news:/b";
})

receive_order-OrderCalls_example :
    (cs : List Call) × OrderCalls good_order 5 move_order idle
      (receive_order good_order 5 move_order idle).action
      cs
    × ((receive_order good_order 5 move_order idle).queue ≡ run cs idle)
receive_order-OrderCalls_example = receive_order-OrderCalls good_order 5 move_order idle

moved : (receive_order good_order 5 move_order idle).action ≡ some (mv_file (codes "/www/b") place)
unfolding receive_order order_checked mv_cp_checked source_there moved_from carry_out find bytes_eq
    insert
moved = refl

-- A file that is there.
abbrev good_name : NameEnv
good_name = record {
  before_check = [];
  answered = true;
  arrival = arrived;
  name = codes " /tmp/a ";
  is_directory = λ s. false;
  stat = λ s. plain;
  file_size = λ s. 3;
  now = 7;
  before_put = [];
  io = all_well;
}
