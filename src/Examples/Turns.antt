-- ===== src/Examples/Turns.antt =====
-- sharelib/ProtocolMng.cpp: a turn of a receive thread, and the bytes of its message.
use octopusd.Prelude.{ℕ, zero, suc, ◌≡◌, refl, false, true, [], ◌∷◌, none, some, arith}
use octopusd.Prelude.Bytes.{Bytes, codes}
use octopusd.Prelude.Int.{pos}
use octopusd.Queue.{protocol_upload_file}
use octopusd.Receiver.{arrived}
use octopusd.Head.{
  OldBytes, file_data, upload_bytes, del_bytes, mv_cp_bytes, read_upload, read_del, read_mv_cp,
}
use octopusd.Head.RoundTrip.{HasRoom, DutyFits, messages_read_back}
use octopusd.Turn.{TurnEnv, process_recv}
use octopusd.Turn.Answers.{Answered, process_recv-Answered}
use octopusd.Text.FilePath.{plain}
use octopusd.Examples.Data.{sends_a, all_well}
use octopusd.Examples.Managers.{manager, full_disk}

-- What a member holds that nobody filled in.
abbrev dirt : ℕ → Bytes
dirt zero = []
dirt (suc n) = 204 ∷ dirt n

abbrev dirty : OldBytes
dirty = record { site = dirt 32; dest = dirt 256; src = dirt 256; time = dirt 20; reserve = dirt 3 }

dirty-HasRoom : HasRoom dirty
dirty-HasRoom = record { site = refl; dest = refl; src = refl; time = refl; reserve = refl }

sends_a-DutyFits : DutyFits sends_a
sends_a-DutyFits = record {
  site = (ground arith, omega arith);
  dest = (ground arith, omega arith);
  src = (ground arith, omega arith);
  time = (ground arith, omega arith);
}

messages_read_back_example :
    (read_upload (upload_bytes dirty sends_a 12) ≡ record {
      msg = record {
        site_name = codes "news";
        dest_path_file = codes "/a.html";
        sended_time = codes "12";
        data_length = pos 12;
      };
      data_type = file_data;
    })
    × (read_del (del_bytes dirty sends_a) ≡ record {
      site_name = codes "news";
      dest_path_file = codes "/a.html";
      sended_time = codes "12";
    })
    × (read_mv_cp (mv_cp_bytes dirty sends_a) ≡ record {
      site_name = codes "news";
      dest_path_file = codes "/a.html";
      sended_time = codes "12";
      src_path_file = codes "/tmp/a";
    })
messages_read_back_example =
    messages_read_back dirty sends_a 12 dirty-HasRoom sends_a-DutyFits (omega arith)

-- Three bytes for a file of the site, and a socket that has nothing more.
abbrev arrival : TurnEnv
arrival = record {
  head = arrived;
  version = 1;
  type = protocol_upload_file;
  info = arrived;
  info_bytes = upload_bytes dirty sends_a 3;
  recv = record {
    before_check = [];
    tmp_path = some (codes "/www/tmp");
    real_path = some (codes "/www/abc");
    opened = true;
    incoming = codes "abc";
    blocks = λ n. record { meanwhile = []; answered = true; arrival = arrived; flushed = true };
    rest_written = true;
    is_moved = true;
    is_unpacked = true;
    now = 7;
    before_put = [];
    io = all_well;
  };
  name = record {
    before_check = [];
    answered = true;
    arrival = arrived;
    name = codes "/www/abc";
    is_directory = λ s. false;
    stat = λ s. plain;
    file_size = λ s. 3;
    now = 7;
    before_put = [];
    io = all_well;
  };
  order = record {
    before_check = [];
    path = some (codes "/www/abc");
    source_path = some (codes "/www/abc");
    before_judge = [];
    now = 7;
    before_put = [];
    io = all_well;
  };
  manager = full_disk;
  receive = λ n k. none;
}

process_recv-Answered_example : Answered arrival manager (process_recv arrival 5 manager)
process_recv-Answered_example = process_recv-Answered arrival 5 manager refl
