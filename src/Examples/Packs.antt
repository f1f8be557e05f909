-- ===== src/Examples/Packs.antt =====
-- api/RsyncOct.cpp: a client and what a daemon reads of its messages.
use octopusd.Prelude.{◌≡◌, refl, [], ◌∷◌, arith}
use octopusd.Prelude.Bytes.{codes}
use octopusd.Prelude.Int.{pos}
use octopusd.Head.{file_data, read_upload, read_del, read_mv_cp}
use octopusd.Client.{RsyncOct, upload_message, del_message, mv_cp_message}
use octopusd.Client.Messages.{client_messages_read}

abbrev client : RsyncOct
client = record {
  server_ip = codes "10.0.0.1";
  server_port = pos 9000;
  protocol_type = 1;
  file_type = file_data;
  site_name = codes "news-of-the-world-in-the-evening-edition";
  remote_path_name = codes "/a.html";
  local_path_name = codes "/tmp/a";
  send_time = codes "2024010112000012345";
}

client_messages_read_example :
    (read_upload (upload_message (1 ∷ 2 ∷ 3 ∷ []) client 5) ≡ record {
      msg = record {
        site_name = codes "news-of-the-world-in-the-evenin";
        dest_path_file = codes "/a.html";
        sended_time = codes "2024010112000012345";
        data_length = pos 5;
      };
      data_type = file_data;
    })
    × (read_del (del_message client) ≡ record {
      site_name = codes "news-of-the-world-in-the-evenin";
      dest_path_file = codes "/a.html";
      sended_time = codes "2024010112000012345";
    })
    × (read_mv_cp (mv_cp_message client) ≡ record {
      site_name = codes "news-of-the-world-in-the-evenin";
      dest_path_file = codes "/a.html";
      sended_time = codes "2024010112000012345";
      src_path_file = codes "/tmp/a";
    })
client_messages_read_example =
    client_messages_read client (1 ∷ 2 ∷ 3 ∷ []) 5 (ground arith) (ground arith) (ground arith)
      (ground arith) refl (omega arith)
