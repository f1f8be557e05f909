-- ===== src/Head.antt =====
-- sharelib/FileUploadMsg.h, FileDelMsg.h, ServerAddMsg.h and ServerDelMsg.h: the messages of the
-- first version, which are the bytes of a struct, as sharelib/ProtocolMng.cpp fills them in and
-- reads them. No struct has bytes between its members.
use octopusd.Prelude.{ℕ, ◌+◌, ◌-◌, ◌∷◌, [], ◌++◌, List, leb, if◌then◌else◌, length, take, drop}
use octopusd.Prelude.Bytes.{Bytes}
use octopusd.Prelude.Int.{ℤ, pos, negsuc}
use octopusd.Queue.{SendDuty}
use octopusd.Receiver.{FileUploadMsg}
use octopusd.Receiver.Orders.{FileDelMsg, FileMvCpMsg}
use octopusd.Receiver.Named.{len_of_path_file_name}
use octopusd.Sender.{
  ResponseCode, check_ok, success, fail, head_fail, info_fail, data_fail, msg_error, service_pause,
  cancel_duty, unknown_code,
}
use octopusd.Server.{ServerMsg}
use octopusd.Wire.{c_string, int_bytes, bytes_int}
pub mod RoundTrip

abbrev pub len_of_site_name : ℕ
len_of_site_name = 32

abbrev pub len_of_time : ℕ
len_of_time = 20

abbrev pub len_of_ip_addr : ℕ
len_of_ip_addr = 20

-- `strcpy` to a member: what stood behind the text's end stays.
unfoldable pub put_field : Bytes → Bytes → Bytes
put_field old s = s ++ 0 ∷ drop (length s + 1) old

-- `sureValidSrt` for one member, and the text that the member then holds.
unfoldable pub sure_valid : ℕ → Bytes → Bytes
sure_valid n s = take (n - 1) s ++ 0 ∷ []

unfoldable pub get_field : ℕ → Bytes → Bytes
unfolding sure_valid c_string
get_field n s = c_string (sure_valid n (take n s))

-- `ntohl`, as an `int`.
unfoldable pub signed : ℕ → ℤ
signed n = if leb 2147483648 n then negsuc (4294967295 - n) else pos n

unfoldable pub get_int : Bytes → ℤ
unfolding signed bytes_int
get_int (a ∷ b ∷ c ∷ d ∷ s) = signed (bytes_int a b c d)
get_int _ = pos 0

unfoldable pub get_char : Bytes → ℕ
get_char [] = 0
get_char (c ∷ s) = c

-- CFileUploadMsg::UploadFileType.
abbrev pub file_name : ℕ
file_name = 1

abbrev pub file_data : ℕ
file_data = 2

-- A CFileUploadMsg with its `m_cDataType`.
pub record UploadHead : Type 0 where
  pub msg : FileUploadMsg
  pub data_type : ℕ

-- What the members of a message hold before they are filled in.
pub record OldBytes : Type 0 where
  pub site : Bytes
  pub dest : Bytes
  pub src : Bytes
  pub time : Bytes
  pub reserve : Bytes

-- The messages that `processSend` sends for a duty.
unfoldable pub upload_bytes : OldBytes → SendDuty → ℕ → Bytes
unfolding put_field int_bytes
upload_bytes old d size =
    put_field old.site d.site_name
    ++ (put_field old.dest d.dest_path_file
        ++ (put_field old.time d.sended_time ++ file_data ∷ (old.reserve ++ int_bytes size)))

unfoldable pub del_bytes : OldBytes → SendDuty → Bytes
unfolding put_field
del_bytes old d =
    put_field old.site d.site_name
    ++ (put_field old.dest d.dest_path_file ++ put_field old.time d.sended_time)

unfoldable pub mv_cp_bytes : OldBytes → SendDuty → Bytes
unfolding put_field
mv_cp_bytes old d =
    put_field old.site d.site_name
    ++ (put_field old.dest d.dest_path_file
        ++ (put_field old.src d.local_path_file ++ put_field old.time d.sended_time))

-- The messages as `processRecv` reads them.
unfoldable pub read_upload : Bytes → UploadHead
unfolding get_field get_int get_char
read_upload s =
    let dest = drop len_of_site_name s in
    let time = drop len_of_path_file_name dest in
    let type = drop len_of_time time in
    record {
      msg = record {
        site_name = get_field len_of_site_name s;
        dest_path_file = get_field len_of_path_file_name dest;
        sended_time = get_field len_of_time time;
        data_length = get_int (drop 4 type);
      };
      data_type = get_char type;
    }

unfoldable pub read_del : Bytes → FileDelMsg
unfolding get_field
read_del s =
    let dest = drop len_of_site_name s in
    record {
      site_name = get_field len_of_site_name s;
      dest_path_file = get_field len_of_path_file_name dest;
      sended_time = get_field len_of_time (drop len_of_path_file_name dest);
    }

unfoldable pub read_mv_cp : Bytes → FileMvCpMsg
unfolding get_field
read_mv_cp s =
    let dest = drop len_of_site_name s in
    let src = drop len_of_path_file_name dest in
    record {
      site_name = get_field len_of_site_name s;
      dest_path_file = get_field len_of_path_file_name dest;
      src_path_file = get_field len_of_path_file_name src;
      sended_time = get_field len_of_time (drop len_of_path_file_name src);
    }

-- A CServerAddMsg and a CServerDelMsg, which differ behind the port.
unfoldable pub read_server_msg : Bytes → ServerMsg
unfolding get_field get_int
read_server_msg s =
    let ip = drop len_of_site_name s in
    record {
      site_name = get_field len_of_site_name s;
      server_ip = get_field len_of_ip_addr ip;
      port = get_int (drop len_of_ip_addr ip);
    }

-- The byte of a response.
unfoldable pub response_byte : ResponseCode → ℕ
response_byte check_ok = 0
response_byte success = 1
response_byte fail = 2
response_byte head_fail = 3
response_byte info_fail = 4
response_byte data_fail = 5
response_byte msg_error = 6
response_byte service_pause = 7
response_byte cancel_duty = 8
response_byte unknown_code = 9
