-- ===== src/Client.antt =====
-- api/RsyncOct.cpp: the client's interface, which sends one message to a daemon and waits for the
-- response. What the socket and the file system answer is an argument.
use octopusd.Prelude.{
  ℕ, zero, suc, ◌+◌, ◌-◌, Bool, true, false, not, ◌||◌, List, [], ◌∷◌, ◌++◌, Option, none, some,
  leb, ◌==◌, if◌then◌else◌, length, take, drop,
}
use octopusd.Prelude.Bytes.{Bytes}
use octopusd.Prelude.Int.{ℤ, pos, negsuc}
use octopusd.Queue.{
  protocol_upload_file, protocol_del_file, protocol_mv_file, protocol_cp_file, protocol_pack_file,
}
use octopusd.Receiver.Named.{len_of_path_file_name}
use octopusd.Sender.{msg_buffer_size, write_to_file_size}
use octopusd.Wire.{int_bytes}
use octopusd.Head.{len_of_site_name, len_of_time, file_name}
use octopusd.Turn.{version1}
pub mod Messages
pub mod Pack
pub mod Content

abbrev pub zeros : ℕ → Bytes
zeros zero = []
zeros (suc n) = 0 ∷ zeros n

-- `strncpy` to a field of so many bytes: without an end mark where the text is too long.
unfoldable pub strncpy : ℕ → Bytes → Bytes
strncpy n s = take n s ++ zeros (n - length s)

-- The members of CRsyncOct.
pub record RsyncOct : Type 0 where
  pub server_ip : Bytes
  pub server_port : ℤ
  pub protocol_type : ℕ
  pub file_type : ℕ
  pub site_name : Bytes
  pub remote_path_name : Bytes
  pub local_path_name : Bytes
  pub send_time : Bytes

unfoldable pub set_server : Bytes → ℤ → RsyncOct → RsyncOct
set_server ip port c = record c { server_ip = ip; server_port = port }

-- The site, the place and the time, which `getMsgTime` gives.
unfoldable pub set_place : ℕ → Bytes → Bytes → Bytes → RsyncOct → RsyncOct
set_place type site remote now c = record c {
  protocol_type = type;
  site_name = take len_of_site_name site;
  remote_path_name = take len_of_path_file_name remote;
  send_time = now;
}

unfoldable pub set_upload_info : ℕ → Bytes → Bytes → Bytes → Bytes → RsyncOct → RsyncOct
unfolding set_place
set_upload_info type site remote local now c =
    record (set_place protocol_upload_file site remote now c) {
      file_type = type;
      local_path_name = take len_of_path_file_name local;
    }

unfoldable pub set_delete_info : Bytes → Bytes → Bytes → RsyncOct → RsyncOct
unfolding set_place
set_delete_info site remote now c = set_place protocol_del_file site remote now c

-- `sprintf(m_sLocalPathName, "%s:%s", ...)`.
unfoldable pub set_source : ℕ → Bytes → Bytes → Bytes → Bytes → Bytes → RsyncOct → RsyncOct
unfolding set_place
set_source type site remote src_site src now c = record (set_place type site remote now c) {
  local_path_name = src_site ++ b':' ∷ src;
}

unfoldable pub set_mv_info : Bytes → Bytes → Bytes → Bytes → Bytes → RsyncOct → RsyncOct
unfolding set_source
set_mv_info site remote src_site src now c =
    set_source protocol_mv_file site remote src_site src now c

unfoldable pub set_cp_info : Bytes → Bytes → Bytes → Bytes → Bytes → RsyncOct → RsyncOct
unfolding set_source
set_cp_info site remote src_site src now c =
    set_source protocol_cp_file site remote src_site src now c

-- Whether each step succeeds, what the file holds, what the buffer holds before it is filled in,
-- and the byte of the response.
pub record ExecuteEnv : Type 0 where
  pub connected : Bool
  pub head_written : Bool
  pub message_written : Bool
  pub content : Option Bytes
  pub block_written : ℕ → Bool
  pub response : Option ℕ
  pub reserve : Bytes

-- The messages behind the two bytes of the head.
unfoldable pub upload_message : Bytes → RsyncOct → ℕ → Bytes
unfolding strncpy int_bytes
upload_message reserve c size =
    strncpy len_of_site_name c.site_name
    ++ (strncpy len_of_path_file_name c.remote_path_name
        ++ (strncpy len_of_time c.send_time ++ c.file_type ∷ (reserve ++ int_bytes size)))

-- With the path behind it, where the file is sent by its name.
unfoldable pub name_message : Bytes → RsyncOct → Bytes
unfolding upload_message
name_message reserve c = upload_message reserve c (length c.local_path_name) ++ c.local_path_name

unfoldable pub del_message : RsyncOct → Bytes
unfolding strncpy
del_message c =
    strncpy len_of_site_name c.site_name
    ++ (strncpy len_of_path_file_name c.remote_path_name ++ strncpy len_of_time c.send_time)

unfoldable pub mv_cp_message : RsyncOct → Bytes
unfolding strncpy
mv_cp_message c =
    strncpy len_of_site_name c.site_name
    ++ (strncpy len_of_path_file_name c.remote_path_name
        ++ (strncpy len_of_path_file_name c.local_path_name ++ strncpy len_of_time c.send_time))

-- The loops over the file, on fuel: the blocks of what one `fread` gave, and the reads. The number
-- of the next block and what is sent; `none` means that a block is not written.
unfoldable pub client_chunk : ℕ → ExecuteEnv → ℕ → Bytes → Bytes → Option (ℕ × Bytes)
client_chunk fuel env k [] out = some (k, out)
client_chunk zero env k (b ∷ s) out = none
client_chunk (suc f) env k (b ∷ s) out =
    let rest =
      client_chunk f env (k + 1) (drop msg_buffer_size (b ∷ s))
        (out ++ take msg_buffer_size (b ∷ s)) in
    if env.block_written k then rest else none

unfoldable pub client_file : ℕ → ExecuteEnv → ℕ → Bytes → Bytes → Option Bytes
unfolding client_chunk
client_file fuel env k [] out = some out
client_file zero env k (b ∷ s) out = none
client_file (suc f) env k (b ∷ s) out =
    let chunk = take write_to_file_size (b ∷ s) in
    elim (client_chunk (length chunk) env k chunk out) [
      | none ↦ none
      | some (k', out') ↦ client_file f env k' (drop write_to_file_size (b ∷ s)) out'
    ]

-- The response.
unfoldable pub client_answer : Option ℕ → ℤ
client_answer none = negsuc 9
client_answer (some code) = if code == 1 then pos 0 else negsuc 10

unfoldable pub client_answered : ExecuteEnv → Option Bytes → ℤ
unfolding client_answer
client_answered env none = negsuc 6
client_answered env (some out) = client_answer env.response

unfoldable pub client_content : ExecuteEnv → RsyncOct → Option Bytes → ℤ
unfolding client_answered client_file
client_content env c none = negsuc 4
client_content env c (some content) =
    if not env.message_written
    then negsuc 5
    else client_answered env (client_file (length content) env 0 content [])

-- The switch over the type of the message.
unfoldable pub client_by_type : ExecuteEnv → RsyncOct → ℤ
unfolding client_answer client_content
client_by_type env c =
    if c.protocol_type == protocol_upload_file || c.protocol_type == protocol_pack_file
    then (if c.file_type == file_name
        then (if env.message_written then client_answer env.response else negsuc 3)
        else client_content env c env.content)
    else if c.protocol_type == protocol_del_file
        || (c.protocol_type == protocol_mv_file || c.protocol_type == protocol_cp_file)
    then (if env.message_written then client_answer env.response else negsuc 7)
    else negsuc 8

-- CRsyncOct::execute.
unfoldable pub execute : ExecuteEnv → RsyncOct → ℤ
unfolding client_by_type
execute env c =
    if length c.server_ip == 0 || length c.site_name == 0
    then negsuc 0
    else if not env.connected
    then negsuc 1
    else if not env.head_written
    then negsuc 2
    else client_by_type env c

-- The calls that set a message and send it.
unfoldable pub upload_file :
    ExecuteEnv → Bytes → ℤ → ℕ → Bytes → Bytes → Bytes → Bytes → RsyncOct → ℤ
unfolding execute set_upload_info set_server
upload_file env ip port type site remote local now c =
    execute env (set_upload_info type site remote local now (set_server ip port c))

unfoldable pub delete_file : ExecuteEnv → Bytes → ℤ → Bytes → Bytes → Bytes → RsyncOct → ℤ
unfolding execute set_delete_info set_server
delete_file env ip port site remote now c =
    execute env (set_delete_info site remote now (set_server ip port c))

unfoldable pub mv_file :
    ExecuteEnv → Bytes → ℤ → Bytes → Bytes → Bytes → Bytes → Bytes → RsyncOct → ℤ
unfolding execute set_mv_info set_server
mv_file env ip port site remote src_site src now c =
    execute env (set_mv_info site remote src_site src now (set_server ip port c))

unfoldable pub cp_file :
    ExecuteEnv → Bytes → ℤ → Bytes → Bytes → Bytes → Bytes → Bytes → RsyncOct → ℤ
unfolding execute set_cp_info set_server
cp_file env ip port site remote src_site src now c =
    execute env (set_cp_info site remote src_site src now (set_server ip port c))
