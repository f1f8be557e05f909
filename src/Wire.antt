-- ===== src/Wire.antt =====
-- sharelib/ComFun.cpp, `msg_put*` and `msg_get*`, and sharelib/ProtocolMng.cpp,
-- `sendVersion2Msg`, `recvVersion2Msg` and `setVersion2Resp`: the messages of the second version,
-- whose parts each have their number, their length and their bytes. The fields of a message are
-- in network order; `int` stands as its 32 bits.
use octopusd.Prelude.{
  ℕ, zero, suc, ◌+◌, ◌-◌, ◌*◌, ◌/◌, ◌%◌, Bool, true, false, List, [], ◌∷◌, ◌++◌, Option, none, some,
  ltb, leb, ◌==◌, if◌then◌else◌, length, take, drop,
}
use octopusd.Prelude.Bytes.{Bytes, bytes_eq}
pub mod Send
pub mod Receive
pub mod Untrusted

-- `memcpy` of some bytes to a place of the buffer.
unfoldable pub write_at : ℕ → Bytes → Bytes → Bytes
write_at offset v buf = take offset buf ++ (v ++ drop (offset + length v) buf)

-- The four bytes of an `int` in network order, and the `int` of four bytes.
unfoldable pub int_bytes : ℕ → Bytes
int_bytes v = v / 16777216 % 256 ∷ v / 65536 % 256 ∷ v / 256 % 256 ∷ v % 256 ∷ []

unfoldable pub bytes_int : ℕ → ℕ → ℕ → ℕ → ℕ
bytes_int a b c d = ((a * 256 + b) * 256 + c) * 256 + d

-- CComFun::msg_putChar, msg_putInt and msg_putString; the caller adds what they return to its
-- offset.
unfoldable pub msg_put_char : Bytes → ℕ → ℕ → Bytes
unfolding write_at
msg_put_char buf value offset = write_at offset (value % 256 ∷ []) buf

unfoldable pub msg_put_int : Bytes → ℕ → ℕ → Bytes
unfolding write_at int_bytes
msg_put_int buf value offset = write_at offset (int_bytes value) buf

unfoldable pub msg_put_string : Bytes → Bytes → ℕ → ℕ → Bytes
unfolding write_at
msg_put_string buf value value_len offset =
    if value_len == 0 then buf else write_at offset (take value_len value) buf

-- CComFun::msg_getChar, msg_getInt and msg_getString, on what stands in the buffer from the
-- offset on: the value and what stands behind it, or `none` where the read leaves the buffer.
unfoldable pub msg_get_char : Bytes → Option (ℕ × Bytes)
msg_get_char [] = none
msg_get_char (c ∷ s) = some (c, s)

unfoldable pub msg_get_int : Bytes → Option (ℕ × Bytes)
unfolding bytes_int
msg_get_int (a ∷ b ∷ c ∷ d ∷ s) = some (bytes_int a b c d, s)
msg_get_int _ = none

-- `value = pValue`: a text ends at its first zero.
unfoldable pub c_string : Bytes → Bytes
c_string [] = []
c_string (c ∷ s) = let rest = c_string s in if c == 0 then [] else c ∷ rest

unfoldable pub msg_get_string : Bytes → ℕ → Option (Bytes × Bytes)
unfolding c_string
msg_get_string s value_len =
    if leb value_len (length s) then some (c_string (take value_len s), drop value_len s) else none

-- `Version2`.
abbrev pub version2 : ℕ
version2 = 2

-- The loop of `sendVersion2Msg`, from the part of the number `i` on; `cur` is `iCurLen`.
unfoldable pub send_loop : List Bytes → ℕ → Bytes → ℕ → Bytes
unfolding msg_put_char msg_put_int msg_put_string
send_loop [] i buf cur = buf
send_loop (v ∷ vs) i buf cur =
    let b1 = msg_put_char buf i cur in
    let b2 = msg_put_int b1 (length v) (cur + 1) in
    let b3 = msg_put_string b2 v (length v) (cur + 1 + 4) in
    send_loop vs (i + 1) b3 (cur + 1 + 4 + length v)

unfoldable pub content_len : List Bytes → ℕ
content_len [] = 0
content_len (v ∷ vs) = length v + content_len vs

unfoldable pub total_len : List Bytes → ℕ
unfolding content_len
total_len vs = 6 + length vs * (1 + 4) + content_len vs

-- CProtocolMng::sendVersion2Msg up to its `sendMsg`: the bytes that it sends, where `buf` is what
-- the new buffer holds.
unfoldable pub send_version2_msg : ℕ → List Bytes → Bytes → Bytes
unfolding msg_put_char msg_put_int send_loop total_len
send_version2_msg msg_type vs buf =
    let b1 = msg_put_char buf version2 0 in
    let b2 = msg_put_char b1 msg_type 1 in
    let b3 = msg_put_int b2 (total_len vs) 2 in send_loop vs 0 b3 6

-- How a receipt ends: -1, a read outside of the buffer, or 0 with the parts.
pub data Recv : Type 0 where
  refused : Recv
  overrun : Recv
  received : List Bytes → Recv

-- `(unsigned int)cType` for a signed `char`.
unfoldable pub char_as_uint : ℕ → ℕ
char_as_uint c = if ltb c 128 then c else c + 4294967040

-- One part from `pBuffer + iCurLen` on: its value and what stands behind it.
pub data Part : Type 0 where
  bad_part : Part
  outside : Part
  part : Bytes → Bytes → Part

unfoldable pub get_value : Option (ℕ × Bytes) → Part
unfolding msg_get_string
get_value none = outside
get_value (some (len, s)) =
    if leb 2147483648 len
    then bad_part
    else elim (msg_get_string s len) [ none ↦ outside | some (v, rest) ↦ part v rest ]

unfoldable pub get_part : ℕ → Option (ℕ × Bytes) → Part
unfolding char_as_uint get_value msg_get_int
get_part n none = outside
get_part n (some (c, s)) = if char_as_uint c == n then get_value (msg_get_int s) else bad_part

-- The loop of `recvVersion2Msg` on fuel; `none` means that the fuel ran out.
unfoldable pub recv_loop : ℕ → Bytes → List Bytes → Option Recv
unfolding get_part msg_get_char
recv_loop fuel [] vs = some (received vs)
recv_loop zero (c ∷ s) vs = none
recv_loop (suc f) (c ∷ s) vs = elim (get_part (length vs) (msg_get_char (c ∷ s))) [
  | bad_part ↦ some refused
  | outside ↦ some overrun
  | part v rest ↦ recv_loop f rest (vs ++ v ∷ [])
]

-- `ntohl(iTotalLen) - 6`, where the code goes on with it.
unfoldable pub body_len : ℕ → Option ℕ
body_len bits =
    if leb 2147483648 bits
    then none
    else if leb bits 6
    then none
    else if ltb (4 * 65535) (bits - 6)
    then none
    else some (bits - 6)

-- CProtocolMng::recvVersion2Msg over the socket's `receiveMsg`, which gives so many bytes and the
-- socket behind them, or fails.
module _ {S : Type 0} (receive_msg : ℕ → S → Option (Bytes × S)) where
  unfoldable pub recv_body : Option ℕ → S → Option Recv × S
  unfolding recv_loop
  recv_body none s = (some refused, s)
  recv_body (some n) s = elim (receive_msg n s) [
    | none ↦ (some refused, s)
    | some (body, s') ↦ (recv_loop (length body) body [], s')
  ]

  unfoldable pub recv_len : Option (ℕ × Bytes) → S → Option Recv × S
  unfolding recv_body body_len
  recv_len none s = (some refused, s)
  recv_len (some (bits, _)) s = recv_body (body_len bits) s

  unfoldable pub recv_version2_msg : S → Option Recv × S
  unfolding recv_len msg_get_int
  recv_version2_msg s = elim (receive_msg 4 s) [
    | none ↦ (some refused, s)
    | some (len, s') ↦ recv_len (msg_get_int len) s'
  ]

-- CProtocolMng::setVersion2Resp.
unfoldable pub set_version2_resp : Bytes → Bytes → Bytes → List Bytes
unfolding bytes_eq
set_version2_resp code desc [] = code ∷ desc ∷ []
set_version2_resp code desc (c ∷ value) =
    if bytes_eq code (b'0' ∷ []) then code ∷ desc ∷ (c ∷ value) ∷ [] else code ∷ desc ∷ []
