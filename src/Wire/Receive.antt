-- ===== src/Wire/Receive.antt =====
-- sharelib/ProtocolMng.cpp: what `recvVersion2Msg` makes of the bytes that `sendVersion2Msg` sent,
-- and of bytes that nobody checked.
use octopusd.Prelude.{
  ℕ, zero, suc, ◌+◌, ◌-◌, ◌/◌, ◌%◌, ◌≡◌, ◌≢◌, ◌≤◌, ◌<◌, refl, sym, ap, ◌∙◌, true, false, List, [],
  ◌∷◌, ◌++◌, Option, some, arith, leb, ◌==◌, length, drop, length-append, append_assoc, append-nil,
  take-length-append, drop-length-append, All,
}
use octopusd.Prelude.Bytes.{Bytes}
use octopusd.Wire
use octopusd.Wire.Send.{tlv, tlvs, length-tlvs, send_version2_msg-tlvs}

-- A part that survives: it has no zero byte, and its length is an `int`.
abbrev pub IsText : Bytes → Type 0
IsText v = All (λ c. c ≢ 0) v × (length v < 2147483648)

c_string_lem : (v : Bytes) → All (λ c. c ≢ 0) v → Wire.c_string v ≡ v
unfolding Wire.c_string
c_string_lem [] h = refl
c_string_lem (c ∷ v) h = ground (arith, c_string_lem v h.1)

pub bytes_int-int_bytes :
    (v : ℕ)
    → v < 2147483648
    → Wire.bytes_int (v / 16777216 % 256) (v / 65536 % 256) (v / 256 % 256) (v % 256) ≡ v
unfolding Wire.bytes_int
bytes_int-int_bytes v h = omega arith

pub small_char : (i : ℕ) → i < 128 → Wire.char_as_uint (i % 256) ≡ i
unfolding Wire.char_as_uint
small_char i h = ground arith

pub same : (n : ℕ) → (n == n) ≡ true
same n = ground arith

fits : (v rest : Bytes) → leb (length v) (length (v ++ rest)) ≡ true
fits v rest = ground (arith, length-append {0} v rest)

pub small_len : (n : ℕ) → n < 2147483648 → leb 2147483648 n ≡ false
small_len n h = ground arith

get_string_lem :
    (v rest : Bytes)
    → All (λ c. c ≢ 0) v
    → Wire.msg_get_string (v ++ rest) (length v) ≡ some (v, rest)
unfolding Wire.msg_get_string
get_string_lem v rest h =
    rw (fits v rest, take-length-append {0} v rest, drop-length-append {0} v rest, c_string_lem v h)
      refl

get_value_lem :
    (v rest : Bytes) → IsText v → Wire.get_value (some (length v, v ++ rest)) ≡ Wire.part v rest
unfolding Wire.get_value
get_value_lem v rest h = rw (small_len (length v) h.1, get_string_lem v rest h.0) refl

get_part_lem :
    (i : ℕ) (v rest : Bytes)
    → i < 128
    → IsText v
    → Wire.get_part i (Wire.msg_get_char (tlv i v ++ rest)) ≡ Wire.part v rest
unfolding Wire.get_part Wire.msg_get_char Wire.msg_get_int tlv Wire.int_bytes
get_part_lem i v rest h t =
    rw (small_char i h, same i, bytes_int-int_bytes (length v) t.1) (get_value_lem v rest t)

recv_part :
    (f : ℕ) (v rest : Bytes) (vs : List Bytes)
    → length vs < 128
    → IsText v
    → Wire.recv_loop (suc f) (tlv (length vs) v ++ rest) vs ≡ Wire.recv_loop f rest (vs ++ v ∷ [])
unfolding Wire.recv_loop tlv
recv_part f v rest vs h t = rw (get_part_lem (length vs) v rest h t, Wire.recv_loop) refl

length-snoc : (vs : List Bytes) (v : Bytes) → length (vs ++ v ∷ []) ≡ length vs + 1
length-snoc vs v = length-append {0} vs (v ∷ [])

-- Parts in the order of their numbers are read back one by one.
recv_loop-tlvs :
    (f : ℕ) (ws vs : List Bytes)
    → length ws ≤ f
    → length vs + length ws ≤ 128
    → All IsText ws
    → Wire.recv_loop f (tlvs (length vs) ws) vs ≡ some (Wire.received (vs ++ ws))
unfolding tlvs
recv_loop-tlvs f [] vs h k t =
    unfold Wire.recv_loop in ap (λ l. some (Wire.received l)) (sym (append-nil vs))
recv_loop-tlvs zero (w ∷ ws) vs h k t = elim h [ ]
recv_loop-tlvs (suc f) (w ∷ ws) vs h k t =
    recv_part f w (tlvs (length vs + 1) ws) vs (omega arith) t.0
    ∙ ap (λ n. Wire.recv_loop f (tlvs n ws) (vs ++ w ∷ [])) (sym (length-snoc vs w))
    ∙ recv_loop-tlvs f ws (vs ++ w ∷ []) (omega arith) (omega (arith, length-snoc vs w)) t.1
    ∙ ap (λ l. some (Wire.received l)) (append_assoc vs (w ∷ []) ws)

-- A socket that gives the next bytes of what was sent.
abbrev pub IsStream : (ℕ → Bytes → Option (Bytes × Bytes)) → Type 0
IsStream receive_msg = (s rest : Bytes) → receive_msg (length s) (s ++ rest) ≡ some (s, rest)

body_len_lem : (n : ℕ) → 6 < n → n ≤ 262146 → Wire.body_len n ≡ some (n - 6)
unfolding Wire.body_len
body_len_lem n h k = ground arith

enough : (i : ℕ) (ws : List Bytes) → length ws ≤ length (tlvs i ws)
enough i ws = omega (arith, length-tlvs i ws)

recv_len_lem :
    (receive_msg : ℕ → Bytes → Option (Bytes × Bytes)) (n : ℕ) (s : Bytes)
    → n < 2147483648
    → Wire.recv_len receive_msg (Wire.msg_get_int (Wire.int_bytes n)) s
      ≡ Wire.recv_body receive_msg (Wire.body_len n) s
unfolding Wire.recv_len Wire.msg_get_int Wire.int_bytes
recv_len_lem receive_msg n s h =
    ap (λ k. Wire.recv_body receive_msg (Wire.body_len k) s) (bytes_int-int_bytes n h)

recv_head_lem :
    (receive_msg : ℕ → Bytes → Option (Bytes × Bytes)) (n : ℕ) (s : Bytes)
    → IsStream receive_msg
    → Wire.recv_version2_msg receive_msg (Wire.int_bytes n ++ s)
      ≡ Wire.recv_len receive_msg (Wire.msg_get_int (Wire.int_bytes n)) s
unfolding Wire.recv_version2_msg Wire.int_bytes
recv_head_lem receive_msg n s r = rw (r (Wire.int_bytes n) s, Wire.recv_version2_msg) refl

total_len_lem :
    (ws : List Bytes)
    → ws ≢ []
    → (6 < Wire.total_len ws) × (Wire.total_len ws - 6 ≡ length (tlvs 0 ws))
unfolding Wire.total_len
total_len_lem [] n = elim (n refl) [ ]
total_len_lem (w ∷ ws) n = (omega arith, omega (arith, length-tlvs 0 (w ∷ ws)))

recv_body_lem :
    (receive_msg : ℕ → Bytes → Option (Bytes × Bytes)) (ws : List Bytes) (rest : Bytes)
    → IsStream receive_msg
    → length ws ≤ 128
    → All IsText ws
    → Wire.recv_body receive_msg (some (length (tlvs 0 ws))) (tlvs 0 ws ++ rest)
      ≡ (some (Wire.received ws), rest)
unfolding Wire.recv_body
recv_body_lem receive_msg ws rest r h t =
    rw (r (tlvs 0 ws) rest, Wire.recv_body)
      (ap (λ x. (x, rest))
        (recv_loop-tlvs (length (tlvs 0 ws)) ws [] (enough 0 ws) (omega arith) t))

-- The parts that are sent are the parts that are received, and the socket stands behind them,
-- over a socket that gives the bytes in their order: for at least one part and at most 128, none
-- with a zero byte and each shorter than 2^31 bytes, within the limit that the receiver sets.
-- The sender's buffer is as long as the message, and the first two bytes are read by the caller.
pub recv_version2_msg-send_version2_msg :
    (receive_msg : ℕ → Bytes → Option (Bytes × Bytes)) (msg_type : ℕ) (ws : List Bytes)
    (buf rest : Bytes)
    → IsStream receive_msg
    → length buf ≡ Wire.total_len ws
    → ws ≢ []
    → length ws ≤ 128
    → Wire.total_len ws ≤ 262146
    → All IsText ws
    → Wire.recv_version2_msg receive_msg (drop 2 (Wire.send_version2_msg msg_type ws buf) ++ rest)
      ≡ (some (Wire.received ws), rest)
recv_version2_msg-send_version2_msg receive_msg msg_type ws buf rest r b n h l t =
    let (long, e) = total_len_lem ws n in
    ap (λ s. Wire.recv_version2_msg receive_msg (drop 2 s ++ rest))
      (send_version2_msg-tlvs msg_type ws buf b)
    ∙ ap (Wire.recv_version2_msg receive_msg)
        (append_assoc (Wire.int_bytes (Wire.total_len ws)) (tlvs 0 ws) rest)
    ∙ recv_head_lem receive_msg (Wire.total_len ws) (tlvs 0 ws ++ rest) r
    ∙ recv_len_lem receive_msg (Wire.total_len ws) (tlvs 0 ws ++ rest) (omega (arith, l))
    ∙ ap (λ o. Wire.recv_body receive_msg o (tlvs 0 ws ++ rest))
        (body_len_lem (Wire.total_len ws) long l ∙ ap some e)
    ∙ recv_body_lem receive_msg ws rest r h t
