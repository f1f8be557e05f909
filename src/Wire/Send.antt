-- ===== src/Wire/Send.antt =====
-- sharelib/ProtocolMng.cpp: the bytes that `sendVersion2Msg` sends.
use octopusd.Prelude.{
  ℕ, zero, suc, ◌+◌, ◌-◌, ◌*◌, ◌%◌, ◌≡◌, ◌≤◌, refl, sym, ap, ◌∙◌, false, List, [], ◌∷◌, ◌++◌, arith,
  ◌==◌, length, take, drop, length-append, append_assoc, append-nil, take-length-append,
}
use octopusd.Prelude.Bytes.{Bytes}
use octopusd.Wire

-- One part: its number, its length, its bytes.
unfoldable pub tlv : ℕ → Bytes → Bytes
unfolding Wire.int_bytes
tlv i v = i % 256 ∷ (Wire.int_bytes (length v) ++ v)

unfoldable pub tlvs : ℕ → List Bytes → Bytes
unfolding tlv
tlvs i [] = []
tlvs i (v ∷ vs) = tlv i v ++ tlvs (i + 1) vs

pub length-tlvs :
    (i : ℕ) (vs : List Bytes) → length (tlvs i vs) ≡ length vs * (1 + 4) + Wire.content_len vs
unfolding tlvs tlv Wire.content_len Wire.int_bytes
length-tlvs i [] = refl
length-tlvs i (v ∷ vs) =
    omega (arith, length-append {0} v (tlvs (i + 1) vs), length-tlvs (i + 1) vs)

take_all : (v : Bytes) → take (length v) v ≡ v
take_all [] = refl
take_all (c ∷ v) = ap (◌∷◌ c) (take_all v)

zero_plus : (n : ℕ) → 0 + n ≡ n
zero_plus n = omega arith

plus_suc : (a n : ℕ) → suc a + n ≡ suc (a + n)
plus_suc a n = omega arith

drop_past : (done junk : Bytes) (n : ℕ) → drop (length done + n) (done ++ junk) ≡ drop n junk
drop_past [] junk n = ap (λ k. drop k junk) (zero_plus n)
drop_past (c ∷ done) junk n =
    ap (λ k. drop k (c ∷ (done ++ junk))) (plus_suc (length done) n) ∙ drop_past done junk n

drop_nil : (n : ℕ) → drop {A = ℕ} n [] ≡ []
drop_nil zero = refl
drop_nil (suc n) = refl

drop-drop :
    (a b junk : Bytes) → drop (length b) (drop (length a) junk) ≡ drop (length (a ++ b)) junk
drop-drop [] b junk = refl
drop-drop (c ∷ a) b [] = drop_nil (length b)
drop-drop (c ∷ a) b (d ∷ junk) = drop-drop a b junk

-- Bytes written behind what is done.
write_at_lem :
    (done v junk : Bytes) (o : ℕ)
    → o ≡ length done
    → Wire.write_at o v (done ++ junk) ≡ (done ++ v) ++ drop (length v) junk
unfolding Wire.write_at
write_at_lem done v junk o e =
    rw (e, take-length-append {0} done junk, drop_past done junk (length v))
      (sym (append_assoc done v (drop (length v) junk)))

put_char_lem :
    (done junk : Bytes) (v o : ℕ)
    → o ≡ length done
    → Wire.msg_put_char (done ++ junk) v o ≡ (done ++ v % 256 ∷ []) ++ drop 1 junk
unfolding Wire.msg_put_char
put_char_lem done junk v o = write_at_lem done (v % 256 ∷ []) junk o

put_int_lem :
    (done junk : Bytes) (v o : ℕ)
    → o ≡ length done
    → Wire.msg_put_int (done ++ junk) v o ≡ (done ++ Wire.int_bytes v) ++ drop 4 junk
unfolding Wire.msg_put_int Wire.int_bytes
put_int_lem done junk v o = write_at_lem done (Wire.int_bytes v) junk o

suc_not_zero : (n : ℕ) → (suc n == 0) ≡ false
suc_not_zero n = ground arith

put_string_lem :
    (done junk v : Bytes) (o : ℕ)
    → o ≡ length done
    → Wire.msg_put_string (done ++ junk) v (length v) o ≡ (done ++ v) ++ drop (length v) junk
unfolding Wire.msg_put_string
put_string_lem done junk [] o e = ap (λ t. t ++ junk) (sym (append-nil done))
put_string_lem done junk (c ∷ v) o e =
    rw (suc_not_zero (length v), take_all v) (write_at_lem done (c ∷ v) junk o e)

length_snoc :
    (done v : Bytes) (o n : ℕ) → o ≡ length done → length v ≡ n → o + n ≡ length (done ++ v)
length_snoc done v o n e k = omega (arith, length-append {0} done v)

-- The three writes of one part, with the number in front and the length as so many bytes.
put_part_lem :
    (done junk v : Bytes) (i cur : ℕ)
    → cur ≡ length done
    → Wire.msg_put_string
        (Wire.msg_put_int (Wire.msg_put_char (done ++ junk) i cur) (length v) (cur + 1))
        v
        (length v)
        (cur + 1 + 4)
      ≡ (done ++ tlv i v) ++ drop (length (tlv i v)) junk
unfolding tlv Wire.int_bytes
put_part_lem done junk v i cur e =
    let one : Bytes = i % 256 ∷ [] in
    let four = Wire.int_bytes (length v) in
    let put_rest : Bytes → Bytes = λ b.
      Wire.msg_put_string (Wire.msg_put_int b (length v) (cur + 1)) v (length v) (cur + 1 + 4) in
    let e1 = length_snoc done one cur 1 e refl in
    let e2 = length_snoc (done ++ one) four (cur + 1) 4 e1 refl in
    ap put_rest (put_char_lem done junk i cur e)
    ∙ ap (λ b. Wire.msg_put_string b v (length v) (cur + 1 + 4))
        (put_int_lem (done ++ one) (drop 1 junk) (length v) (cur + 1) e1)
    ∙ put_string_lem ((done ++ one) ++ four) (drop 4 (drop 1 junk)) v (cur + 1 + 4) e2
    ∙ ap (λ t. ((done ++ one) ++ four) ++ v ++ t)
        (drop-drop four v (drop 1 junk) ∙ drop-drop one (four ++ v) junk)
    ∙ ap (λ t. t ++ drop (length (tlv i v)) junk)
        (append_assoc (done ++ one) four v ∙ append_assoc done one (four ++ v))

length-tlv : (i : ℕ) (v : Bytes) → length (tlv i v) ≡ 5 + length v
unfolding tlv Wire.int_bytes
length-tlv i v = omega arith

-- The loop writes the parts behind what is done, over what the buffer held.
send_loop_lem :
    (vs : List Bytes) (i cur : ℕ) (done junk : Bytes)
    → cur ≡ length done
    → Wire.send_loop vs i (done ++ junk) cur ≡ (done ++ tlvs i vs) ++ drop (length (tlvs i vs)) junk
unfolding Wire.send_loop tlvs
send_loop_lem [] i cur done junk e = ap (λ t. t ++ junk) (sym (append-nil done))
send_loop_lem (v ∷ vs) i cur done junk e =
    let e' : cur + 1 + 4 + length v ≡ length (done ++ tlv i v) =
      omega (arith, e, length-append {0} done (tlv i v), length-tlv i v) in
    ap (λ b. Wire.send_loop vs (i + 1) b (cur + 1 + 4 + length v))
      (put_part_lem done junk v i cur e)
    ∙ send_loop_lem vs (i + 1) (cur + 1 + 4 + length v) (done ++ tlv i v)
        (drop (length (tlv i v)) junk) e'
    ∙ ap (λ t. (done ++ tlv i v) ++ tlvs (i + 1) vs ++ t)
        (drop-drop (tlv i v) (tlvs (i + 1) vs) junk)
    ∙ ap (λ t. t ++ drop (length (tlv i v ++ tlvs (i + 1) vs)) junk)
        (append_assoc done (tlv i v) (tlvs (i + 1) vs))

pub length-drop : (n : ℕ) (s : Bytes) → length (drop n s) ≡ length s - n
length-drop zero s = omega arith
length-drop (suc n) [] = omega arith
length-drop (suc n) (c ∷ s) = omega (arith, length-drop n s)

drop_all : (n : ℕ) (s : Bytes) → length s ≤ n → drop n s ≡ []
drop_all zero [] h = refl
drop_all zero (c ∷ s) h = elim h [ ]
drop_all (suc n) [] h = refl
drop_all (suc n) (c ∷ s) h = drop_all n s (omega arith)

nothing_left :
    (buf ts : Bytes)
    → length buf ≡ 6 + length ts
    → drop (length ts) (drop 4 (drop 1 (drop 1 buf))) ≡ []
nothing_left buf ts e = drop_all (length ts) (drop 4 (drop 1 (drop 1 buf))) (
    omega
      (arith, length-drop 4 (drop 1 (drop 1 buf)), length-drop 1 (drop 1 buf), length-drop 1 buf))

message_len : (vs : List Bytes) (n : ℕ) → n ≡ Wire.total_len vs → n ≡ 6 + length (tlvs 0 vs)
unfolding Wire.total_len
message_len vs n h = omega (arith, length-tlvs 0 vs)

-- In a buffer as long as the message, the bytes sent are the version, the type, the length and
-- the parts, whatever the buffer held.
pub send_version2_msg-tlvs :
    (msg_type : ℕ) (vs : List Bytes) (buf : Bytes)
    → length buf ≡ Wire.total_len vs
    → Wire.send_version2_msg msg_type vs buf
      ≡ (Wire.version2 ∷ msg_type % 256 ∷ Wire.int_bytes (Wire.total_len vs)) ++ tlvs 0 vs
unfolding Wire.send_version2_msg Wire.int_bytes
send_version2_msg-tlvs msg_type vs buf h =
    let put_rest : Bytes → Bytes = λ b.
      Wire.send_loop vs 0 (Wire.msg_put_int (Wire.msg_put_char b msg_type 1) (Wire.total_len vs) 2)
        6 in
    let one : Bytes = 2 ∷ [] in
    let two : Bytes = 2 ∷ msg_type % 256 ∷ [] in
    let six : Bytes = two ++ Wire.int_bytes (Wire.total_len vs) in
    let junk = drop 4 (drop 1 (drop 1 buf)) in
    ap put_rest (put_char_lem [] buf 2 0 refl)
    ∙ ap (λ b. Wire.send_loop vs 0 (Wire.msg_put_int b (Wire.total_len vs) 2) 6)
        (put_char_lem one (drop 1 buf) msg_type 1 refl)
    ∙ ap (λ b. Wire.send_loop vs 0 b 6)
        (put_int_lem two (drop 1 (drop 1 buf)) (Wire.total_len vs) 2 refl)
    ∙ send_loop_lem vs 0 6 six junk refl
    ∙ ap (λ t. (six ++ tlvs 0 vs) ++ t)
        (nothing_left buf (tlvs 0 vs) (message_len vs (length buf) h))
    ∙ append-nil (six ++ tlvs 0 vs)
