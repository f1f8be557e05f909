-- ===== src/Wire/Untrusted.antt =====
-- sharelib/ProtocolMng.cpp: what `recvVersion2Msg` does with bytes that no `sendVersion2Msg` sent.
use octopusd.Prelude.{
  ℕ, zero, suc, ◌≡◌, ◌≤◌, ◌<◌, refl, sym, true, false, List, [], ◌∷◌, ◌++◌, Option, none, some,
  arith, leb, ◌==◌, if◌then◌else◌, length, take, drop,
}
use mathlib.Core.Path.{subst}
use octopusd.Prelude.Bytes.{Bytes}
use octopusd.Wire
use octopusd.Wire.Send.{length-drop}
use octopusd.Wire.Receive.{bytes_int-int_bytes, same, small_len}

-- What stands behind a part is shorter than so many bytes.
abbrev Within : ℕ → Wire.Part → Type 0
Within n Wire.bad_part = Unit
Within n Wire.outside = Unit
Within n (Wire.part v rest) = length rest ≤ n

abbrev Short : ℕ → Option (Bytes × Bytes) → Type 0
Short n none = Unit
Short n (some (v, rest)) = length rest ≤ n

get_string-Short : (s : Bytes) (len : ℕ) → Short (length s) (Wire.msg_get_string s len)
unfolding Wire.msg_get_string
get_string-Short s len =
    elim (leb len (length s))
      as (λ b.
        Short (length s) (if b then some (Wire.c_string (take len s), drop len s) else none)) [
          | true ↦ omega (arith, length-drop len s)
          | false ↦ tt
        ]

abbrev text_part : Option (Bytes × Bytes) → Wire.Part
text_part none = Wire.outside
text_part (some (v, rest)) = Wire.part v rest

text_part-Within : (n : ℕ) (o : Option (Bytes × Bytes)) → Short n o → Within n (text_part o)
text_part-Within n none h = tt
text_part-Within n (some (v, rest)) h = h

get_value_on :
    (len : ℕ) (s : Bytes)
    → Wire.get_value (some (len, s))
      ≡ (if leb 2147483648 len then Wire.bad_part else text_part (Wire.msg_get_string s len))
unfolding Wire.get_value
get_value_on len s = on (Wire.msg_get_string s len)
  where
    on :
        (o : Option (Bytes × Bytes))
        → (if leb 2147483648 len then Wire.bad_part else (elim o as (λ _. Wire.Part) [
          | none ↦ Wire.outside
          | some (v, rest) ↦ Wire.part v rest
        ]))
          ≡ (if leb 2147483648 len then Wire.bad_part else text_part o)
    on none = refl
    on (some (v, rest)) = refl

get_value-Within : (len : ℕ) (s : Bytes) → Within (length s) (Wire.get_value (some (len, s)))
get_value-Within len s =
    subst (Within (length s)) (sym (get_value_on len s))
      (elim (leb 2147483648 len)
        as (λ b.
          Within (length s) (if b then Wire.bad_part else text_part (Wire.msg_get_string s len))) [
            | true ↦ tt
            | false ↦
                text_part-Within (length s) (Wire.msg_get_string s len) (get_string-Short s len)
          ])

weaker : (m n : ℕ) (p : Wire.Part) → m ≤ n → Within m p → Within n p
weaker m n Wire.bad_part h k = tt
weaker m n Wire.outside h k = tt
weaker m n (Wire.part v rest) h k = omega arith

get_int-Within : (s : Bytes) → Within (length s) (Wire.get_value (Wire.msg_get_int s))
unfolding Wire.msg_get_int
get_int-Within [] = unfold Wire.get_value in tt
get_int-Within (a ∷ []) = unfold Wire.get_value in tt
get_int-Within (a ∷ b ∷ []) = unfold Wire.get_value in tt
get_int-Within (a ∷ b ∷ c ∷ []) = unfold Wire.get_value in tt
get_int-Within (a ∷ b ∷ c ∷ d ∷ s) =
    weaker (length s) (suc (suc (suc (suc (length s)))))
      (Wire.get_value (some (Wire.bytes_int a b c d, s))) (omega arith)
      (get_value-Within (Wire.bytes_int a b c d) s)

get_part-Within :
    (n c : ℕ) (s : Bytes) → Within (length s) (Wire.get_part n (Wire.msg_get_char (c ∷ s)))
unfolding Wire.get_part Wire.msg_get_char
get_part-Within n c s =
    elim (Wire.char_as_uint c == n)
      as (λ b.
        Within (length s) (if b then Wire.get_value (Wire.msg_get_int s) else Wire.bad_part)) [
          | true ↦ get_int-Within s
          | false ↦ tt
        ]

-- A loop that ends.
abbrev Ends : Option Wire.Recv → Type 0
Ends o = (r : Wire.Recv) × (o ≡ some r)

Ends-part :
    (f : ℕ) (vs : List Bytes) (c : ℕ) (s : Bytes) (p : Wire.Part)
    → ((rest : Bytes) (ws : List Bytes) → length rest ≤ f → Ends (Wire.recv_loop f rest ws))
    → length s ≤ f
    → Wire.get_part (length vs) (Wire.msg_get_char (c ∷ s)) ≡ p
    → Within (length s) p
    → Ends (Wire.recv_loop (suc f) (c ∷ s) vs)
unfolding Wire.recv_loop
Ends-part f vs c s Wire.bad_part ih h e k = (Wire.refused, rw (e, Wire.recv_loop) refl)
Ends-part f vs c s Wire.outside ih h e k = (Wire.overrun, rw (e, Wire.recv_loop) refl)
Ends-part f vs c s (Wire.part v rest) ih h e k =
    let (r, h') = ih rest (vs ++ v ∷ []) (omega arith) in (r, rw (e, Wire.recv_loop) h')

recv_loop-Ends : (f : ℕ) (s : Bytes) (vs : List Bytes) → length s ≤ f → Ends (Wire.recv_loop f s vs)
recv_loop-Ends f [] vs h = (Wire.received vs, unfold Wire.recv_loop in refl)
recv_loop-Ends zero (c ∷ s) vs h = elim h [ ]
recv_loop-Ends (suc f) (c ∷ s) vs h =
    Ends-part f vs c s (Wire.get_part (length vs) (Wire.msg_get_char (c ∷ s)))
      (λ rest ws. recv_loop-Ends f rest ws) (omega arith) refl (get_part-Within (length vs) c s)

module _ {S : Type 0} (receive_msg : ℕ → S → Option (Bytes × S)) where
  body_on :
      (o : Option (Bytes × S)) (s : S)
      → Ends (
          (elim o as (λ _. Option Wire.Recv × S) [
            | none ↦ (some Wire.refused, s)
            | some (body, s') ↦ (Wire.recv_loop (length body) body [], s')
          ]).0)
  body_on none s = (Wire.refused, refl)
  body_on (some (body, s')) s = recv_loop-Ends (length body) body [] (omega arith)

  recv_body-Ends : (o : Option ℕ) (s : S) → Ends ((Wire.recv_body receive_msg o s).0)
  unfolding Wire.recv_body
  recv_body-Ends none s = (Wire.refused, refl)
  recv_body-Ends (some n) s = body_on (receive_msg n s) s

  recv_len-Ends : (o : Option (ℕ × Bytes)) (s : S) → Ends ((Wire.recv_len receive_msg o s).0)
  unfolding Wire.recv_len
  recv_len-Ends none s = (Wire.refused, refl)
  recv_len-Ends (some (bits, t)) s = recv_body-Ends (Wire.body_len bits) s

  head_on :
      (o : Option (Bytes × S)) (s : S)
      → Ends (
          (elim o as (λ _. Option Wire.Recv × S) [
            | none ↦ (some Wire.refused, s)
            | some (len, s') ↦ Wire.recv_len receive_msg (Wire.msg_get_int len) s'
          ]).0)
  head_on none s = (Wire.refused, refl)
  head_on (some (len, s')) s = recv_len-Ends (Wire.msg_get_int len) s'

  -- Whatever the socket gives, the receipt ends: it refuses, it reads outside of its buffer, or
  -- it has the parts.
  pub recv_version2_msg_ends :
      (s : S) → (r : Wire.Recv) × ((Wire.recv_version2_msg receive_msg s).0 ≡ some r)
  unfolding Wire.recv_version2_msg
  recv_version2_msg_ends s = head_on (receive_msg 4 s) s

overrun_on :
    (n len : ℕ) (s : Bytes)
    → n < 128
    → len < 2147483648
    → length s < len
    → Wire.get_part n (Wire.msg_get_char (n ∷ (Wire.int_bytes len ++ s))) ≡ Wire.outside
unfolding Wire.get_part Wire.msg_get_char Wire.msg_get_int Wire.int_bytes Wire.get_value
    Wire.msg_get_string
overrun_on n len s h k l =
    rw (small n h, same n, bytes_int-int_bytes len k, small_len len k, too_short len (length s) l)
      refl
  where
    small : (n : ℕ) → n < 128 → Wire.char_as_uint n ≡ n
    small n h = unfold Wire.char_as_uint in ground arith

    too_short : (len n : ℕ) → n < len → leb len n ≡ false
    too_short len n h = ground arith

-- Behind fewer than 128 parts, a part with the right number whose length is below 2^31 and says
-- more than what stands behind it makes the loop read outside of its buffer.
recv_loop_overruns :
    (f len : ℕ) (s : Bytes) (vs : List Bytes)
    → length vs < 128
    → len < 2147483648
    → length s < len
    → Wire.recv_loop (suc f) (length vs ∷ (Wire.int_bytes len ++ s)) vs ≡ some Wire.overrun
unfolding Wire.recv_loop
recv_loop_overruns f len s vs h k l = rw (overrun_on (length vs) len s h k l, Wire.recv_loop) refl
