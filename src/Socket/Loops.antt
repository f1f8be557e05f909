-- ===== src/Socket/Loops.antt =====
-- sharelib/TCPSocket.cpp: what the loops of `sendMsg` and `receiveMsg` give.
use octopusd.Prelude.{
  ℕ, zero, suc, ◌+◌, ◌-◌, ◌≡◌, ◌≤◌, ◌<◌, refl, sym, ap, Bool, true, false, List, [], ◌∷◌, ◌++◌,
  Option, none, some, arith, leb, length, take, drop, All, append_assoc, append-nil, length-append,
}
use octopusd.Prelude.Bytes.{Bytes}
use octopusd.Prelude.Int.{ℤ}
use octopusd.Socket.{
  Sent, sent, again, broken, SendTurn, SendRet, send_ok, send_timeout, send_error, send_msg, Read,
  got, ended, interrupted, failed, read_chunk, RecvTurn, RecvRet, recv_ok, recv_timeout,
  recv_no_time, recv_closed, recv_error, receive_loop, receive_msg, time_out,
}

-- How much of a text was taken: all of it behind a success, and the front of it otherwise.
abbrev pub Taken : Bytes → Option SendRet × Bytes → Type 0
Taken s (some send_ok, out) = out ≡ s
Taken s (some send_timeout, out) = (rest : Bytes) × (s ≡ out ++ rest)
Taken s (some send_error, out) = (rest : Bytes) × (s ≡ out ++ rest)
Taken s (none, out) = (rest : Bytes) × (s ≡ out ++ rest)

take-drop : (n : ℕ) (s : Bytes) → take n s ++ drop n s ≡ s
take-drop zero s = refl
take-drop (suc n) [] = refl
take-drop (suc n) (c ∷ s) = ap (◌∷◌ c) (take-drop n s)

send_turn :
    (ts : List SendTurn) (c : ℕ) (s out : Bytes) (t : SendTurn) (b : Bool) (a : Sent)
    → ((rest done : Bytes) → Taken (done ++ rest) (send_msg ts rest done))
    → t.writable ≡ b
    → t.answer ≡ a
    → Taken (out ++ c ∷ s) (send_msg (t ∷ ts) (c ∷ s) out)
unfolding send_msg
send_turn ts c s out t false a ih w e = rw (w, send_msg) (c ∷ s, refl)
send_turn ts c s out t true (sent n) ih w e =
    rw (w, e, send_msg)
      (rw (append_assoc out (take n (c ∷ s)) (drop n (c ∷ s)), take-drop n (c ∷ s)) at
        (ih (drop n (c ∷ s)) (out ++ take n (c ∷ s))))
send_turn ts c s out t true again ih w e = rw (w, e, send_msg) (ih (c ∷ s) out)
send_turn ts c s out t true broken ih w e = rw (w, e, send_msg) (c ∷ s, refl)

send_msg-Taken_from : (ts : List SendTurn) (s out : Bytes) → Taken (out ++ s) (send_msg ts s out)
send_msg-Taken_from ts [] out = unfold send_msg in sym (append-nil out)
send_msg-Taken_from [] (c ∷ s) out = unfold send_msg in (c ∷ s, refl)
send_msg-Taken_from (t ∷ ts) (c ∷ s) out =
    send_turn ts c s out t t.writable t.answer (send_msg-Taken_from ts) refl refl

-- Whatever the socket does, what it has taken is the front of the message, in order and without
-- gaps, and all of it where the answer is 0.
pub send_msg-Taken : (ts : List SendTurn) (s : Bytes) → Taken s (send_msg ts s [])
send_msg-Taken ts s = send_msg-Taken_from ts s []

-- A turn that takes something.
abbrev pub Progresses : SendTurn → Type 0
Progresses t = (t.writable ≡ true) × (n : ℕ) × (t.answer ≡ sent (suc n))

length-drop-suc : (n c : ℕ) (s : Bytes) → length (drop (suc n) (c ∷ s)) ≤ length s
length-drop-suc zero c s = omega arith
length-drop-suc (suc n) c [] = omega arith
length-drop-suc (suc n) c (d ∷ s) = omega (arith, length-drop-suc n d s)

send_msg_ends_from :
    (ts : List SendTurn) (s out : Bytes)
    → length s ≤ length ts
    → All Progresses ts
    → (send_msg ts s out).0 ≡ some send_ok
unfolding send_msg
send_msg_ends_from [] [] out h p = refl
send_msg_ends_from (t ∷ ts) [] out h p = refl
send_msg_ends_from [] (c ∷ s) out h p = elim h [ ]
send_msg_ends_from (t ∷ ts) (c ∷ s) out h ((w, n, e), p) =
    rw (w, e, send_msg)
      (send_msg_ends_from ts (drop (suc n) (c ∷ s)) (out ++ take (suc n) (c ∷ s))
        (omega (arith, h, length-drop-suc n c s)) p)

-- As many turns as the message has bytes, each of which takes something, send all of it.
pub send_msg_ends :
    (ts : List SendTurn) (s : Bytes)
    → length s ≤ length ts
    → All Progresses ts
    → send_msg ts s [] ≡ (some send_ok, s)
send_msg_ends ts s h p =
    done (send_msg ts s []) (send_msg_ends_from ts s [] h p) (send_msg-Taken ts s)
  where
    done : (r : Option SendRet × Bytes) → r.0 ≡ some send_ok → Taken s r → r ≡ (some send_ok, s)
    done (some send_ok, out) e k = ap (λ t. (some send_ok, t)) k
    done (some send_timeout, out) e k = cc
    done (some send_error, out) e k = cc
    done (none, out) e k = cc

-- How many bytes were received: all that were asked for behind a success, fewer otherwise.
abbrev pub Filled : ℕ → Option RecvRet × Bytes → Type 0
Filled n (some recv_ok, out) = n ≤ length out
Filled n (some recv_timeout, out) = length out < n
Filled n (some recv_no_time, out) = length out < n
Filled n (some recv_closed, out) = length out < n
Filled n (some recv_error, out) = length out < n
Filled n (none, out) = length out < n

FillsAll : List RecvTurn → Type 0
FillsAll ts =
    (total n time retry : ℕ) (out : Bytes)
    → total ≤ length out + n
    → n ≤ total - length out
    → Filled total (receive_loop ts n time retry out)

receive_read :
    (ts : List RecvTurn) (total n time w retry : ℕ) (out : Bytes) (o : Option (Read × ℕ))
    → FillsAll ts
    → total ≤ length out + suc n
    → suc n ≤ total - length out
    → Filled total (elim o as (λ _. Option RecvRet × Bytes) [
      | none ↦ (none, out)
      | some (got s, retry') ↦ receive_loop ts (suc n - length s) (time - w) retry' (out ++ s)
      | some (ended, retry') ↦ (some recv_closed, out)
      | some (failed, retry') ↦ (some recv_error, out)
      | some (interrupted, retry') ↦ (some recv_error, out)
    ])
unfolding FillsAll
receive_read ts total n time w retry out none ih h k = omega arith
receive_read ts total n time w retry out (some (got s, r)) ih h k =
    ih total (suc n - length s) (time - w) r (out ++ s) (omega (arith, h, length-append {0} out s))
      (omega (arith, k, length-append {0} out s))
receive_read ts total n time w retry out (some (ended, r)) ih h k = omega arith
receive_read ts total n time w retry out (some (failed, r)) ih h k = omega arith
receive_read ts total n time w retry out (some (interrupted, r)) ih h k = omega arith

receive_wait :
    (ts : List RecvTurn) (t : RecvTurn) (total n time retry : ℕ) (out : Bytes) (o : Option ℕ)
    → FillsAll ts
    → total ≤ length out + suc n
    → suc n ≤ total - length out
    → t.wait ≡ o
    → Filled total (receive_loop (t ∷ ts) (suc n) time retry out)
unfolding receive_loop
receive_wait ts t total n time retry out none ih h k e = rw (e, receive_loop) (omega (arith, h, k))
receive_wait ts t total n time retry out (some w) ih h k e =
    rw (e, receive_loop)
      (elim (leb time w)
        as (λ b. Filled total (elim b as (λ _. Option RecvRet × Bytes) [
          | true ↦ (some recv_no_time, out)
          | false ↦ elim (read_chunk retry t.reads) as (λ _. Option RecvRet × Bytes) [
            | none ↦ (none, out)
            | some (got s, retry') ↦ receive_loop ts (suc n - length s) (time - w) retry' (out ++ s)
            | some (ended, retry') ↦ (some recv_closed, out)
            | some (failed, retry') ↦ (some recv_error, out)
            | some (interrupted, retry') ↦ (some recv_error, out)
          ]
        ])) [
          | true ↦ omega (arith, h, k)
          | false ↦ receive_read ts total n time w retry out (read_chunk retry t.reads) ih h k
        ])

receive_loop-FillsAll : (ts : List RecvTurn) → FillsAll ts
unfolding FillsAll
receive_loop-FillsAll ts total zero time retry out h k = unfold receive_loop in omega (arith, h, k)
receive_loop-FillsAll [] total (suc n) time retry out h k =
    unfold receive_loop in omega (arith, h, k)
receive_loop-FillsAll (t ∷ ts) total (suc n) time retry out h k =
    receive_wait ts t total n time retry out t.wait (receive_loop-FillsAll ts) h k refl

-- Whatever the socket does, the answer is 0 exactly where as many bytes as were asked for have
-- been received.
pub receive_msg-Filled :
    (ts : List RecvTurn) (len : ℕ) (timeout : ℤ) → Filled len (receive_msg ts len timeout)
unfolding receive_msg FillsAll
receive_msg-Filled ts len timeout =
    receive_loop-FillsAll ts len len (time_out timeout) 0 [] (omega arith) (omega arith)
