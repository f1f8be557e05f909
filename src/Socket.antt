-- ===== src/Socket.antt =====
-- sharelib/TCPSocket.cpp: `sendMsg` and `receiveMsg`, the loops that every message passes. What
-- `checkSocket`, `send` and `recv` answer is an argument, one entry for each turn of a loop.
use octopusd.Prelude.{
  ℕ, zero, suc, ◌+◌, ◌-◌, Bool, true, false, List, [], ◌∷◌, ◌++◌, Option, none, some, ltb, leb,
  if◌then◌else◌, length, take, drop,
}
use octopusd.Prelude.Bytes.{Bytes}
use octopusd.Prelude.Int.{ℤ, pos, negsuc}
pub mod Loops
pub mod Check

-- What `send` answers: a number of bytes, one of the errors after which the loop goes on, or
-- another error.
pub data Sent : Type 0 where
  sent : ℕ → Sent
  again : Sent
  broken : Sent

-- A turn of the send loop: whether `checkSocket` found the socket writable, and the answer.
pub record SendTurn : Type 0 where
  pub writable : Bool
  pub answer : Sent

-- The results 0, -1 and -2.
pub data SendRet : Type 0 where
  send_ok send_timeout send_error : SendRet

-- CTCPSocket::sendMsg: `out` are the bytes that were taken so far and the text is the rest.
-- `none` means that the turns were not enough.
unfoldable pub send_msg : List SendTurn → Bytes → Bytes → Option SendRet × Bytes
send_msg ts [] out = (some send_ok, out)
send_msg [] (c ∷ s) out = (none, out)
send_msg (t ∷ ts) (c ∷ s) out =
    let stay = send_msg ts (c ∷ s) out in
    if t.writable
    then elim t.answer [
      | sent n ↦ send_msg ts (drop n (c ∷ s)) (out ++ take n (c ∷ s))
      | again ↦ stay
      | broken ↦ (some send_error, out)
    ]
    else (some send_timeout, out)

-- What `recv` answers: bytes, the end of the connection, an interruption or an error.
pub data Read : Type 0 where
  got : Bytes → Read
  ended : Read
  interrupted : Read
  failed : Read

-- MaxIgnoreSignal and DefaultSelectTimeOut.
abbrev pub max_ignore_signal : ℕ
max_ignore_signal = 10

abbrev pub default_select_time_out : ℕ
default_select_time_out = 10

-- The inner loop: it passes over interruptions as long as `iRetry` allows. With the new `iRetry`.
unfoldable pub read_chunk : ℕ → List Read → Option (Read × ℕ)
read_chunk retry [] = none
read_chunk retry (got s ∷ l) = some (got s, retry)
read_chunk retry (ended ∷ l) = some (ended, retry)
read_chunk retry (failed ∷ l) = some (failed, retry)
read_chunk retry (interrupted ∷ l) =
    let next = read_chunk (retry + 1) l in
    if ltb retry max_ignore_signal then next else some (failed, retry)

-- A turn of the receive loop: the seconds that `checkSocket` waited, or its -1, and what `recv`
-- answers then.
pub record RecvTurn : Type 0 where
  pub wait : Option ℕ
  pub reads : List Read

-- The results 0, -1, -2, 1 and -3.
pub data RecvRet : Type 0 where
  recv_ok recv_timeout recv_no_time recv_closed recv_error : RecvRet

-- The loop of `receiveMsg`, with `iRemainSize`, `iRemainTime`, `iRetry` and the bytes so far.
unfoldable pub receive_loop : List RecvTurn → ℕ → ℕ → ℕ → Bytes → Option RecvRet × Bytes
unfolding read_chunk
receive_loop ts zero time retry out = (some recv_ok, out)
receive_loop [] (suc n) time retry out = (none, out)
receive_loop (t ∷ ts) (suc n) time retry out = elim t.wait [
  | none ↦ (some recv_timeout, out)
  | some w ↦ elim (leb time w) [
    | true ↦ (some recv_no_time, out)
    | false ↦ elim (read_chunk retry t.reads) [
      | none ↦ (none, out)
      | some (got s, retry') ↦ receive_loop ts (suc n - length s) (time - w) retry' (out ++ s)
      | some (ended, retry') ↦ (some recv_closed, out)
      | some (failed, retry') ↦ (some recv_error, out)
      | some (interrupted, retry') ↦ (some recv_error, out)
    ]
  ]
]

unfoldable pub time_out : ℤ → ℕ
time_out (pos zero) = default_select_time_out
time_out (pos (suc n)) = suc n
time_out (negsuc n) = default_select_time_out

-- CTCPSocket::receiveMsg.
unfoldable pub receive_msg : List RecvTurn → ℕ → ℤ → Option RecvRet × Bytes
unfolding receive_loop time_out
receive_msg ts len timeout = receive_loop ts len (time_out timeout) 0 []
