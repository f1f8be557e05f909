-- ===== src/Examples/Messages.antt =====
-- sharelib/ProtocolMng.cpp: messages of the second version.
use octopusd.Prelude.{
  ℕ, ◌≡◌, refl, true, List, [], ◌∷◌, ◌++◌, Option, none, some, arith, length, take, drop, leb,
  if◌then◌else◌, take-length-append, drop-length-append, length-append,
}
use octopusd.Prelude.Bytes.{Bytes, codes}
use octopusd.Wire
use octopusd.Wire.Receive.{IsStream, recv_version2_msg-send_version2_msg}
use octopusd.Wire.Untrusted.{recv_version2_msg_ends}

-- A socket that has all bytes at once.
abbrev stream : ℕ → Bytes → Option (Bytes × Bytes)
stream n s = if leb n (length s) then some (take n s, drop n s) else none

stream-IsStream : IsStream stream
stream-IsStream s rest =
    rw (long s rest, take-length-append {0} s rest, drop-length-append {0} s rest) refl
  where
    long : (s rest : Bytes) → leb (length s) (length (s ++ rest)) ≡ true
    long s rest = ground (arith, length-append {0} s rest)

abbrev two_parts : List Bytes
two_parts = codes "ls" ∷ codes "x" ∷ []

abbrev garbage : Bytes
garbage = codes "0123456789abcdefgh9"

recv_version2_msg-send_version2_msg_example :
    Wire.recv_version2_msg stream
      (drop 2 (Wire.send_version2_msg 5 two_parts garbage) ++ codes "next")
    ≡ (some (Wire.received two_parts), codes "next")
unfolding Wire.total_len
recv_version2_msg-send_version2_msg_example =
    recv_version2_msg-send_version2_msg stream 5 two_parts garbage (codes "next") stream-IsStream
      refl (λ h. cc) (omega arith) (omega arith) (omega arith)

recv_version2_msg_ends_example :
    (r : Wire.Recv) × ((Wire.recv_version2_msg stream (codes "junk!")).0 ≡ some r)
recv_version2_msg_ends_example = recv_version2_msg_ends stream (codes "junk!")
