-- ===== src/Examples/Sockets.antt =====
-- sharelib/TCPSocket.cpp: messages in pieces.
use octopusd.Prelude.{◌≡◌, refl, true, List, [], ◌∷◌, some}
use octopusd.Prelude.Bytes.{codes}
use octopusd.Prelude.Int.{pos}
use octopusd.Socket.{
  SendTurn, sent, again, broken, send_msg, RecvTurn, got, interrupted, receive_msg, recv_ok,
}
use octopusd.Socket.Loops.{Taken, send_msg-Taken}

abbrev pieces : List SendTurn
pieces =
    record { writable = true; answer = sent 2 }
    ∷ record { writable = true; answer = sent 1 }
    ∷ record { writable = true; answer = sent 1 }
    ∷ record { writable = true; answer = sent 3 }
    ∷ []

abbrev hurdles : List SendTurn
hurdles =
    record { writable = true; answer = sent 2 }
    ∷ record { writable = true; answer = again }
    ∷ record { writable = true; answer = broken }
    ∷ []

send_msg-Taken_example : Taken (codes "abcd") (send_msg hurdles (codes "abcd") [])
send_msg-Taken_example = send_msg-Taken hurdles (codes "abcd")

abbrev arrivals : List RecvTurn
arrivals =
    record { wait = some 1; reads = interrupted ∷ got (codes "ab") ∷ [] }
    ∷ record { wait = some 2; reads = got (codes "cd") ∷ [] }
    ∷ []

received_all : receive_msg arrivals 4 (pos 30) ≡ (some recv_ok, codes "abcd")
unfolding receive_msg
received_all = refl
