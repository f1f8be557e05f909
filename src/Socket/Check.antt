-- ===== src/Socket/Check.antt =====
-- sharelib/TCPSocket.cpp: `checkSocket`, which waits until a socket can be read or written. What
-- `select` answers is an argument, one entry for each turn of the loop, with the clock.
use octopusd.Prelude.{
  ℕ, ◌+◌, ◌-◌, ◌≡◌, ◌≤◌, ◌<◌, refl, Bool, true, false, List, [], ◌∷◌, Option, none, some, arith,
  ltb, if◌then◌else◌, length, each_way,
}
use octopusd.Socket.{max_ignore_signal}

-- A socket is ready, none is within the time, a signal came, or another error.
pub data Selected : Type 0 where
  ready no_event signalled select_failed : Selected

-- The loop with `iRetry`: whether a socket is ready; `none` means that the turns were not enough.
unfoldable pub check_loop : ℕ → List Selected → Option Bool
check_loop retry [] = none
check_loop retry (ready ∷ l) = some true
check_loop retry (no_event ∷ l) = some false
check_loop retry (select_failed ∷ l) = some false
check_loop retry (signalled ∷ l) =
    let next = check_loop (retry + 1) l in if ltb retry max_ignore_signal then next else some false

-- The seconds that were waited, or -1 as `none`.
unfoldable pub waited : ℕ → ℕ → Bool → Option ℕ
waited begin now true = some (now - begin)
waited begin now false = none

unfoldable pub waited_option : ℕ → ℕ → Option Bool → Option (Option ℕ)
unfolding waited
waited_option begin now none = none
waited_option begin now (some r) = some (waited begin now r)

-- CTCPSocket::checkSocket, with the time before and behind the loop.
unfoldable pub check_socket : List Selected → ℕ → ℕ → Option (Option ℕ)
unfolding check_loop waited_option
check_socket l begin now = waited_option begin now (check_loop 0 l)

abbrev IsSome : Option Bool → Type 0
IsSome o = (r : Bool) × (o ≡ some r)

check_loop_ends :
    (retry : ℕ) (l : List Selected)
    → max_ignore_signal < retry + length l
    → retry ≤ max_ignore_signal
    → IsSome (check_loop retry l)
unfolding check_loop
check_loop_ends retry [] enough low = absurd (omega arith)
check_loop_ends retry (ready ∷ l) enough low = (true, refl)
check_loop_ends retry (no_event ∷ l) enough low = (false, refl)
check_loop_ends retry (select_failed ∷ l) enough low = (false, refl)
check_loop_ends retry (signalled ∷ l) enough low =
    each_way IsSome (ltb retry max_ignore_signal)
      (λ e. check_loop_ends (retry + 1) l (omega arith) (ground (arith, e))) (λ e. (false, refl))

-- The wait ends with the answer of one of the first eleven calls of `select`, whatever they are.
check_socket_ends :
    (l : List Selected) (begin now : ℕ)
    → 11 ≤ length l
    → (r : Option ℕ) × (check_socket l begin now ≡ some r)
unfolding check_socket waited_option
check_socket_ends l begin now enough =
    let r = check_loop_ends 0 l (omega arith) (omega arith) in (waited begin now r.0, rw r.1 refl)
