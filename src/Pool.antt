-- ===== src/Pool.antt =====
-- src/octopusd.cpp: the pool of accepted connections (`g_lstConnectPool`), which the connect thread
-- fills and the receive threads empty. Both hold the lock `g_insConCtrl` for their access, so a
-- turn of a thread's loop is one step. A connection stands by its number.
use octopusd.Prelude.{
  ℕ, Bool, true, false, not, ◌&&◌, List, [], ◌∷◌, ◌++◌, Option, none, some, leb, ◌==◌,
  if◌then◌else◌, length,
}
use octopusd.Prelude.Bytes.{Bytes}
use octopusd.Text.Replace.{find_first}
pub mod Connections

-- The two items of the configuration: `m_sLoginIP` and `m_iMaxNrOfCnt`.
pub record Limits : Type 0 where
  pub login_ip : Bytes
  pub max_nr_of_cnt : ℕ

-- The pool, the connections that receive threads have taken, and those that were closed unserved.
pub record Pool : Type 0 where
  pub connections : List ℕ
  pub served : List ℕ
  pub closed : List ℕ

-- `NULL != strstr(m_sLoginIP, sClientIP)`.
unfoldable pub was_found : Option (Bytes × Bytes) → Bool
was_found none = false
was_found (some _) = true

unfoldable pub may_log_in : Limits → Bytes → Bool
unfolding find_first was_found
may_log_in l client_ip = was_found (find_first client_ip l.login_ip)

unfoldable pub is_full : Limits → Pool → Bool
is_full l p = not (l.max_nr_of_cnt == 0) && leb l.max_nr_of_cnt (length p.connections)

-- `pthread_connect` behind a successful `acceptClient`.
unfoldable pub connect : Limits → Bytes → ℕ → Pool → Pool
unfolding may_log_in is_full
connect l client_ip fd p =
    if may_log_in l client_ip
    then (if is_full l p
        then record p { closed = fd ∷ p.closed }
        else record p { connections = p.connections ++ fd ∷ [] })
    else record p { closed = fd ∷ p.closed }

-- `pthread_recv`: the oldest connection, if there is one.
unfoldable pub serve_head : List ℕ → Pool → Pool
serve_head [] p = p
serve_head (fd ∷ rest) p = record p { connections = rest; served = fd ∷ p.served }

unfoldable pub serve : Pool → Pool
unfolding serve_head
serve p = serve_head p.connections p

-- A turn of some thread.
pub data Turn : Type 0 where
  connects : Bytes → ℕ → Turn
  serves : Turn

unfoldable pub turn : Limits → Turn → Pool → Pool
unfolding connect serve
turn l (connects client_ip fd) p = connect l client_ip fd p
turn l serves p = serve p

unfoldable pub turns : Limits → List Turn → Pool → Pool
unfolding turn
turns l [] p = p
turns l (t ∷ ts) p = turns l ts (turn l t p)
