-- ===== src/Pool/Connections.antt =====
-- src/octopusd.cpp: where the connections are, the limit of the pool, and who may log in.
use mathlib.Core.List.Perm
use mathlib.Core.List.{Perm, perm_append_singleton, perm_middle}
use octopusd.Prelude.{
  ℕ, ◌≡◌, ◌≤◌, ◌⊎◌, inl, inr, refl, ap, ◌∙◌, true, false, List, [], ◌∷◌, ◌++◌, Option, none, some,
  arith, if◌then◌else◌, length, length-append, append_assoc,
}
use octopusd.Prelude.Bytes.{Bytes}
use octopusd.Text.Replace.{strip_prefix, cons_before, find_first}
use octopusd.Pool.{
  Limits, Pool, was_found, may_log_in, is_full, connect, serve_head, serve, Turn, connects, serves,
  turn, turns,
}

-- The pool has at most the configured number of connections, where that is not 0.
abbrev pub IsWithin : Limits → Pool → Type 0
IsWithin l p = (l.max_nr_of_cnt ≡ 0) ⊎ (length p.connections ≤ l.max_nr_of_cnt)

serve_head-IsWithin :
    (l : Limits) (c : List ℕ) (p : Pool)
    → p.connections ≡ c
    → IsWithin l p
    → IsWithin l (serve_head c p)
unfolding serve_head
serve_head-IsWithin l [] p e h = h
serve_head-IsWithin l (fd ∷ rest) p e (inl h) = inl h
serve_head-IsWithin l (fd ∷ rest) p e (inr h) = inr (omega (arith, h, ap length e))

turn-IsWithin : (l : Limits) (t : Turn) (p : Pool) → IsWithin l p → IsWithin l (turn l t p)
unfolding turn connect is_full serve
turn-IsWithin l (connects client_ip fd) p h =
    ground (arith, length-append {0} p.connections (fd ∷ []))
turn-IsWithin l serves p h = serve_head-IsWithin l p.connections p refl h

-- If the pool is within its limit, it is so behind every sequence of turns. A limit of 0 is none.
pub turns-IsWithin :
    (l : Limits) (ts : List Turn) (p : Pool) → IsWithin l p → IsWithin l (turns l ts p)
unfolding turns
turns-IsWithin l [] p h = h
turns-IsWithin l (t ∷ ts) p h = turns-IsWithin l ts (turn l t p) (turn-IsWithin l t p h)

-- All connections that were accepted and where they are.
unfoldable pub accepted : List Turn → List ℕ
accepted [] = []
accepted (connects client_ip fd ∷ ts) = fd ∷ accepted ts
accepted (serves ∷ ts) = accepted ts

abbrev pub whereabouts : Pool → List ℕ
whereabouts p = p.closed ++ (p.served ++ p.connections)

serve_head-whereabouts :
    (c : List ℕ) (p : Pool)
    → p.connections ≡ c
    → Perm (whereabouts (serve_head c p)) (whereabouts p)
unfolding serve_head
serve_head-whereabouts [] p e = Perm.refl _
serve_head-whereabouts (fd ∷ rest) p e =
    rw e (Perm.append (Perm.refl p.closed) (Perm.symm (perm_middle {a = fd} p.served rest)))

pushed : (fd : ℕ) (a b c : List ℕ) → Perm (a ++ (b ++ (c ++ fd ∷ []))) (fd ∷ (a ++ (b ++ c)))
pushed fd a b c =
    rw (← append_assoc b c (fd ∷ []), ← append_assoc a (b ++ c) (fd ∷ []))
      (perm_append_singleton fd (a ++ (b ++ c)))

connect-whereabouts :
    (l : Limits) (client_ip : Bytes) (fd : ℕ) (p : Pool)
    → Perm (whereabouts (connect l client_ip fd p)) (fd ∷ whereabouts p)
unfolding connect
connect-whereabouts l client_ip fd p =
    elim (may_log_in l client_ip)
      as (λ b.
        Perm
          (whereabouts (
            if b
            then (if is_full l p
                then record p { closed = fd ∷ p.closed }
                else record p { connections = p.connections ++ fd ∷ [] })
            else record p { closed = fd ∷ p.closed }))
          (fd ∷ whereabouts p)) [
            | true ↦
                elim (is_full l p)
                  as (λ b.
                    Perm
                      (whereabouts (
                        if b
                        then record p { closed = fd ∷ p.closed }
                        else record p { connections = p.connections ++ fd ∷ [] }))
                      (fd ∷ whereabouts p)) [
                        | true ↦ Perm.refl _
                        | false ↦ pushed fd p.closed p.served p.connections
                      ]
            | false ↦ Perm.refl _
          ]

-- Over every sequence of turns, each accepted connection is served, waits or was closed, once.
pub turns-whereabouts :
    (l : Limits) (ts : List Turn) (p : Pool)
    → Perm (whereabouts (turns l ts p)) (accepted ts ++ whereabouts p)
unfolding turns accepted turn serve
turns-whereabouts l [] p = Perm.refl _
turns-whereabouts l (connects client_ip fd ∷ ts) p =
    Perm.trans (turns-whereabouts l ts (connect l client_ip fd p)) (
      Perm.trans (Perm.append (Perm.refl (accepted ts)) (connect-whereabouts l client_ip fd p))
        (perm_middle {a = fd} (accepted ts) (whereabouts p)))
turns-whereabouts l (serves ∷ ts) p =
    Perm.trans (turns-whereabouts l ts (serve p))
      (Perm.append (Perm.refl (accepted ts)) (serve_head-whereabouts p.connections p refl))

strip_prefix-append : (a b : Bytes) → strip_prefix a (a ++ b) ≡ some b
unfolding strip_prefix
strip_prefix-append [] b = refl
strip_prefix-append (c ∷ a) b = ground (arith, strip_prefix-append a b)

found_at_head : (ip b : Bytes) → was_found (find_first ip (ip ++ b)) ≡ true
unfolding find_first was_found
found_at_head [] [] = unfold strip_prefix in refl
found_at_head [] (c ∷ b) = unfold strip_prefix in refl
found_at_head (c ∷ ip) b = rw (strip_prefix-append (c ∷ ip) b, find_first) refl

found_later :
    (c : ℕ) (r : Option (Bytes × Bytes)) (o : Option Bytes)
    → was_found r ≡ true
    → was_found (elim o as (λ _. Option (Bytes × Bytes)) [
      | none ↦ cons_before c r
      | some rest ↦ some ([], rest)
    ])
      ≡ true
unfolding was_found
found_later c none none h = h
found_later c (some (a, b)) none h = refl
found_later c r (some rest) h = refl

-- A text that is a part of another is found in it.
found_in : (a b ip : Bytes) → was_found (find_first ip (a ++ (ip ++ b))) ≡ true
unfolding find_first
found_in [] b ip = found_at_head ip b
found_in (c ∷ a) b ip =
    found_later c (find_first ip (a ++ (ip ++ b))) (strip_prefix ip (c ∷ (a ++ (ip ++ b))))
      (found_in a b ip)

-- A client may log in whose address is a part of the configured text, even if it is only a part of
-- one of the addresses there.
may_log_in_part :
    (l : Limits) (a b client_ip : Bytes)
    → l.login_ip ≡ a ++ (client_ip ++ b)
    → may_log_in l client_ip ≡ true
unfolding may_log_in
may_log_in_part l a b client_ip e =
    ap (λ s. was_found (find_first client_ip s)) e ∙ found_in a b client_ip
