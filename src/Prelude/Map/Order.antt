-- ===== src/Prelude/Map/Order.antt =====
-- Maps keyed by numbers whose keys rise, as the order of a `std::map` makes them.
use octopusd.Prelude.Map.{Map, insert, nat_key}
use Prim.Native.Nat.{ℕ, ◌≤◌, ◌<◌}
use mathlib.Core.List.{[], ◌∷◌}
use native.Mathlib.Omega.{arith}

module _ {V : Type 0} where
  -- The keys rise, from a first key above the bound.
  abbrev pub Above : ℕ → Map ℕ V → Type 0
  Above b [] = Unit {0}
  Above b ((k, v) ∷ m) = (b < k) × Above k m

  -- The keys rise.
  abbrev pub IsSorted : Map ℕ V → Type 0
  IsSorted [] = Unit {0}
  IsSorted ((k, v) ∷ m) = Above k m

  pub Above-mono : (a b : ℕ) (m : Map ℕ V) → a ≤ b → Above b m → Above a m
  Above-mono a b [] h s = tt
  Above-mono a b ((k, v) ∷ m) h s = (omega arith, s.1)

  pub insert-Above : (b k : ℕ) (v : V) (m : Map ℕ V) → b < k → Above b m → Above b (insert k v m)
  unfolding insert
  insert-Above b k v [] h s = (h, tt)
  insert-Above b k v ((j, w) ∷ m) h s = ground (arith, insert-Above j k v m)

  pub insert-IsSorted : (k : ℕ) (v : V) (m : Map ℕ V) → IsSorted m → IsSorted (insert k v m)
  unfolding insert
  insert-IsSorted k v [] s = tt
  insert-IsSorted k v ((j, w) ∷ m) s = ground (arith, insert-Above j k v m)
