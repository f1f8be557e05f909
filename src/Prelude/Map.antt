-- ===== src/Prelude/Map.antt =====
-- `std::map` as an association list in the order of its keys, for keys with the tests that the
-- map makes. Its proofs about the order are in the child.
use Prim.Native.Nat.{ℕ}
use mathlib.Core.Path.{◌≡◌, refl}
use mathlib.Core.Logic.{◌↔◌}
use mathlib.Core.Bool.{Bool, true, false}
use mathlib.Core.Option.{Option, none, some}
use mathlib.Core.List.{List, [], ◌∷◌}
use native.Mathlib.Omega.{arith}
use octopusd.Prelude.Tests.{ltb, ◌==◌, ==_iff, if◌then◌else◌}
use octopusd.Prelude.Bytes.{Bytes, bytes_eq, bytes_lt, bytes_eq_iff}
pub mod Order

-- The order of a map's keys.
pub record Key (K : Type 0) : Type 0 where
  pub eqb : K → K → Bool
  pub before : K → K → Bool
  pub eqb_iff : (a b : K) → (eqb a b ≡ true) ↔ (a ≡ b)

instance abbrev pub nat_key : Key ℕ
nat_key = record { eqb = λ a b. a == b; before = ltb; eqb_iff = ==_iff }

instance abbrev pub bytes_key : Key Bytes
bytes_key = record { eqb = bytes_eq; before = bytes_lt; eqb_iff = bytes_eq_iff }

abbrev pub Map : Type 0 → Type 0 → Type 0
Map K V = List (K × V)

module _ {K V : Type 0} ⦃o : Key K⦄ where
  -- `m.find(k)`, with `none` for `m.end()`.
  unfoldable pub find : K → Map K V → Option V
  find k [] = none
  find k ((j, v) ∷ m) = if o.eqb j k then some v else find k m

  -- `m[k] = v`.
  unfoldable pub insert : K → V → Map K V → Map K V
  insert k v [] = (k, v) ∷ []
  insert k v ((j, w) ∷ m) =
      if o.eqb j k
      then (k, v) ∷ m
      else if o.before k j
      then (k, v) ∷ (j, w) ∷ m
      else (j, w) ∷ insert k v m

  -- The value that `m[k]` reads, where a missing key reads as the default value.
  unfoldable pub get_or : K → V → Map K V → V
  get_or k d m = elim (find k m) [ none ↦ d | some v ↦ v ]

  -- What `m[k]` makes of the map: a missing key is entered with the default value.
  unfoldable pub touch : K → V → Map K V → Map K V
  touch k d m = elim (find k m) [ none ↦ insert k d m | some v ↦ m ]

  -- `m.erase(k)`.
  unfoldable pub erase : K → Map K V → Map K V
  erase k [] = []
  erase k ((j, v) ∷ m) = let rest = erase k m in if o.eqb j k then rest else (j, v) ∷ rest

  pub find-insert :
      (j k : K) (v : V) (m : Map K V)
      → find j (insert k v m) ≡ (if o.eqb k j then some v else find j m)
  unfolding find insert
  find-insert j k v [] = refl
  find-insert j k v ((i, w) ∷ m) =
      ground (arith, o.eqb_iff i k, o.eqb_iff i j, o.eqb_iff k j, find-insert j k v m)

  pub find-erase :
      (j k : K) (m : Map K V) → find j (erase k m) ≡ (if o.eqb k j then none else find j m)
  unfolding find erase
  find-erase j k [] = ground arith
  find-erase j k ((i, w) ∷ m) =
      ground (arith, o.eqb_iff i k, o.eqb_iff i j, o.eqb_iff k j, find-erase j k m)
