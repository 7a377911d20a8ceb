-- ===== src/Prelude/Dict.antt =====
-- std::unordered_map as an association list. `insert` keeps the entry that is there, as
-- unordered_map::insert does; `assign` is `m[k] = v`.
use mathlib.Core.Path.{◌≡◌, refl}
use mathlib.Core.Bool.{Bool, true}
use mathlib.Core.List.{List, [], ◌∷◌}
use mathlib.Core.Logic.{◌↔◌}
use mathlib.Core.Option.{Option, none, some}
use native.Mathlib.Omega.{arith}
use customer_print_client.Prelude.Tests.{if◌then◌else◌}

-- A key type with a Boolean equality.
pub record Key (K : Type 0) : Type 0 where
  pub eq : K → K → Bool
  pub eq_iff : (a b : K) → (eq a b ≡ true) ↔ (a ≡ b)

module _ {K V : Type 0} ⦃key : Key K⦄ where
  unfoldable pub find : K → List (K × V) → Option V
  find k [] = none
  find k ((j, v) ∷ m) = if key.eq j k then some v else find k m

  unfoldable pub assign : K → V → List (K × V) → List (K × V)
  assign k v [] = (k, v) ∷ []
  assign k v ((j, w) ∷ m) = if key.eq j k then (k, v) ∷ m else (j, w) ∷ assign k v m

  unfoldable pub insert : K → V → List (K × V) → List (K × V)
  insert k v [] = (k, v) ∷ []
  insert k v ((j, w) ∷ m) = if key.eq j k then (j, w) ∷ m else (j, w) ∷ insert k v m

  unfoldable pub erase : K → List (K × V) → List (K × V)
  erase k [] = []
  erase k ((j, v) ∷ m) = if key.eq j k then erase k m else (j, v) ∷ erase k m

  pub find-assign :
      (k j : K) (v : V) (m : List (K × V))
      → find j (assign k v m) ≡ (if key.eq k j then some v else find j m)
  unfolding find assign
  find-assign k j v [] = refl
  find-assign k j v ((i, w) ∷ m) =
      ground (arith, key.eq_iff k j, key.eq_iff i k, key.eq_iff i j, find-assign k j v m)

  pub find-erase :
      (k j : K) (m : List (K × V)) → find j (erase k m) ≡ (if key.eq k j then none else find j m)
  unfolding find erase
  find-erase k j [] = ground arith
  find-erase k j ((i, w) ∷ m) =
      ground (arith, key.eq_iff k j, key.eq_iff i k, key.eq_iff i j, find-erase k j m)

  pub find-insert :
      (k j : K) (v : V) (m : List (K × V))
      → find j (insert k v m)
        ≡ (elim (find j m) [ some w ↦ some w | none ↦ (if key.eq k j then some v else none) ])
  unfolding find insert
  find-insert k j v [] = refl
  find-insert k j v ((i, w) ∷ m) =
      ground (arith, key.eq_iff k j, key.eq_iff i k, key.eq_iff i j, find-insert k j v m)
