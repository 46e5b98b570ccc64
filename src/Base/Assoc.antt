-- ===== src/Base/Assoc.antt =====
-- `std::unordered_map` as an association list. The key type brings a Boolean equality.
use mathlib.Core.Path.{◌≡◌}
use mathlib.Core.Logic.{◌↔◌}
use mathlib.Core.Bool.{Bool, true, false, ◌||◌}
use mathlib.Core.List.{List, [], ◌∷◌}
use mathlib.Core.Option.{Option, none, some}
use Prim.Native.Nat.{ℕ}
use native.Mathlib.Omega.{arith}
use structuredb.Base.Tests.{if◌then◌else◌, ◌==◌ as nat_eq, ==_iff}
use structuredb.Base.Str.{Str, str_eq, str_eq_iff}

-- What a map asks of its keys.
pub record KeyEq {ℓ} (K : Type ℓ) : Type ℓ where
  pub beq : K → K → Bool
  pub beq_iff : (a b : K) → (beq a b ≡ true) ↔ (a ≡ b)

instance abbrev pub nat_key : KeyEq ℕ
nat_key = record { beq = nat_eq; beq_iff = ==_iff }

instance abbrev pub str_key : KeyEq Str
str_key = record { beq = str_eq; beq_iff = str_eq_iff }

abbrev pub option_eq : Option ℕ → Option ℕ → Bool
option_eq none none = true
option_eq (some a) (some b) = nat_eq a b
option_eq a b = false

pub option_eq_iff : (a b : Option ℕ) → (option_eq a b ≡ true) ↔ (a ≡ b)
option_eq_iff none none = ground arith
option_eq_iff none (some b) = ground arith
option_eq_iff (some a) none = ground arith
option_eq_iff (some a) (some b) = ground (arith, ==_iff a b)

instance abbrev pub option_key : KeyEq (Option ℕ)
option_key = record { beq = option_eq; beq_iff = option_eq_iff }

module _ {ℓ} {K : Type ℓ} ⦃e : KeyEq K⦄ where
  -- `set.contains(k)`
  unfoldable pub member : K → List K → Bool
  member k [] = false
  member k (j ∷ js) = e.beq j k || member k js

  module _ {κ} {V : Type κ} where
    -- `utils::FindOrNullptr(map, k)`
    unfoldable pub lookup : K → List (K × V) → Option V
    lookup k [] = none
    lookup k ((j, v) ∷ m) = if e.beq j k then some v else lookup k m

    -- `map.erase(k)`
    unfoldable pub erase : K → List (K × V) → List (K × V)
    erase k [] = []
    erase k ((j, v) ∷ m) = if e.beq j k then erase k m else (j, v) ∷ erase k m

    -- `map[k] = v`
    unfoldable pub assign : K → V → List (K × V) → List (K × V)
    assign k v m = (k, v) ∷ erase k m

    pub lookup-erase :
        (k j : K) (m : List (K × V))
        → lookup j (erase k m) ≡ (if e.beq k j then none else lookup j m)
    unfolding lookup erase
    lookup-erase k j [] = ground arith
    lookup-erase k j ((i, v) ∷ m) =
        ground (arith, e.beq_iff i k, e.beq_iff k j, e.beq_iff i j, lookup-erase k j m)

    pub lookup-assign :
        (k j : K) (v : V) (m : List (K × V))
        → lookup j (assign k v m) ≡ (if e.beq k j then some v else lookup j m)
    unfolding lookup assign
    lookup-assign k j v m = ground (arith, lookup-erase k j m)

    pub lookup-assigned : (k : K) (v : V) (m : List (K × V)) → lookup k (assign k v m) ≡ some v
    unfolding lookup assign
    lookup-assigned k v m = ground (arith, e.beq_iff k k)

    -- No key is there twice.
    abbrev pub IsMap : List (K × V) → Type κ
    IsMap [] = Unit
    IsMap ((k, v) ∷ m) = (lookup k m ≡ none) × IsMap m

    erase-IsMap : (k : K) (m : List (K × V)) → IsMap m → IsMap (erase k m)
    unfolding erase
    erase-IsMap k [] h = tt
    erase-IsMap k ((j, v) ∷ m) h = ground (arith, erase-IsMap k m h.1, lookup-erase k j m)

    pub assign-IsMap : (k : K) (v : V) (m : List (K × V)) → IsMap m → IsMap (assign k v m)
    unfolding assign
    assign-IsMap k v m h = (ground (arith, lookup-erase k k m, e.beq_iff k k), erase-IsMap k m h)
