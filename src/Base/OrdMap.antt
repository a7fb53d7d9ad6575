-- ===== src/Base/OrdMap.antt =====
-- `std::map` with unsigned keys: an association list whose keys rise. `std::set` is a map to `Unit`.
use Prim.Native.Nat.{ℕ, ◌≤◌, ◌<◌}
use mathlib.Core.Path.{◌≡◌, refl}
use mathlib.Core.Option.{Option, none, some}
use mathlib.Core.List.{List, [], ◌∷◌}
use native.Mathlib.Omega.{arith}
use echo_frame.Base.Tests.{ltb, ◌==◌, if◌then◌else◌}

abbrev pub OrdMap {ℓ} : Type ℓ → Type ℓ
OrdMap V = List (ℕ × V)

-- All keys lie above a bound.
abbrev pub Above {ℓ} : {V : Type ℓ} → ℕ → OrdMap V → Type 0
Above n [] = Unit {0}
Above n ((k, v) ∷ m) = (n < k) × Above n m

abbrev pub IsSorted {ℓ} : {V : Type ℓ} → OrdMap V → Type 0
IsSorted [] = Unit {0}
IsSorted ((k, v) ∷ m) = Above k m × IsSorted m

module _ {ℓ} {V : Type ℓ} where
  unfoldable pub lookup : ℕ → OrdMap V → Option V
  lookup j [] = none
  lookup j ((k, v) ∷ m) = if k == j then some v else lookup j m

  unfoldable pub set : ℕ → V → OrdMap V → OrdMap V
  set j w [] = (j, w) ∷ []
  set j w ((k, v) ∷ m) =
      if k == j then (j, w) ∷ m else if ltb j k then (j, w) ∷ (k, v) ∷ m else (k, v) ∷ set j w m

  unfoldable pub erase : ℕ → OrdMap V → OrdMap V
  erase j [] = []
  erase j ((k, v) ∷ m) = if k == j then erase j m else (k, v) ∷ erase j m

  -- The entries before `lower_bound` of a key, and those from it on.
  unfoldable pub before : ℕ → OrdMap V → OrdMap V
  before c [] = []
  before c ((k, v) ∷ m) = if ltb k c then (k, v) ∷ before c m else []

  unfoldable pub from : ℕ → OrdMap V → OrdMap V
  from c [] = []
  from c ((k, v) ∷ m) = if ltb k c then from c m else (k, v) ∷ m

  pub lookup-set :
      (j k : ℕ) (v : V) (m : OrdMap V)
      → lookup j (set k v m) ≡ (if k == j then some v else lookup j m)
  unfolding lookup set
  lookup-set j k v [] = refl
  lookup-set j k v ((i, w) ∷ m) = ground (arith, lookup-set j k v m)

  pub lookup-erase :
      (j k : ℕ) (m : OrdMap V) → lookup j (erase k m) ≡ (if k == j then none else lookup j m)
  unfolding lookup erase
  lookup-erase j k [] = ground arith
  lookup-erase j k ((i, w) ∷ m) = ground (arith, lookup-erase j k m)

  pub Above-mono : (a b : ℕ) (m : OrdMap V) → a ≤ b → Above b m → Above a m
  Above-mono a b [] h s = tt
  Above-mono a b ((k, v) ∷ m) h s = (omega arith, Above-mono a b m h s.1)

  pub lookup_nil : (j : ℕ) → lookup j [] ≡ none
  unfolding lookup
  lookup_nil j = refl

  Above-set : (n k : ℕ) (v : V) (m : OrdMap V) → n < k → Above n m → Above n (set k v m)
  unfolding set
  Above-set n k v [] h s = (h, tt)
  Above-set n k v ((i, w) ∷ m) h s = ground (arith, Above-set n k v m h s.1)

  pub set-IsSorted : (k : ℕ) (v : V) (m : OrdMap V) → IsSorted m → IsSorted (set k v m)
  unfolding set
  set-IsSorted k v [] s = (tt, tt)
  set-IsSorted k v ((i, w) ∷ m) s =
      ground (arith, set-IsSorted k v m s.1, Above-set i k v m, Above-mono k i m)

  Above-erase : (n k : ℕ) (m : OrdMap V) → Above n m → Above n (erase k m)
  unfolding erase
  Above-erase n k [] s = tt
  Above-erase n k ((i, w) ∷ m) s = ground (arith, Above-erase n k m s.1)

  pub erase-IsSorted : (k : ℕ) (m : OrdMap V) → IsSorted m → IsSorted (erase k m)
  unfolding erase
  erase-IsSorted k [] s = tt
  erase-IsSorted k ((i, w) ∷ m) s = ground (arith, erase-IsSorted k m s.1, Above-erase i k m s.0)

  pub lookup-Above : (j n : ℕ) (m : OrdMap V) → j ≤ n → Above n m → lookup j m ≡ none
  unfolding lookup
  lookup-Above j n [] h s = refl
  lookup-Above j n ((k, v) ∷ m) h s = ground (arith, lookup-Above j n m h s.1)

  pub lookup-from :
      (j c : ℕ) (m : OrdMap V)
      → IsSorted m
      → lookup j (from c m) ≡ (if ltb j c then none else lookup j m)
  unfolding lookup from
  lookup-from j c [] s = ground arith
  lookup-from j c ((k, v) ∷ m) s = ground (arith, lookup-from j c m s.1, lookup-Above j k m)

  pub from-IsSorted : (c : ℕ) (m : OrdMap V) → IsSorted m → IsSorted (from c m)
  unfolding from
  from-IsSorted c [] s = tt
  from-IsSorted c ((k, v) ∷ m) s = ground (arith, from-IsSorted c m s.1)

  -- The entry found by `lookup` is before the bound exactly when its key is below it.
  pub lookup-before :
      (j c : ℕ) (m : OrdMap V)
      → IsSorted m
      → lookup j (before c m) ≡ (if ltb j c then lookup j m else none)
  unfolding lookup before
  lookup-before j c [] s = ground arith
  lookup-before j c ((k, v) ∷ m) s = ground (arith, lookup-before j c m s.1, lookup-Above j k m)
