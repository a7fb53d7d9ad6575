-- ===== src/Util/TimeoutMap/Expiry.antt =====
-- What the two loops of `DoTimeout` take out of the map of values.
use echo_frame.Base.{
  ℕ, ◌≡◌, ◌<◌, refl, Option, none, some, List, [], ◌∷◌, Bool, true, false, ◌||◌, arith, Bool-cases,
  inl, inr, ltb→lt, ltb, ◌==◌, if◌then◌else◌,
}
use echo_frame.Base.OrdMap
use echo_frame.Base.OrdMap.{
  OrdMap, lookup, before, lookup-erase, lookup-Above, lookup_nil, IsSorted,
}
use echo_frame.Util.TimeoutMap.{ValueWrapper, KeyWrapper, members, expire, expire_keys}
use echo_frame.Util.TimeoutMap.Marks.{mark}

abbrev pub is_some {ℓ} : {A : Type ℓ} → Option A → Bool
is_some none = false
is_some (some a) = true

pub elem : ℕ → List ℕ → Bool
elem j [] = false
elem j (k ∷ ks) = k == j || elem j ks

pub elem-members : (j : ℕ) (s : OrdMap (Unit {0})) → elem j (members s) ≡ is_some (lookup j s)
unfolding elem lookup
elem-members j [] = refl
elem-members j ((k, u) ∷ s) = ground (arith, elem-members j s)

-- The key stands in one of the wrappers.
pub listed : ℕ → OrdMap KeyWrapper → Bool
listed j [] = false
listed j ((t, w) ∷ rest) = elem j (members w.keys) || listed j rest

module _ {ℓ} {V : Type ℓ} where
  pub lookup-expire_keys :
      (j : ℕ) (ks : List ℕ) (values : OrdMap (ValueWrapper V))
      → lookup j (expire_keys ks values).0 ≡ (if elem j ks then none else lookup j values)
  unfolding expire_keys elem
  lookup-expire_keys j [] values = refl
  lookup-expire_keys j (k ∷ ks) values =
      ground (arith, lookup-expire_keys j ks (OrdMap.erase k values), lookup-erase j k values)

  pub lookup-expire :
      (j : ℕ) (bs : OrdMap KeyWrapper) (values : OrdMap (ValueWrapper V))
      → lookup j (expire bs values).0 ≡ (if listed j bs then none else lookup j values)
  unfolding expire listed
  lookup-expire j [] values = refl
  lookup-expire j ((t, w) ∷ rest) values = ground (
    arith,
    lookup-expire j rest (expire_keys (members w.keys) values).0,
    lookup-expire_keys j (members w.keys) values,
  )

-- A key that is marked under a time before the bound is in the wrappers that the loop walks.
pub listed_of_mark :
    (j u c : ℕ) (keys : OrdMap KeyWrapper)
    → IsSorted keys
    → mark j u keys ≡ some tt
    → u < c
    → listed j (before c keys) ≡ true
unfolding listed before mark lookup
listed_of_mark j u c [] s e h = cc
listed_of_mark j u c ((t, w) ∷ rest) s e h =
    ground (arith, listed_of_mark j u c rest s.1, elem-members j w.keys, lookup-Above u t rest)

-- And the wrappers that it walks mark their keys under times before the bound.
pub mark_of_listed :
    (j c : ℕ) (keys : OrdMap KeyWrapper)
    → IsSorted keys
    → listed j (before c keys) ≡ true
    → (u : ℕ) × (u < c) × (mark j u keys ≡ some tt)
unfolding listed before mark lookup
mark_of_listed j c [] s e = cc
mark_of_listed j c ((t, w) ∷ rest) s e = elim (Bool-cases (ltb t c)) [
  | inr late ↦ cc (rw late at e)
  | inl early ↦ elim (Bool-cases (elem j (members w.keys))) [
    | inl here ↦ (t, ltb→lt t c early, ground (arith, elem-members j w.keys))
    | inr elsewhere ↦
        let (u, lt, marked) = mark_of_listed j c rest s.1 (ground arith) in
        (u, lt, ground (arith, lookup-Above u t rest, lookup_nil {0} {V = Unit {0}} j))
  ]
]
