-- ===== src/Util/TimeoutMap/Marks.antt =====
-- Which key stands under which time in the map from times to keys.
use echo_frame.Base.{
  ℕ, ◌≡◌, Option, none, some, [], ◌∷◌, true, arith, ltb, ◌==◌, if◌then◌else◌, Bool-cases, inl, inr,
}
use echo_frame.Base.OrdMap
use echo_frame.Base.OrdMap.{
  OrdMap, lookup, set, from, lookup-set, lookup-erase, lookup-from, lookup_nil, IsSorted,
  set-IsSorted, erase-IsSorted,
}
use echo_frame.Util.TimeoutMap.{KeyWrapper, bucket, put_key, drop_key, release_key, is_nil}

-- The mark of key `k` under time `t`.
unfoldable pub mark : ℕ → ℕ → OrdMap KeyWrapper → Option (Unit {0})
mark k t keys = lookup k (bucket keys t).keys

lookup-is_nil : (j : ℕ) (s : OrdMap (Unit {0})) → is_nil s ≡ true → lookup j s ≡ none
lookup-is_nil j [] e = lookup_nil j
lookup-is_nil j (x ∷ s) e = cc

module _ (j u k t : ℕ) (keys : OrdMap KeyWrapper) where
  pub mark-put_key :
      mark j u (put_key k t keys)
      ≡ (if t == u then (if k == j then some tt else mark j u keys) else mark j u keys)
  unfolding mark
  mark-put_key = ground (
    arith,
    lookup-set u t (record { ts = t; keys = set k tt (bucket keys t).keys }) keys,
    lookup-set j k tt (bucket keys t).keys,
  )

  pub mark-drop_key :
      mark j u (drop_key k t keys)
      ≡ (if t == u then (if k == j then none else mark j u keys) else mark j u keys)
  unfolding mark
  mark-drop_key = ground (
    arith,
    lookup-set u t (record (bucket keys t) { keys = OrdMap.erase k (bucket keys t).keys }) keys,
    lookup-erase j k (bucket keys t).keys,
  )

  pub mark-release_key :
      mark j u (release_key k t keys)
      ≡ (if t == u then (if k == j then none else mark j u keys) else mark j u keys)
  unfolding mark
  mark-release_key = elim (Bool-cases (is_nil left)) [
    | inl e ↦ rw e (
        ground (
          arith,
          lookup-erase u t (drop_key k t keys),
          lookup-set u t (record (bucket keys t) { keys = left }) keys,
          lookup-erase j k (bucket keys t).keys,
          lookup-is_nil j left e,
          lookup_nil {0} {V = Unit {0}} j,
        ))
    | inr e ↦ rw e mark-drop_key
  ]
    where
      left : OrdMap (Unit {0})
      left = OrdMap.erase k (bucket keys t).keys

pub mark-from :
    (j u c : ℕ) (keys : OrdMap KeyWrapper)
    → IsSorted keys
    → mark j u (from c keys) ≡ (if ltb u c then none else mark j u keys)
unfolding mark
mark-from j u c keys s = ground (arith, lookup-from u c keys s, lookup_nil {0} {V = Unit {0}} j)

-- The times stay in order.
pub put_key-IsSorted :
    (k t : ℕ) (keys : OrdMap KeyWrapper) → IsSorted keys → IsSorted (put_key k t keys)
put_key-IsSorted k t keys s = set-IsSorted t _ keys s

pub drop_key-IsSorted :
    (k t : ℕ) (keys : OrdMap KeyWrapper) → IsSorted keys → IsSorted (drop_key k t keys)
drop_key-IsSorted k t keys s = set-IsSorted t _ keys s

pub release_key-IsSorted :
    (k t : ℕ) (keys : OrdMap KeyWrapper) → IsSorted keys → IsSorted (release_key k t keys)
release_key-IsSorted k t keys s = elim (Bool-cases (is_nil (OrdMap.erase k (bucket keys t).keys))) [
  | inl e ↦ rw e (erase-IsSorted t (drop_key k t keys) (drop_key-IsSorted k t keys s))
  | inr e ↦ rw e (drop_key-IsSorted k t keys s)
]
