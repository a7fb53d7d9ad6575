-- ===== src/Util/TimeoutMap/Exact.antt =====
-- The other half of the invariant, that a key stands under no other time than its own, and the
-- `insert` that breaks it.
use echo_frame.Base.{
  ℕ, ◌⊎◌, ◌<◌, ◌≡◌, refl, Option, none, some, true, false, arith, ltb, ◌==◌, if◌then◌else◌,
  Bool-cases, inl, inr, lt→ltb, ltb→lt,
}
use echo_frame.Base.OrdMap
use echo_frame.Base.OrdMap.{
  OrdMap, lookup, before, from, lookup-set, lookup-erase, lookup-from, lookup-before, lookup_nil,
  IsSorted, from-IsSorted,
}
use echo_frame.Util.TimeoutMap.{TimeoutMap, ValueWrapper, put_key, insert, do_timeout, cutoff}
use echo_frame.Util.TimeoutMap.Marks.{mark, mark-put_key, put_key-IsSorted}
use echo_frame.Util.TimeoutMap.Expiry.{listed, lookup-expire, listed_of_mark, mark_of_listed}
use echo_frame.Util.TimeoutMap.Tracked.{IsTracked}

module _ {ℓ} {V : Type ℓ} where
  -- A mark is that of a stored key under its time.
  abbrev pub IsExact : TimeoutMap V → Type ℓ
  IsExact m =
      (k t : ℕ)
      → mark k t m.keys ≡ some tt
      → (w : ValueWrapper V) × (lookup k m.values ≡ some w) × (w.ts ≡ t)

  -- `insert` of a key that is not stored keeps this: every key in a wrapper is stored, with the time
  -- of that wrapper.
  pub insert-IsExact :
      (k : ℕ) (v : Option V) (now : ℕ) (m : TimeoutMap V)
      → lookup k m.values ≡ none
      → IsExact m
      → IsExact (insert k v now m)
  unfolding insert
  insert-IsExact k v now m fresh x j t e = elim (Bool-cases (k == j)) [
    | inl same ↦ (
      record { ts = now; v = v },
      ground (arith, lookup-set j k (record { ts = now; v = v }) m.values),
      same_time same (Bool-cases (now == t)),
    )
    | inr other ↦
        let (w, found, time) = x j t (ground (arith, mark-put_key j t k now m.keys)) in
        (w, ground (arith, lookup-set j k (record { ts = now; v = v }) m.values), time)
  ]
    where
      same_time : k == j ≡ true → (now == t ≡ true) ⊎ (now == t ≡ false) → now ≡ t
      same_time same (inl at) = ground (arith)
      same_time same (inr off) =
          let (w, found, time) = x j t (ground (arith, e, off, mark-put_key j t k now m.keys)) in
          ground (arith, fresh, found, same)

  -- In a map where the keys that stand in the wrapper of a time are the stored keys of that time,
  -- `DoTimeout` removes a stored key if its time is before the bound, and keeps it with its value
  -- otherwise.
  pub do_timeout-lookup :
      (now : ℕ) (m : TimeoutMap V) (k : ℕ) (w : ValueWrapper V)
      → IsTracked m
      → IsExact m
      → lookup k m.values ≡ some w
      → lookup k (do_timeout now m).0.values ≡ (if ltb w.ts (cutoff now m) then none else some w)
  unfolding do_timeout
  do_timeout-lookup now m k w t x e = elim (Bool-cases (listed k (before c m.keys))) [
    | inl hit ↦
        let (u, early, marked) = mark_of_listed k c m.keys t.sorted hit in
        let (w2, found, time) = x k u marked in
        let old = lt→ltb w.ts c (own u w2 found time early) in
        rw (lookup-expire k (before c m.keys) m.values, hit, old) refl
    | inr miss ↦ rw (lookup-expire k (before c m.keys) m.values, miss, kept miss) e
  ]
    where
      c : ℕ
      c = cutoff now m

      time_of : {w2 : ValueWrapper V} → lookup k m.values ≡ some w2 → w.ts ≡ w2.ts
      time_of found = cc

      kept : listed k (before c m.keys) ≡ false → ltb w.ts c ≡ false
      kept miss = elim (Bool-cases (ltb w.ts c)) [
        | inr late ↦ late
        | inl soon ↦
            let hit =
              listed_of_mark k w.ts c m.keys t.sorted (t.marked k w e) (ltb→lt w.ts c soon) in
            cc
      ]

      own :
          (u : ℕ) (w2 : ValueWrapper V) → lookup k m.values ≡ some w2 → w2.ts ≡ u → u < c → w.ts < c
      own u w2 found time early = rw (time_of found, time) early

  -- In a map in which every stored key stands under its time: a stored key whose time is before the
  -- bound is gone after `DoTimeout` although it was inserted again, whatever the time of the second
  -- insert.
  pub insert-stale :
      (k : ℕ) (v : Option V) (at now : ℕ) (m : TimeoutMap V) (w : ValueWrapper V)
      → IsTracked m
      → lookup k m.values ≡ some w
      → w.ts < cutoff now m
      → lookup k (do_timeout now (insert k v at m)).0.values ≡ none
  unfolding do_timeout insert
  insert-stale k v at now m w t e early =
      let keys = put_key k at m.keys in
      ground (
        arith,
        lookup-expire k (before (cutoff now m) keys)
            (OrdMap.set k (record { ts = at; v = v }) m.values),
        listed_of_mark k w.ts (cutoff now m) keys (put_key-IsSorted k at m.keys t.sorted),
        mark-put_key k w.ts k at m.keys,
        t.marked k w e,
      )
