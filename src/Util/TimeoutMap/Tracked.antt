-- ===== src/Util/TimeoutMap/Tracked.antt =====
-- The invariant that every operation of MyTimeoutMap keeps: a stored key stands under its time.
use echo_frame.Base.{ℕ, ◌<◌, ◌≡◌, Option, none, some, List, [], ◌∷◌, arith, inl, inr, Option-cases}
use echo_frame.Base.OrdMap
use echo_frame.Base.OrdMap.{
  OrdMap, lookup, before, from, lookup-set, lookup-erase, lookup-from, lookup-before, lookup_nil,
  IsSorted, from-IsSorted,
}
use echo_frame.Util.TimeoutMap.{
  TimeoutMap, ValueWrapper, put_key, drop_key, insert, update, update_value, erase, first,
  move_first, clear, do_timeout, cutoff,
}
use echo_frame.Util.TimeoutMap.Marks.{
  mark, mark-put_key, mark-drop_key, mark-release_key, mark-from, put_key-IsSorted,
  drop_key-IsSorted, release_key-IsSorted,
}
use echo_frame.Util.TimeoutMap.Expiry.{lookup-expire, listed_of_mark}

module _ {ℓ} {V : Type ℓ} where
  pub record IsTracked (m : TimeoutMap V) : Type ℓ where
    pub sorted : IsSorted m.keys
    pub marked :
        (k : ℕ) (w : ValueWrapper V) → lookup k m.values ≡ some w → mark k w.ts m.keys ≡ some tt

  -- `insert` keeps every stored key under its time.
  pub insert-IsTracked :
      (k : ℕ) (v : Option V) (now : ℕ) {m : TimeoutMap V}
      → IsTracked m
      → IsTracked (insert k v now m)
  unfolding insert
  insert-IsTracked k v now {m} t = record {
    sorted = put_key-IsSorted k now m.keys t.sorted;
    marked = λ j w e. ground (
      arith,
      lookup-set j k (record { ts = now; v = v }) m.values,
      mark-put_key j w.ts k now m.keys,
      t.marked j w,
    );
  }

  touch-IsTracked :
      (k now : ℕ) (v : Option V) (old : ValueWrapper V) {m : TimeoutMap V}
      → lookup k m.values ≡ some old
      → IsTracked m
      → IsTracked (record m {
        values = OrdMap.set k (record { ts = now; v = v }) m.values;
        keys = put_key k now (drop_key k old.ts m.keys);
      })
  touch-IsTracked k now v old {m} found t = record {
    sorted = put_key-IsSorted k now _ (drop_key-IsSorted k old.ts m.keys t.sorted);
    marked = λ j w e. ground (
      arith,
      lookup-set j k (record { ts = now; v = v }) m.values,
      mark-put_key j w.ts k now (drop_key k old.ts m.keys),
      mark-drop_key j w.ts k old.ts m.keys,
      t.marked j w,
    );
  }

  -- So does `update(k)`.
  pub update-IsTracked : (k now : ℕ) {m : TimeoutMap V} → IsTracked m → IsTracked (update k now m)
  unfolding update
  update-IsTracked k now {m} t = elim (Option-cases (lookup k m.values)) [
    | inl e ↦ rw e t
    | inr (w, e) ↦ rw e (touch-IsTracked k now w.v w e t)
  ]

  pub update_value-IsTracked :
      (k : ℕ) (v : Option V) (now : ℕ) {m : TimeoutMap V}
      → IsTracked m
      → IsTracked (update_value k v now m)
  unfolding update_value
  update_value-IsTracked k v now {m} t = elim (Option-cases (lookup k m.values)) [
    | inl e ↦ rw e t
    | inr (w, e) ↦ rw e (touch-IsTracked k now v w e t)
  ]

  pub erase-IsTracked : (k : ℕ) {m : TimeoutMap V} → IsTracked m → IsTracked (erase k m)
  unfolding erase
  erase-IsTracked k {m} t = elim (Option-cases (lookup k m.values)) [
    | inl e ↦ rw e t
    | inr (w, e) ↦ rw e (record {
      sorted = release_key-IsSorted k w.ts m.keys t.sorted;
      marked = λ j u found.
          ground
            (arith, lookup-erase j k m.values, mark-release_key j u.ts k w.ts m.keys, t.marked j u);
    })
  ]

  -- And `DoTimeout`.
  pub do_timeout-IsTracked :
      (now : ℕ) {m : TimeoutMap V} → IsTracked m → IsTracked (do_timeout now m).0
  unfolding do_timeout
  do_timeout-IsTracked now {m} t = record {
    sorted = from-IsSorted c m.keys t.sorted;
    marked = λ j w e. ground (
      arith,
      lookup-expire j (before c m.keys) m.values,
      t.marked j w,
      listed_of_mark j w.ts c m.keys t.sorted,
      mark-from j w.ts c m.keys t.sorted,
    );
  }
    where
      c : ℕ
      c = cutoff now m

  -- `movefirst` is an `erase`.
  pub move_first-IsTracked : {m : TimeoutMap V} → IsTracked m → IsTracked (move_first m).1
  unfolding move_first
  move_first-IsTracked {m} t = first_cases m.values
    where
      first_cases : (values : OrdMap (ValueWrapper V)) → IsTracked (first m values).1
      first_cases [] = t
      first_cases ((k, w) ∷ rest) = erase-IsTracked k t

  pub clear-IsTracked : (m : TimeoutMap V) → IsTracked (clear m)
  unfolding clear
  clear-IsTracked m = record {
    sorted = tt;
    marked = λ k w e. cc (lookup_nil {V = ValueWrapper V} k);
  }

-- A call of one of the operations that change the map.
pub data Call {ℓ} (V : Type ℓ) : Type ℓ where
  inserts : ℕ → Option V → Call V
  updates : ℕ → Call V
  updates_value : ℕ → Option V → Call V
  erases : ℕ → Call V
  moves_first : Call V
  clears : Call V
  times_out : Call V

module _ {ℓ} {V : Type ℓ} where
  abbrev pub step : TimeoutMap V → ℕ × Call V → TimeoutMap V
  step m (now, inserts k v) = insert k v now m
  step m (now, updates k) = update k now m
  step m (now, updates_value k v) = update_value k v now m
  step m (now, erases k) = erase k m
  step m (now, moves_first) = (move_first m).1
  step m (now, clears) = clear m
  step m (now, times_out) = (do_timeout now m).0

  abbrev pub run : TimeoutMap V → List (ℕ × Call V) → TimeoutMap V
  run m [] = m
  run m (c ∷ cs) = run (step m c) cs

  pub step-IsTracked : {m : TimeoutMap V} (c : ℕ × Call V) → IsTracked m → IsTracked (step m c)
  step-IsTracked (now, inserts k v) t = insert-IsTracked k v now t
  step-IsTracked (now, updates k) t = update-IsTracked k now t
  step-IsTracked (now, updates_value k v) t = update_value-IsTracked k v now t
  step-IsTracked (now, erases k) t = erase-IsTracked k t
  step-IsTracked (now, moves_first) t = move_first-IsTracked t
  step-IsTracked {m} (now, clears) t = clear-IsTracked m
  step-IsTracked (now, times_out) t = do_timeout-IsTracked now t

  -- In a map in which every stored key stands under its time, `DoTimeout` leaves no key behind whose
  -- time is before the bound.
  do_timeout_complete :
      (now : ℕ) {m : TimeoutMap V} (k : ℕ) (w : ValueWrapper V)
      → IsTracked m
      → lookup k m.values ≡ some w
      → w.ts < cutoff now m
      → lookup k (do_timeout now m).0.values ≡ none
  unfolding do_timeout
  do_timeout_complete now {m} k w t e old = ground (
    arith,
    lookup-expire k (before (cutoff now m) m.keys) m.values,
    t.marked k w e,
    listed_of_mark k w.ts (cutoff now m) m.keys t.sorted,
  )
