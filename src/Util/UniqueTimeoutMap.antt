-- ===== src/Util/UniqueTimeoutMap.antt =====
-- MyUniqueTimeoutMap (util/MyTimeoutMap.h), the second of the file's two templates: the values are
-- owned, and `moveout` and `movefirst` hand them over. Keys, times and buckets are those of
-- MyTimeoutMap. Each operation runs under the map's lock and is one step.
pub mod Agrees
use echo_frame.Base.{ℕ, ◌-◌, Option, none, some, List, [], ◌∷◌, ◌++◌, drop, length}
use echo_frame.Base.OrdMap
use echo_frame.Base.OrdMap.{OrdMap, lookup, set, before, from}
use echo_frame.Util.TimeoutMap.{
  TimeoutMap, ValueWrapper, KeyWrapper, put_key, drop_key, release_key, members, cutoff, value,
}

module _ {ℓ} {V : Type ℓ} where
  abbrev erase_wrapper : ℕ → TimeoutMap V → Option (ValueWrapper V) → TimeoutMap V
  erase_wrapper k m none = m
  erase_wrapper k m (some w) = record m {
    values = OrdMap.erase k m.values;
    keys = release_key k w.ts m.keys;
  }

  -- `erase_with_nolock`
  unfoldable pub erase_with_nolock : ℕ → TimeoutMap V → TimeoutMap V
  erase_with_nolock k m = erase_wrapper k m (lookup k m.values)

  unfoldable pub erase_unique : ℕ → TimeoutMap V → TimeoutMap V
  unfolding erase_with_nolock
  erase_unique k m = erase_with_nolock k m

  -- `find`: the pointer stays in the map.
  unfoldable pub find_unique : ℕ → TimeoutMap V → Option V
  find_unique k m = value (lookup k m.values)

  abbrev pub taken_out : ℕ → TimeoutMap V → Option (ValueWrapper V) → Option V × TimeoutMap V
  taken_out k m none = (none, m)
  taken_out k m (some w) = (w.v, erase_with_nolock k m)

  unfoldable pub move_out : ℕ → TimeoutMap V → Option V × TimeoutMap V
  move_out k m = taken_out k m (lookup k m.values)

  abbrev pub first_out : TimeoutMap V → OrdMap (ValueWrapper V) → Option V × TimeoutMap V
  first_out m [] = (none, m)
  first_out m ((k, w) ∷ rest) = (w.v, erase_with_nolock k m)

  unfoldable pub move_first_unique : TimeoutMap V → Option V × TimeoutMap V
  move_first_unique m = first_out m m.values

  abbrev nth_value : OrdMap (ValueWrapper V) → Option (Option V)
  nth_value [] = none
  nth_value ((k, w) ∷ rest) = some w.v

  abbrev drawn : (ℕ → ℕ) → TimeoutMap V → OrdMap (ValueWrapper V) → Option (Option V)
  drawn draw m [] = some none
  drawn draw m (e ∷ es) = nth_value (drop (draw (length m.keys - 1)) (e ∷ es))

  -- `random`, as in MyTimeoutMap.
  unfoldable pub random_unique : (ℕ → ℕ) → TimeoutMap V → Option (Option V)
  random_unique draw m = drawn draw m m.values

  unfoldable pub insert_unique : ℕ → Option V → ℕ → TimeoutMap V → TimeoutMap V
  insert_unique k v now m = record m {
    values = set k (record { ts = now; v = v }) m.values;
    keys = put_key k now m.keys;
  }

  abbrev renewed :
      ℕ
      → ℕ
      → (ValueWrapper V → ValueWrapper V)
      → TimeoutMap V
      → Option (ValueWrapper V)
      → TimeoutMap V
  renewed k now f m none = m
  renewed k now f m (some w) = record m {
    values = set k (f w) m.values;
    keys = put_key k now (drop_key k w.ts m.keys);
  }

  -- `update(k)`
  unfoldable pub update_unique : ℕ → ℕ → TimeoutMap V → TimeoutMap V
  update_unique k now m = renewed k now (λ w. record w { ts = now }) m (lookup k m.values)

  -- `update(k, v)`
  unfoldable pub update_value_unique : ℕ → Option V → ℕ → TimeoutMap V → TimeoutMap V
  update_value_unique k v now m =
      renewed k now (λ w. record { ts = now; v = v }) m (lookup k m.values)

  unfoldable pub clear_unique : TimeoutMap V → TimeoutMap V
  clear_unique m = record m { values = []; keys = [] }

  -- The inner loop of `DoTimeout`, with the values that are handed to `pred`.
  pub hand_over : List ℕ → OrdMap (ValueWrapper V) → OrdMap (ValueWrapper V) × List (ℕ × Option V)
  hand_over [] values = (values, [])
  hand_over (k ∷ ks) values =
      let (rest, told) = hand_over ks (OrdMap.erase k values) in
      (rest, (k, value (lookup k values)) ∷ told)

  pub hand_over_all :
      OrdMap KeyWrapper → OrdMap (ValueWrapper V) → OrdMap (ValueWrapper V) × List (ℕ × Option V)
  hand_over_all [] values = (values, [])
  hand_over_all ((t, w) ∷ rest) values =
      let (left, told) = hand_over (members w.keys) values in
      let (last, more) = hand_over_all rest left in (last, told ++ more)

  unfoldable pub do_timeout_unique : ℕ → TimeoutMap V → TimeoutMap V × List (ℕ × Option V)
  do_timeout_unique now m =
      let c = cutoff now m in
      let (left, told) = hand_over_all (before c m.keys) m.values in
      (record m { values = left; keys = from c m.keys }, told)
