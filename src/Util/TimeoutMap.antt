-- ===== src/Util/TimeoutMap.antt =====
-- MyTimeoutMap (util/MyTimeoutMap.h), the first of the file's two templates, and
-- MySharedTimeoutMap, which is the same with a destructor that does nothing. Keys are unsigned
-- numbers; a value is a pointer, `none` is `nullptr`. The current time is an argument of the
-- operations that ask for it. Each operation runs under the map's lock and is one step.
pub mod Marks
mod Expiry
pub mod Tracked
pub mod Exact
use echo_frame.Base.{
  ℕ, ◌+◌, ◌-◌, ◌%◌, ◌^◌, Option, none, some, Bool, true, false, List, [], ◌∷◌, ◌++◌, length,
  if◌then◌else◌, drop,
}
use echo_frame.Base.OrdMap
use echo_frame.Base.OrdMap.{OrdMap, lookup, set, before, from}

pub record ValueWrapper {ℓ} (V : Type ℓ) : Type ℓ where
  pub ts : ℕ
  pub v : Option V

pub record KeyWrapper : Type 0 where
  pub ts : ℕ
  pub keys : OrdMap (Unit {0})

pub record TimeoutMap {ℓ} (V : Type ℓ) : Type ℓ where
  pub values : OrdMap (ValueWrapper V)
  pub keys : OrdMap KeyWrapper
  pub timeout : ℕ

-- `keys_[t]` makes an empty wrapper where there is none.
abbrev pub bucket : OrdMap KeyWrapper → ℕ → KeyWrapper
bucket keys t = elim (lookup t keys) [ none ↦ record { ts = 0; keys = [] } | some w ↦ w ]

abbrev pub put_key : ℕ → ℕ → OrdMap KeyWrapper → OrdMap KeyWrapper
put_key k now keys = set now (record { ts = now; keys = set k tt (bucket keys now).keys }) keys

abbrev pub drop_key : ℕ → ℕ → OrdMap KeyWrapper → OrdMap KeyWrapper
drop_key k t keys = let w = bucket keys t in set t (record w { keys = OrdMap.erase k w.keys }) keys

abbrev pub is_nil : OrdMap (Unit {0}) → Bool
is_nil [] = true
is_nil (x ∷ xs) = false

-- The wrapper of a key's old time without the key; the whole wrapper goes if that empties it.
abbrev pub release_key : ℕ → ℕ → OrdMap KeyWrapper → OrdMap KeyWrapper
release_key k t keys =
    if is_nil (OrdMap.erase k (bucket keys t).keys)
    then OrdMap.erase t (drop_key k t keys)
    else drop_key k t keys

-- The keys of a set in order.
abbrev pub members : OrdMap (Unit {0}) → List ℕ
members [] = []
members ((k, u) ∷ m) = k ∷ members m

module _ {ℓ} {V : Type ℓ} where
  abbrev pub value : Option (ValueWrapper V) → Option V
  value none = none
  value (some w) = w.v

  unfoldable pub find : ℕ → TimeoutMap V → Option V
  find k m = value (lookup k m.values)

  unfoldable pub insert : ℕ → Option V → ℕ → TimeoutMap V → TimeoutMap V
  insert k v now m = record m {
    values = set k (record { ts = now; v = v }) m.values;
    keys = put_key k now m.keys;
  }

  abbrev touch :
      ℕ
      → ℕ
      → (ValueWrapper V → ValueWrapper V)
      → TimeoutMap V
      → Option (ValueWrapper V)
      → TimeoutMap V
  touch k now f m none = m
  touch k now f m (some w) = record m {
    values = set k (f w) m.values;
    keys = put_key k now (drop_key k w.ts m.keys);
  }

  -- `update(k)`
  unfoldable pub update : ℕ → ℕ → TimeoutMap V → TimeoutMap V
  update k now m = touch k now (λ w. record w { ts = now }) m (lookup k m.values)

  -- `update(k, v)`
  unfoldable pub update_value : ℕ → Option V → ℕ → TimeoutMap V → TimeoutMap V
  update_value k v now m = touch k now (λ w. record { ts = now; v = v }) m (lookup k m.values)

  abbrev erase_found : ℕ → TimeoutMap V → Option (ValueWrapper V) → TimeoutMap V
  erase_found k m none = m
  erase_found k m (some w) = record m {
    values = OrdMap.erase k m.values;
    keys = release_key k w.ts m.keys;
  }

  -- `erase_with_nolock`, and what `erase` does to the map. The pointer that `erase` returns for a
  -- key that it finds is read through a node that is gone by then, and has no value here.
  unfoldable pub erase : ℕ → TimeoutMap V → TimeoutMap V
  erase k m = erase_found k m (lookup k m.values)

  abbrev pub first : TimeoutMap V → OrdMap (ValueWrapper V) → Option V × TimeoutMap V
  first m [] = (none, m)
  first m ((k, w) ∷ rest) = (w.v, erase k m)

  -- `movefirst`
  unfoldable pub move_first : TimeoutMap V → Option V × TimeoutMap V
  move_first m = first m m.values

  -- `random`, with the number that the generator draws from [0, bound] for the bound given to it;
  -- `none` is a step past the last entry.
  abbrev picked : OrdMap (ValueWrapper V) → Option (Option V)
  picked [] = none
  picked ((k, w) ∷ rest) = some w.v

  abbrev chosen : (ℕ → ℕ) → TimeoutMap V → OrdMap (ValueWrapper V) → Option (Option V)
  chosen draw m [] = some none
  chosen draw m (e ∷ es) = picked (drop (draw (length m.keys - 1)) (e ∷ es))

  unfoldable pub random : (ℕ → ℕ) → TimeoutMap V → Option (Option V)
  random draw m = chosen draw m m.values

  unfoldable pub clear : TimeoutMap V → TimeoutMap V
  clear m = record m { values = []; keys = [] }

  -- The inner loop of `DoTimeout`: the keys of one wrapper, with what is reported of each.
  unfoldable pub expire_keys :
      List ℕ → OrdMap (ValueWrapper V) → OrdMap (ValueWrapper V) × List (ℕ × Option V)
  expire_keys [] values = (values, [])
  expire_keys (k ∷ ks) values =
      let (rest, told) = expire_keys ks (OrdMap.erase k values) in
      (rest, (k, value (lookup k values)) ∷ told)

  -- The outer loop, over the wrappers before `lower_bound`.
  unfoldable pub expire :
      OrdMap KeyWrapper → OrdMap (ValueWrapper V) → OrdMap (ValueWrapper V) × List (ℕ × Option V)
  expire [] values = (values, [])
  expire ((t, w) ∷ rest) values =
      let (left, told) = expire_keys (members w.keys) values in
      let (last, more) = expire rest left in (last, told ++ more)

  -- `MyTimeProvider::now() - timeout_`, in `uint32_t`.
  abbrev pub cutoff : ℕ → TimeoutMap V → ℕ
  cutoff now m = (now + 2 ^ 32 - m.timeout) % 2 ^ 32

  -- `DoTimeout`: the new map, and the keys with their values in the order of the calls of `pred`.
  unfoldable pub do_timeout : ℕ → TimeoutMap V → TimeoutMap V × List (ℕ × Option V)
  do_timeout now m =
      let c = cutoff now m in
      let (left, told) = expire (before c m.keys) m.values in
      (record m { values = left; keys = from c m.keys }, told)
