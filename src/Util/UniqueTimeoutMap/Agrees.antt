-- ===== src/Util/UniqueTimeoutMap/Agrees.antt =====
-- The two maps of util/MyTimeoutMap.h do the same to keys, times and values.
use echo_frame.Base.{ℕ, ◌≡◌, refl, sym, ap, inl, inr, Option-cases, ◌∙◌, Option, List, [], ◌∷◌}
use echo_frame.Base.OrdMap
use echo_frame.Base.OrdMap.{OrdMap, lookup, before, from}
use echo_frame.Util.TimeoutMap.{
  TimeoutMap, ValueWrapper, KeyWrapper, members, insert, update, update_value, erase, first,
  move_first, clear, expire, expire_keys, do_timeout, cutoff, value,
}
use echo_frame.Util.TimeoutMap.Tracked.{
  Call, inserts, updates, updates_value, erases, moves_first, clears, times_out, run, step,
}
use echo_frame.Util.UniqueTimeoutMap.{
  first_out, taken_out, erase_with_nolock, erase_unique, find_unique, move_out, move_first_unique,
  insert_unique, update_unique, update_value_unique, clear_unique, hand_over, hand_over_all,
  do_timeout_unique,
}

-- The calls that change the map, `moveout` among them.
pub data UniqueCall {ℓ} (V : Type ℓ) : Type ℓ where
  shared : Call V → UniqueCall V
  moves_out : ℕ → UniqueCall V

-- The call of MyTimeoutMap that does the same to the map.
abbrev pub plain {ℓ} : {V : Type ℓ} → UniqueCall V → Call V
plain (shared c) = c
plain (moves_out k) = erases k

abbrev pub plain_all {ℓ} : {V : Type ℓ} → List (ℕ × UniqueCall V) → List (ℕ × Call V)
plain_all [] = []
plain_all ((now, c) ∷ cs) = (now, plain c) ∷ plain_all cs

module _ {ℓ} {V : Type ℓ} where
  abbrev pub step_unique : TimeoutMap V → ℕ → UniqueCall V → TimeoutMap V
  step_unique m now (shared (inserts k v)) = insert_unique k v now m
  step_unique m now (shared (updates k)) = update_unique k now m
  step_unique m now (shared (updates_value k v)) = update_value_unique k v now m
  step_unique m now (shared (erases k)) = erase_unique k m
  step_unique m now (shared moves_first) = (move_first_unique m).1
  step_unique m now (shared clears) = clear_unique m
  step_unique m now (shared times_out) = (do_timeout_unique now m).0
  step_unique m now (moves_out k) = (move_out k m).1

  unfoldable pub run_unique : TimeoutMap V → List (ℕ × UniqueCall V) → TimeoutMap V
  run_unique m [] = m
  run_unique m ((now, c) ∷ cs) = run_unique (step_unique m now c) cs

  erase_agrees : (k : ℕ) (m : TimeoutMap V) → erase_with_nolock k m ≡ erase k m
  unfolding erase_with_nolock erase
  erase_agrees k m = elim (Option-cases (lookup k m.values)) [ inl e ↦ rw e | inr (w, e) ↦ rw e ]

  update_agrees : (k now : ℕ) (m : TimeoutMap V) → update_unique k now m ≡ update k now m
  unfolding update_unique update
  update_agrees k now m = elim (Option-cases (lookup k m.values)) [
    | inl e ↦ rw e
    | inr (w, e) ↦ rw e
  ]

  update_value_agrees :
      (k : ℕ) (v : Option V) (now : ℕ) (m : TimeoutMap V)
      → update_value_unique k v now m ≡ update_value k v now m
  unfolding update_value_unique update_value
  update_value_agrees k v now m = elim (Option-cases (lookup k m.values)) [
    | inl e ↦ rw e
    | inr (w, e) ↦ rw e
  ]

  first_agrees : (m : TimeoutMap V) → move_first_unique m ≡ move_first m
  unfolding move_first_unique move_first
  first_agrees m = by_values m.values
    where
      by_values : (values : OrdMap (ValueWrapper V)) → first_out m values ≡ first m values
      by_values [] = refl
      by_values ((k, w) ∷ rest) = ap (λ t. (w.v, t)) (erase_agrees k m)

  hand_over_agrees :
      (ks : List ℕ) (values : OrdMap (ValueWrapper V)) → hand_over ks values ≡ expire_keys ks values
  unfolding hand_over expire_keys
  hand_over_agrees [] values = refl
  hand_over_agrees (k ∷ ks) values = rw (hand_over_agrees ks (OrdMap.erase k values))

  hand_over_all_agrees :
      (bs : OrdMap KeyWrapper) (values : OrdMap (ValueWrapper V))
      → hand_over_all bs values ≡ expire bs values
  unfolding hand_over_all expire
  hand_over_all_agrees [] values = refl
  hand_over_all_agrees ((t, w) ∷ rest) values = rw (
    hand_over_agrees (members w.keys) values,
    hand_over_all_agrees rest (expire_keys (members w.keys) values).0,
  )

  do_timeout_agrees : (now : ℕ) (m : TimeoutMap V) → do_timeout_unique now m ≡ do_timeout now m
  unfolding do_timeout_unique do_timeout
  do_timeout_agrees now m = rw (hand_over_all_agrees (before (cutoff now m) m.keys) m.values)

  -- `moveout` returns what `find` shows, and takes the key out.
  pub move_out_lem : (k : ℕ) (m : TimeoutMap V) → move_out k m ≡ (find_unique k m, erase_unique k m)
  unfolding move_out find_unique erase_unique erase_with_nolock
  move_out_lem k m = elim (Option-cases (lookup k m.values)) [
    | inl e ↦ rw e
    | inr (w, e) ↦ ap (taken_out k m) e ∙ ap (λ o. (value o, erase_with_nolock k m)) (sym e)
  ]

  step_agrees :
      (m : TimeoutMap V) (now : ℕ) (c : UniqueCall V) → step_unique m now c ≡ step m (now, plain c)
  unfolding insert_unique insert clear_unique clear erase_unique
  step_agrees m now (shared (inserts k v)) = refl
  step_agrees m now (shared (updates k)) = update_agrees k now m
  step_agrees m now (shared (updates_value k v)) = update_value_agrees k v now m
  step_agrees m now (shared (erases k)) = erase_agrees k m
  step_agrees m now (shared moves_first) = ap (λ r. r.1) (first_agrees m)
  step_agrees m now (shared clears) = refl
  step_agrees m now (shared times_out) = ap (λ r. r.0) (do_timeout_agrees now m)
  step_agrees m now (moves_out k) = ap (λ r. r.1) (move_out_lem k m) ∙ erase_agrees k m

  -- Any sequence of calls of MyUniqueTimeoutMap at any times leads to the map that MyTimeoutMap has
  -- after the same calls, with `erase` where the unique map has `moveout`.
  run_unique-run :
      (m : TimeoutMap V) (cs : List (ℕ × UniqueCall V)) → run_unique m cs ≡ run m (plain_all cs)
  unfolding run_unique
  run_unique-run m [] = refl
  run_unique-run m ((now, c) ∷ cs) =
      ap (λ t. run_unique t cs) (step_agrees m now c) ∙ run_unique-run (step m (now, plain c)) cs
