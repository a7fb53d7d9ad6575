-- ===== src/Base/Loops.antt =====
-- What the managers of event loops on both sides share: a list of loops, each with a map and the
-- time of its last check. A uid belongs to the loop that its route leads to.
use Prim.Native.Nat.{ℕ, zero, suc, ◌%◌, ◌<◌}
use mathlib.Core.Path.{◌≡◌, refl, ap, ◌∙◌}
use mathlib.Core.Logic.{inl, inr}
use mathlib.Core.Option.{Option, none, some}
use mathlib.Core.List.{List, [], ◌∷◌}
use native.Mathlib.Omega.{arith}
use native.Mathlib.Nat.{mod-lt}
use echo_frame.Base.Tests.{◌==◌, if◌then◌else◌, Bool-cases, ==_iff}
use echo_frame.Base.Lists.{length}
use echo_frame.Base.OrdMap.{OrdMap, lookup, set, erase, lookup-set, lookup-erase}

pub record Loop {ℓ} (V : Type ℓ) : Type ℓ where
  pub entries : OrdMap V
  pub last_check_time : ℕ

abbrev pub new_loop {ℓ} : {V : Type ℓ} → ℕ → Loop V
new_loop time = record { entries = []; last_check_time = time }

module _ {ℓ} {V : Type ℓ} where
  unfoldable pub loop_at : ℕ → List (Loop V) → Option (Loop V)
  loop_at i [] = none
  loop_at zero (l ∷ ls) = some l
  loop_at (suc i) (l ∷ ls) = loop_at i ls

  unfoldable pub at_loop : ℕ → (Loop V → Loop V) → List (Loop V) → List (Loop V)
  at_loop i f [] = []
  at_loop zero f (l ∷ ls) = f l ∷ ls
  at_loop (suc i) f (l ∷ ls) = l ∷ at_loop i f ls

  -- `loops_[key % loops_.size()]`; there is no loop in an empty list.
  abbrev pub index_of : ℕ → List (Loop V) → ℕ
  index_of key [] = 0
  index_of key (l ∷ ls) = key % length (l ∷ ls)

  abbrev pub entry_in : ℕ → Option (Loop V) → Option V
  entry_in uid none = none
  entry_in uid (some l) = lookup uid l.entries

  abbrev pub put_entry : ℕ → V → Loop V → Loop V
  put_entry uid v l = record l { entries = set uid v l.entries }

  abbrev pub drop_entry : ℕ → Loop V → Loop V
  drop_entry uid l = record l { entries = erase uid l.entries }

  pub length-at_loop :
      (i : ℕ) (f : Loop V → Loop V) (ls : List (Loop V)) → length (at_loop i f ls) ≡ length ls
  unfolding at_loop
  length-at_loop i f [] = refl
  length-at_loop zero f (l ∷ ls) = refl
  length-at_loop (suc i) f (l ∷ ls) = ap suc (length-at_loop i f ls)

  index-at_loop :
      (key i : ℕ) (f : Loop V → Loop V) (ls : List (Loop V))
      → index_of key (at_loop i f ls) ≡ index_of key ls
  unfolding at_loop
  index-at_loop key i f [] = refl
  index-at_loop key zero f (l ∷ ls) = refl
  index-at_loop key (suc i) f (l ∷ ls) = ap (λ n. key % suc n) (length-at_loop i f ls)

  -- An entry that a change of a loop does not concern.
  other_entry :
      (uid i j : ℕ) (f : Loop V → Loop V) (ls : List (Loop V))
      → ((l : Loop V) → lookup uid (f l).entries ≡ lookup uid l.entries)
      → entry_in uid (loop_at j (at_loop i f ls)) ≡ entry_in uid (loop_at j ls)
  unfolding loop_at at_loop
  other_entry uid i j f [] same = refl
  other_entry uid zero zero f (l ∷ ls) same = same l
  other_entry uid zero (suc j) f (l ∷ ls) same = refl
  other_entry uid (suc i) zero f (l ∷ ls) same = refl
  other_entry uid (suc i) (suc j) f (l ∷ ls) same = other_entry uid i j f ls same

  -- An entry of a loop that was changed.
  changed_entry :
      (uid i : ℕ) (f : Loop V → Loop V) (o : Option V) (ls : List (Loop V))
      → i < length ls
      → ((l : Loop V) → lookup uid (f l).entries ≡ o)
      → entry_in uid (loop_at i (at_loop i f ls)) ≡ o
  unfolding loop_at at_loop
  changed_entry uid i f o [] h new = absurd (omega arith)
  changed_entry uid zero f o (l ∷ ls) h new = new l
  changed_entry uid (suc i) f o (l ∷ ls) h new = changed_entry uid i f o ls (omega arith) new

module _ {ℓ} {V : Type ℓ} (route : ℕ → ℕ) where
  unfoldable pub find_entry : ℕ → List (Loop V) → Option V
  find_entry uid ls = entry_in uid (loop_at (index_of (route uid) ls) ls)

  unfoldable pub add_entry : ℕ → V → List (Loop V) → List (Loop V)
  add_entry uid v ls = at_loop (index_of (route uid) ls) (put_entry uid v) ls

  unfoldable pub remove_entry : ℕ → List (Loop V) → List (Loop V)
  remove_entry uid ls = at_loop (index_of (route uid) ls) (drop_entry uid) ls

  index_in : (key : ℕ) (ls : List (Loop V)) → 0 < length ls → index_of key ls < length ls
  index_in key [] h = absurd (omega arith)
  index_in key (l ∷ ls) h = mod-lt key h

  -- A change of one key's entry, in the key's loop.
  find_changed :
      (j k : ℕ) (f : Loop V → Loop V) (o : Option V) (ls : List (Loop V))
      → 0 < length ls
      → ((l : Loop V) → lookup j (f l).entries ≡ (if k == j then o else lookup j l.entries))
      → find_entry j (at_loop (index_of (route k) ls) f ls)
        ≡ (if k == j then o else find_entry j ls)
  unfolding find_entry
  find_changed j k f o ls pos changes =
      rw (index-at_loop (route j) (index_of (route k) ls) f ls) (elim (Bool-cases (k == j)) [
        | inl same ↦
            rw (same, (==_iff k j).0 same)
              (changed_entry j (index_of (route j) ls) f o ls (index_in (route j) ls pos)
                (λ l. changes l ∙ ap (λ b. if b then o else lookup j l.entries) same))
        | inr other ↦ rw other (
            other_entry j (index_of (route k) ls) (index_of (route j) ls) f ls
              (λ l. changes l ∙ ap (λ b. if b then o else lookup j l.entries) other))
      ])

  pub find_entry-add_entry :
      (j k : ℕ) (v : V) (ls : List (Loop V))
      → 0 < length ls
      → find_entry j (add_entry k v ls) ≡ (if k == j then some v else find_entry j ls)
  unfolding add_entry
  find_entry-add_entry j k v ls pos =
      find_changed j k (put_entry k v) (some v) ls pos (λ l. lookup-set j k v l.entries)

  pub find_entry-remove_entry :
      (j k : ℕ) (ls : List (Loop V))
      → 0 < length ls
      → find_entry j (remove_entry k ls) ≡ (if k == j then none else find_entry j ls)
  unfolding remove_entry
  find_entry-remove_entry j k ls pos =
      find_changed j k (drop_entry k) none ls pos (λ l. lookup-erase j k l.entries)

  pub add_entry-loops : (k : ℕ) (v : V) (ls : List (Loop V)) → length (add_entry k v ls) ≡ length ls
  unfolding add_entry
  add_entry-loops k v ls = length-at_loop (index_of (route k) ls) (put_entry k v) ls
