-- ===== src/Persistence/Names/Order.antt =====
-- Maps with strings for keys: what `find` gives after an `insert`, and that the keys rise.
use echo_frame.Base.{
  ◌≡◌, refl, sym, subst, ◌∙◌, true, false, Option, none, some, List, [], ◌∷◌, if◌then◌else◌,
  Bool-cases, Option-cases, inl, inr, arith, eq→==,
}
use echo_frame.Util.Text.{Text}
use echo_frame.Util.PropertyTree.{text_eq, text_lt}
use echo_frame.Util.PropertyTree.Lookup.{text_eq_refl, text_eq_sound}
use echo_frame.Persistence.Names.{emplace, entry, Behind, Rising}

pub text_lt_irrefl : (s : Text) → text_lt s s ≡ false
unfolding text_lt
text_lt_irrefl [] = refl
text_lt_irrefl (x ∷ xs) = rw (eq→== x x refl) (text_lt_irrefl xs)

pub text_lt_trans : (r s t : Text) → text_lt r s ≡ true → text_lt s t ≡ true → text_lt r t ≡ true
unfolding text_lt
text_lt_trans r s [] a b = cc
text_lt_trans r [] (z ∷ t) a b = cc
text_lt_trans [] (y ∷ s) (z ∷ t) a b = refl
text_lt_trans (x ∷ r) (y ∷ s) (z ∷ t) a b = grind (arith, text_lt_trans r s t)

-- Of two texts that differ and are not in order, the second comes first.
pub text_lt_total : (s t : Text) → text_eq s t ≡ false → text_lt t s ≡ false → text_lt s t ≡ true
unfolding text_lt text_eq
text_lt_total [] [] a b = cc
text_lt_total [] (y ∷ t) a b = refl
text_lt_total (x ∷ s) [] a b = cc
text_lt_total (x ∷ s) (y ∷ t) a b = grind (arith, text_lt_total s t)

pub text_lt_ne : (s t : Text) → text_lt s t ≡ true → text_eq s t ≡ false
text_lt_ne s t a = elim (Bool-cases (text_eq s t)) [
  | inl e ↦ cc (text_lt_irrefl t, rw (text_eq_sound s t e) at a)
  | inr e ↦ e
]

pub text_eq_sym : (s t : Text) → text_eq s t ≡ false → text_eq t s ≡ false
text_eq_sym s t a = elim (Bool-cases (text_eq t s)) [
  | inl e ↦ cc (text_eq_refl t, rw (text_eq_sound t s e) at a, text_eq_refl s)
  | inr e ↦ e
]

text_lt_asym : (s t : Text) → text_lt s t ≡ true → text_lt t s ≡ false
text_lt_asym s t a = elim (Bool-cases (text_lt t s)) [
  | inl e ↦ cc (text_lt_irrefl s, text_lt_trans s t s a e)
  | inr e ↦ e
]

pub text_eq_other : (i k j : Text) → text_eq i k ≡ false → text_eq k j ≡ true → text_eq i j ≡ false
text_eq_other i k j a b = rw (sym (text_eq_sound k j b)) a

abbrev pub or_else {ℓ} : {V : Type ℓ} → Option V → Option V → Option V
or_else (some v) o = some v
or_else none o = o

pub or_else_assoc {ℓ} :
    {V : Type ℓ} (a b c : Option V) → or_else (or_else a b) c ≡ or_else a (or_else b c)
or_else_assoc (some v) b c = refl
or_else_assoc none b c = refl

module _ {ℓ} {V : Type ℓ} where
  Behind-trans : (j k : Text) (m : List (Text × V)) → text_lt j k ≡ true → Behind k m → Behind j m
  unfolding Behind
  Behind-trans j k [] a b = tt
  Behind-trans j k ((i, v) ∷ m) a b = (text_lt_trans j k i a b.0, Behind-trans j k m a b.1)

  pub entry-Behind : (k : Text) (m : List (Text × V)) → Behind k m → entry k m ≡ none
  unfolding Behind entry
  entry-Behind k [] b = refl
  entry-Behind k ((j, v) ∷ m) b = rw (text_eq_sym k j (text_lt_ne k j b.0)) (entry-Behind k m b.1)

  entry-Behind_at :
      (k j : Text) (m : List (Text × V)) → text_eq k j ≡ true → Behind k m → entry j m ≡ none
  entry-Behind_at k j m e b = rw (sym (text_eq_sound k j e)) (entry-Behind k m b)

  pub or_else-none : (o : Option V) → or_else o none ≡ o
  or_else-none (some v) = refl
  or_else-none none = refl

  Behind-emplace :
      (j k : Text) (w : V) (m : List (Text × V))
      → text_lt j k ≡ true
      → Behind j m
      → Behind j (emplace k w m)
  unfolding Behind emplace
  Behind-emplace j k w [] a b = (a, tt)
  Behind-emplace j k w ((i, v) ∷ m) a b = elim (Bool-cases (text_eq i k)) [
    | inl same ↦ rw (same) b
    | inr other ↦ elim (Bool-cases (text_lt k i)) [
      | inl before ↦ rw (other, before) (a, b)
      | inr behind ↦ rw (other, behind) (b.0, Behind-emplace j k w m a b.1)
    ]
  ]

  pub emplace-Rising : (k : Text) (w : V) (m : List (Text × V)) → Rising m → Rising (emplace k w m)
  unfolding Behind Rising emplace
  emplace-Rising k w [] r = (tt, tt)
  emplace-Rising k w ((i, v) ∷ m) r = elim (Bool-cases (text_eq i k)) [
    | inl same ↦ rw (same) r
    | inr other ↦ elim (Bool-cases (text_lt k i)) [
      | inl before ↦ rw (other, before) ((before, Behind-trans k i m before r.0), r)
      | inr behind ↦
          rw (other, behind)
            (Behind-emplace i k w m (text_lt_total i k other behind) r.0, emplace-Rising k w m r.1)
    ]
  ]

  -- `insert` leaves what is there, and adds the entry where there was none.
  pub entry-emplace :
      (j k : Text) (w : V) (m : List (Text × V))
      → Rising m
      → entry j (emplace k w m) ≡ or_else (entry j m) (if text_eq k j then some w else none)
  unfolding Behind Rising emplace entry
  entry-emplace j k w [] r = refl
  entry-emplace j k w ((i, v) ∷ m) r = elim (Bool-cases (text_eq i k)) [
    | inl same ↦
        rw (same, sym (text_eq_sound i k same))
          elim (Bool-cases (text_eq i j)) [
            | inl e ↦ rw (e) refl
            | inr e ↦
                rw (e)
                  elim (Option-cases (entry j m)) [ inl a ↦ rw (a) refl | inr a ↦ rw (a.1) refl ]
          ]
    | inr other ↦ elim (Bool-cases (text_lt k i)) [
      | inl before ↦
          rw (other, before)
            elim (Bool-cases (text_eq k j)) [
              | inl e ↦
                  rw
                    (
                      e,
                      text_eq_other i k j other e,
                      entry-Behind_at k j m e (Behind-trans k i m before r.0),
                    )
                    refl
              | inr e ↦ rw (e, or_else-none) refl
            ]
      | inr behind ↦
          rw (other, behind)
            elim (Bool-cases (text_eq i j)) [
              | inl e ↦ rw (e) refl
              | inr e ↦ rw (e) (entry-emplace j k w m r.1)
            ]
    ]
  ]

  -- The entries of a map whose keys rise determine it.
  tail_entries :
      (j : Text) (v w : V) (m n : List (Text × V))
      → Behind j m
      → Behind j n
      → ((i : Text) → entry i ((j, v) ∷ m) ≡ entry i ((j, w) ∷ n))
      → (i : Text) → entry i m ≡ entry i n
  unfolding entry
  tail_entries j v w m n a b h i = elim (Bool-cases (text_eq j i)) [
    | inl e ↦ entry-Behind_at j i m e a ∙ sym (entry-Behind_at j i n e b)
    | inr e ↦ rw (e) at (h i)
  ]

  entry_head : (j : Text) (v : V) (m : List (Text × V)) → entry j ((j, v) ∷ m) ≡ some v
  unfolding entry
  entry_head j v m = rw (text_eq_refl j) refl

  entry-none :
      (j k : Text) (w : V) (n : List (Text × V))
      → text_lt j k ≡ true
      → Behind k n
      → entry j ((k, w) ∷ n) ≡ none
  unfolding Behind
  entry-none j k w n a b = entry-Behind j ((k, w) ∷ n) (a, Behind-trans j k n a b)

  same_head :
      (j k : Text) (v w : V) (m n : List (Text × V))
      → j ≡ k
      → ((i : Text) → entry i ((j, v) ∷ m) ≡ entry i ((k, w) ∷ n))
      → m ≡ n
      → (j, v) ∷ m ≡ (k, w) ∷ n
  same_head j k v w m n e h t = cc (entry_head j v m, entry_head k w n, h k, t)

  pub Rising-ext :
      (m n : List (Text × V)) → Rising m → Rising n → ((i : Text) → entry i m ≡ entry i n) → m ≡ n
  unfolding Rising Behind
  Rising-ext [] [] r s h = refl
  Rising-ext [] ((k, w) ∷ n) r s h = cc (entry_head k w n, h k, entry-Behind k [] tt)
  Rising-ext ((j, v) ∷ m) [] r s h = cc (entry_head j v m, h j, entry-Behind j [] tt)
  Rising-ext ((j, v) ∷ m) ((k, w) ∷ n) r s h = elim (Bool-cases (text_eq j k)) [
    | inl e ↦ same_head j k v w m n (text_eq_sound j k e) h (
        Rising-ext m n r.1 s.1 (
          tail_entries k v w m n (subst (λ i. Behind i m) (text_eq_sound j k e) r.0) s.0 (
            subst (λ t. (i : Text) → entry i ((t, v) ∷ m) ≡ entry i ((k, w) ∷ n))
              (text_eq_sound j k e) h)))
    | inr e ↦ elim (Bool-cases (text_lt k j)) [
      | inl before ↦ cc (entry_head k w n, h k, entry-none k j v m before r.0)
      | inr behind ↦ cc (entry_head j v m, h j, entry-none j k w n (text_lt_total j k e behind) s.0)
    ]
  ]
