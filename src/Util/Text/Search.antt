-- ===== src/Util/Text/Search.antt =====
-- Where `find` and `rfind` find a string that is not empty.
use echo_frame.Base.{
  ℕ, suc, ◌<◌, ◌≡◌, ◌⊎◌, subst, append-nil, inl, inr, refl, ap₂, true, false, none, some, [], ◌∷◌,
  ◌++◌, ◌==◌, length, drop, arith, Bool-cases, Option-cases, ==_iff, eq→==,
}
use echo_frame.Util.Text.{Text, starts_with, find, rfind}

pub starts_with_split : (c s : Text) → starts_with c s ≡ true → c ++ drop (length c) s ≡ s
unfolding starts_with
starts_with_split [] s e = refl
starts_with_split (c ∷ cs) [] e = cc
starts_with_split (c ∷ cs) (x ∷ xs) e = elim (Bool-cases (c == x)) [
  | inl same ↦ ap₂ ◌∷◌ ((==_iff c x).0 same) (starts_with_split cs xs (rw same at e))
  | inr other ↦ cc (rw other at e)
]

pub starts_with-append : (c s : Text) → starts_with c (c ++ s) ≡ true
unfolding starts_with
starts_with-append [] s = refl
starts_with-append (c ∷ cs) s = rw (eq→== c c refl, starts_with-append cs s) refl

pub starts_with_short : (c s : Text) → length s < length c → starts_with c s ≡ false
unfolding starts_with
starts_with_short [] s h = absurd (omega arith)
starts_with_short (c ∷ cs) [] h = refl
starts_with_short (c ∷ cs) (x ∷ xs) h = ground (arith, starts_with_short cs xs)

-- `find` gives the front exactly when the string begins so.
pub find_front : (c s : Text) → starts_with c s ≡ true → find c s ≡ some 0
unfolding find
find_front c [] e = rw e refl
find_front c (x ∷ xs) e = rw e refl

pub find_not_front :
    (c s : Text)
    → starts_with c s ≡ false
    → (find c s ≡ none) ⊎ ((i : ℕ) × (find c s ≡ some (suc i)))
unfolding find
find_not_front c [] e = inl (rw e refl)
find_not_front c (x ∷ xs) e = elim (Option-cases (find c xs)) [
  | inl f ↦ inl (rw (e, f) refl)
  | inr (i, f) ↦ inr (i, rw (e, f) refl)
]

pub rfind_short : (c s : Text) → length s < length c → rfind c s ≡ none
unfolding rfind
rfind_short c [] h = rw (starts_with_short c [] h) refl
rfind_short c (x ∷ xs) h = rw (rfind_short c xs (omega arith), starts_with_short c (x ∷ xs) h) refl

-- A string that ends with `c` has its last `c` there.
pub rfind-append : (front c : Text) → 0 < length c → rfind c (front ++ c) ≡ some (length front)
unfolding rfind
rfind-append [] [] h = absurd (omega arith)
rfind-append [] (y ∷ ys) h = rw (rfind_short (y ∷ ys) ys (omega arith), self) refl
  where
    self : starts_with (y ∷ ys) (y ∷ ys) ≡ true
    self =
        subst (λ k. starts_with (y ∷ ys) k ≡ true) (append-nil (y ∷ ys))
          (starts_with-append (y ∷ ys) [])
rfind-append (x ∷ front) c h = rw (rfind-append front c h) refl

-- What `rfind` finds begins with `c`.
pub rfind-cases :
    (c s : Text)
    → (rfind c s ≡ none) ⊎ ((i : ℕ) × (rfind c s ≡ some i) × (starts_with c (drop i s) ≡ true))
unfolding rfind
rfind-cases c [] = elim (Bool-cases (starts_with c [])) [
  | inl e ↦ inr (0, rw e refl, e)
  | inr e ↦ inl (rw e refl)
]
rfind-cases c (x ∷ xs) = elim (rfind-cases c xs) [
  | inr (i, f, e) ↦ inr (suc i, rw f refl, e)
  | inl f ↦ elim (Bool-cases (starts_with c (x ∷ xs))) [
    | inl e ↦ inr (0, rw (f, e) refl, e)
    | inr e ↦ inl (rw (f, e) refl)
  ]
]
