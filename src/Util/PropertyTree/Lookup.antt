-- ===== src/Util/PropertyTree/Lookup.antt =====
-- What `get` returns after a `set`, of the same property and of others.
use echo_frame.Base.{
  ◌≡◌, ◌≢◌, inl, inr, refl, sym, ap, ap₂, ◌∙◌, Bool, true, false, Option, none, some, List, [], ◌∷◌,
  ◌++◌, ◌==◌, if◌then◌else◌, Bool-cases, Option-cases, ==_iff, eq→==,
}
use echo_frame.Util.Text.{Text, bind}
use echo_frame.Util.PropertyTree.{
  Node, node, Children, nil, child, PropertyValue, Kind, read, text_eq, text_lt, find_child,
  put_child, new_node, set_value, put_at, get_child, path_of, walk, get, set, set_path, or_new,
  get_at, value_or,
}

pub text_eq_refl : (s : Text) → text_eq s s ≡ true
unfolding text_eq
text_eq_refl [] = refl
text_eq_refl (x ∷ xs) = rw (eq→== x x refl, text_eq_refl xs) refl

pub text_eq_sound : (s t : Text) → text_eq s t ≡ true → s ≡ t
unfolding text_eq
text_eq_sound [] [] e = refl
text_eq_sound [] (y ∷ ys) e = cc
text_eq_sound (x ∷ xs) [] e = cc
text_eq_sound (x ∷ xs) (y ∷ ys) e = elim (Bool-cases (x == y)) [
  | inl same ↦ ap₂ ◌∷◌ ((==_iff x y).0 same) (text_eq_sound xs ys (rw same at e))
  | inr other ↦ cc (rw other at e)
]

pub text_ne : (s t : Text) → s ≢ t → text_eq s t ≡ false
text_ne s t h = elim (Bool-cases (text_eq s t)) [
  | inl e ↦ absurd (h (text_eq_sound s t e))
  | inr e ↦ e
]

-- Two tests of a text against texts that differ do not both succeed.
text_eq_both : (i j k : Text) → text_eq i j ≡ true → text_eq k j ≡ true → text_eq i k ≡ true
text_eq_both i j k a b = rw (text_eq_sound i j a, text_eq_sound k j b) (text_eq_refl j)

pub find_child-put_child :
    (j k : Text) (n : Node) (cs : Children)
    → find_child j (put_child k n cs) ≡ (if text_eq k j then some n else find_child j cs)
unfolding find_child put_child
find_child-put_child j k n nil = refl
find_child-put_child j k n (child i m cs) = elim (Bool-cases (text_eq i k)) [
  | inl same ↦
      rw (same, text_eq_sound i k same)
        elim (Bool-cases (text_eq k j)) [ inl e ↦ rw (e) refl | inr e ↦ rw (e) refl ]
  | inr other ↦ elim (Bool-cases (text_lt k i)) [
    | inl before ↦ rw (other, before) refl
    | inr behind ↦
        rw (other, behind)
          elim (Bool-cases (text_eq i j)) [
            | inl e ↦ elim (Bool-cases (text_eq k j)) [
              | inl f ↦ cc (text_eq_both i j k e f)
              | inr f ↦ rw (e, f) refl
            ]
            | inr e ↦ rw (e) (find_child-put_child j k n cs)
          ]
  ]
]

get_child-put_at :
    (j k : Text) (c n : Node)
    → get_child j (put_at k c n) ≡ (if text_eq k j then some c else get_child j n)
get_child-put_at j k c (node i t v cs) = find_child-put_child j k c cs

-- What stands behind a path, under a key.
unfoldable pub fetch : List Text → Text → Node → Option Node
fetch ps k n = bind (walk ps n) (get_child k)

get_at-fetch :
    (kind : Kind) (p : Text) (ps : List Text) (k : Text) (d : PropertyValue) (n : Node)
    → get_at kind (p ∷ ps) k d n ≡ value_or kind d (fetch (p ∷ ps) k n)
unfolding fetch
get_at-fetch kind p ps k d n = elim (Option-cases (walk (p ∷ ps) n)) [
  | inl missing ↦ rw missing refl
  | inr (m, found) ↦ rw found refl
]

fetch-step :
    (p : Text) (ps : List Text) (k : Text) (n c : Node)
    → get_child p n ≡ some c
    → fetch (p ∷ ps) k n ≡ fetch ps k c
unfolding fetch walk
fetch-step p ps k n c e = rw e refl

fetch_missing :
    (p : Text) (ps : List Text) (k : Text) (n : Node)
    → get_child p n ≡ none
    → fetch (p ∷ ps) k n ≡ none
unfolding fetch walk
fetch_missing p ps k n e = rw e refl

fetch_new : (ps : List Text) (k p : Text) → fetch ps k (new_node p) ≡ none
unfolding fetch walk find_child
fetch_new [] k p = refl
fetch_new (q ∷ ps) k p = refl

get_child_put : (p : Text) (c n : Node) → get_child p (put_at p c n) ≡ some c
get_child_put p c n = rw (get_child-put_at p p c n, text_eq_refl p) refl

fetch_here : (k : Text) (c n : Node) → fetch [] k (put_at k c n) ≡ some c
unfolding fetch walk
fetch_here k c n = get_child_put k c n

fetch-set_path :
    (ps : List Text) (k : Text) (v : PropertyValue) (n : Node)
    → fetch ps k (set_path ps k v n) ≡ some (set_value v (new_node k))
unfolding set_path
fetch-set_path [] k v n = fetch_here k (set_value v (new_node k)) n
fetch-set_path (p ∷ ps) k v n =
    let next : Node = set_path ps k v (or_new p (get_child p n)) in
    fetch-step p ps k (put_at p next n) next (get_child_put p next n)
    ∙ fetch-set_path ps k v (or_new p (get_child p n))

-- A property that was set with a value of the kind asked for is that value when it is read, for
-- each path with at least one name in it and whatever the tree holds and the default is.
pub get-set :
    (kind : Kind) (path k p : Text) (ps : List Text) (v d : PropertyValue) (root : Node)
    → path_of path ≡ p ∷ ps
    → read kind v ≡ some v
    → get kind path k d (set path k v root) ≡ some v
unfolding get set
get-set kind path k p ps v d root named fits = rw (named) (
    get_at-fetch kind p ps k d (set_path (p ∷ ps) k v root)
    ∙ rw (fetch-set_path (p ∷ ps) k v root) fits)

-- Whether two lists of names differ at a place that both have.
unfoldable pub diverges : List Text → List Text → Bool
diverges [] ys = false
diverges (x ∷ xs) [] = false
diverges (x ∷ xs) (y ∷ ys) = if text_eq x y then diverges xs ys else true

diverges_nil : (xs : List Text) → diverges xs [] ≡ false
unfolding diverges
diverges_nil [] = refl
diverges_nil (x ∷ xs) = refl

fetch_beside :
    (p q : Text) (qs : List Text) (j : Text) (c n : Node)
    → text_eq p q ≡ false
    → fetch (q ∷ qs) j (put_at p c n) ≡ fetch (q ∷ qs) j n
unfolding fetch walk
fetch_beside p q qs j c n other = rw (get_child-put_at q p c n, other) refl

fetch_near :
    (p j : Text) (c n : Node) → text_eq p j ≡ false → fetch [] j (put_at p c n) ≡ fetch [] j n
unfolding fetch walk
fetch_near p j c n other = rw (get_child-put_at j p c n, other) refl

-- What differs under a child is what differs, with a new child for one that is missing.
fetch_below :
    (p : Text) (qs : List Text) (j : Text) (c n : Node)
    → fetch qs j c ≡ fetch qs j (or_new p (get_child p n))
    → fetch (p ∷ qs) j (put_at p c n) ≡ fetch (p ∷ qs) j n
fetch_below p qs j c n same = elim (Option-cases (get_child p n)) [
  | inl missing ↦
      fetch-step p qs j (put_at p c n) c (get_child_put p c n)
      ∙ same
      ∙ (rw missing (fetch_new qs j p))
      ∙ sym (fetch_missing p qs j n missing)
  | inr (m, found) ↦
      fetch-step p qs j (put_at p c n) c (get_child_put p c n)
      ∙ same
      ∙ (rw found (sym (fetch-step p qs j n m found)))
]

fetch_other :
    (qs : List Text) (j : Text) (ps : List Text) (k : Text) (v : PropertyValue) (n : Node)
    → diverges (ps ++ (k ∷ [])) (qs ++ (j ∷ [])) ≡ true
    → fetch qs j (set_path ps k v n) ≡ fetch qs j n
unfolding diverges set_path
fetch_other [] j [] k v n apart = elim (Bool-cases (text_eq k j)) [
  | inl e ↦ cc (rw e at apart)
  | inr e ↦ fetch_near k j (set_value v (new_node k)) n e
]
fetch_other [] j (p ∷ ps) k v n apart = elim (Bool-cases (text_eq p j)) [
  | inl e ↦ cc (rw e at apart, diverges_nil (ps ++ (k ∷ [])))
  | inr e ↦ fetch_near p j (set_path ps k v (or_new p (get_child p n))) n e
]
fetch_other (q ∷ qs) j [] k v n apart = elim (Bool-cases (text_eq k q)) [
  | inl e ↦ cc (rw e at apart)
  | inr e ↦ fetch_beside k q qs j (set_value v (new_node k)) n e
]
fetch_other (q ∷ qs) j (p ∷ ps) k v n apart = elim (Bool-cases (text_eq p q)) [
  | inl e ↦
      let next : Node = set_path ps k v (or_new p (get_child p n)) in
      rw (← text_eq_sound p q e) (
        fetch_below p qs j next n
          (fetch_other qs j ps k v (or_new p (get_child p n)) (rw e at apart)))
  | inr e ↦ fetch_beside p q qs j (set_path ps k v (or_new p (get_child p n))) n e
]

-- A property that was set leaves every other property as it was, with the same default: each whose
-- path and key differ from the path and key that were set at a place that both have. Both paths
-- have at least one name in them.
pub get-set_other :
    (kind : Kind) (path k p : Text) (ps : List Text) (elsewhere j q : Text) (qs : List Text)
    (v d : PropertyValue) (root : Node)
    → path_of path ≡ p ∷ ps
    → path_of elsewhere ≡ q ∷ qs
    → diverges ((p ∷ ps) ++ (k ∷ [])) ((q ∷ qs) ++ (j ∷ [])) ≡ true
    → get kind elsewhere j d (set path k v root) ≡ get kind elsewhere j d root
unfolding get set
get-set_other kind path k p ps elsewhere j q qs v d root named named_elsewhere apart =
    rw (named, named_elsewhere)
      (get_at-fetch kind q qs j d (set_path (p ∷ ps) k v root)
        ∙ ap (value_or kind d) (fetch_other (q ∷ qs) j (p ∷ ps) k v root apart)
        ∙ sym (get_at-fetch kind q qs j d root))
