-- ===== src/Util/Variant.antt =====
-- MyVariant (util/MyVariant.h). A type is its number, which stands for its hash code. The constructor
-- of an object writes bytes at the front of the buffer, and these may depend on the place of the
-- buffer; they are read in the place where they stand. The types are never empty. A new variant holds
-- `void`, here `none`. What an object owns outside the buffer is not modelled, nor is its release: no
-- operation calls a destructor.
use echo_frame.Base.{
  ℕ, ◌+◌, ◌≤◌, ◌≡◌, ◌≢◌, refl, sym, ap, ◌∙◌, Bool, true, false, ◌||◌, Option, none, some, List, [],
  ◌∷◌, ◌++◌, arith, length, take, drop, replicate, ltb, ◌==◌, if◌then◌else◌, Bool-cases, inl, inr,
  length-append, length-drop, take-append_le, take_all, eq→==, ne→==, ==_iff,
}

-- `MyContains`
unfoldable pub contains_type : ℕ → List ℕ → Bool
contains_type t [] = false
contains_type t (u ∷ us) = t == u || contains_type t us

-- The types of the program: what their constructors write at an address, and what bytes at an
-- address are read as. An object is read where it was constructed.
pub record Objects (V : Type 0) : Type 0 where
  pub size : ℕ → ℕ
  pub construct : ℕ → ℕ → V → List ℕ
  pub read_at : ℕ → ℕ → List ℕ → V
  pub length-construct : (a t : ℕ) (x : V) → length (construct a t x) ≡ size t
  pub read-construct : (a t : ℕ) (x : V) → read_at a t (construct a t x) ≡ x

pub record Variant : Type 0 where
  pub address : ℕ
  pub buffer : List ℕ
  pub type_hash_code : Option ℕ

pub data VariantResult (A : Type 0) : Type 0 where
  gives : A → VariantResult A
  type_not_supported type_incorrect buffer_not_suitable : VariantResult A

abbrev same_type : ℕ → Option ℕ → Bool
same_type t none = false
same_type t (some u) = u == t

unfoldable pub is_type : ℕ → Variant → Bool
is_type t v = same_type t v.type_hash_code

-- The assignment and the copy: the bytes are copied.
unfoldable pub assign_variant : Variant → Variant → VariantResult Variant
assign_variant r v =
    if v.address == r.address
    then gives v
    else if length v.buffer == length r.buffer
    then gives (record v { buffer = r.buffer; type_hash_code = r.type_hash_code })
    else buffer_not_suitable

module _ {V : Type 0} (objects : Objects V) where
  -- `MyIntegralConstant`: the largest size.
  unfoldable pub max_size : List ℕ → ℕ
  max_size [] = 0
  max_size (u ∷ us) = if ltb (max_size us) (objects.size u) then objects.size u else max_size us

  -- A new variant at an address, with the four bytes that are added to the largest size.
  unfoldable pub new_variant : ℕ → List ℕ → Variant
  new_variant at types = record {
    address = at;
    buffer = replicate (max_size types + 4) 0;
    type_hash_code = none;
  }

  -- The bytes of an object at the front of a buffer.
  abbrev placed : ℕ → V → Variant → List ℕ
  placed t x v = objects.construct v.address t x ++ drop (objects.size t) v.buffer

  -- `set` and `make`: what the constructor of the object writes.
  unfoldable pub set_object : List ℕ → ℕ → V → Variant → VariantResult Variant
  set_object types t x v =
      if contains_type t types
      then gives (record v { buffer = placed t x v; type_hash_code = some t })
      else type_not_supported

  -- `as`
  unfoldable pub as_object : ℕ → Variant → VariantResult V
  as_object t v =
      if is_type t v
      then gives (objects.read_at v.address t (take (objects.size t) v.buffer))
      else type_incorrect

  max_size_bound :
      (t : ℕ) (types : List ℕ) → contains_type t types ≡ true → objects.size t ≤ max_size types
  unfolding contains_type max_size
  max_size_bound t [] h = cc
  max_size_bound t (u ∷ us) h = elim (Bool-cases (t == u)) [
    | inl e ↦
        let same : objects.size t ≡ objects.size u = ap objects.size ((==_iff t u).0 e) in
        ground (arith, same)
    | inr e ↦ let rest = max_size_bound t us (rw (e) at h) in ground (arith, rest)
  ]

  -- The buffer has the bytes that the declaration gives it.
  abbrev pub IsSized : List ℕ → Variant → Type 0
  IsSized types v = length v.buffer ≡ max_size types + 4

  -- The bytes of a type are read alike wherever they stand.
  abbrev pub IsTrivial : ℕ → Type 0
  IsTrivial t = (a b : ℕ) (bytes : List ℕ) → objects.read_at a t bytes ≡ objects.read_at b t bytes

  -- An object of a type that a variant has among its types is set within the buffer of its declared
  -- size, which keeps that size, and the variant gives the object back. Another variant to which it
  -- is then assigned has the bytes that were constructed in the place of the first: read as that type
  -- it gives what these bytes are read as in its own place, and read as any other type it throws.
  pub as_object-set_object :
      (types : List ℕ) (t : ℕ) (x : V) (v r : Variant)
      → IsSized types v
      → IsSized types r
      → r.address ≢ v.address
      → contains_type t types ≡ true
      → (w : Variant) × (c : Variant) × (set_object types t x v ≡ gives w)
        × (assign_variant w r ≡ gives c)
        × IsSized types w
        × IsSized types c
        × (as_object t w ≡ gives x)
        × (as_object t c ≡ gives (objects.read_at r.address t (objects.construct v.address t x)))
        × ((u : ℕ) → u ≢ t → as_object u c ≡ type_incorrect)
  unfolding set_object assign_variant as_object is_type
  as_object-set_object types t x v r h k apart m =
      let made = objects.construct v.address t x in
      let l = objects.length-construct v.address t x in
      let rest = drop (objects.size t) v.buffer in
      let bound = max_size_bound t types m in
      let sized : length (made ++ rest) ≡ max_size types + 4 =
        length-append made rest
        ∙ ap (λ n. length made + n) (length-drop (objects.size t) v.buffer)
        ∙ omega (arith, bound, h, l) in
      let front : take (objects.size t) (made ++ rest) ≡ made =
        take-append_le (objects.size t) made rest (omega (arith, l))
        ∙ take_all (objects.size t) made (omega (arith, l)) in
      let w : Variant = record v { buffer = made ++ rest; type_hash_code = some t } in
      let c : Variant = record r { buffer = made ++ rest; type_hash_code = some t } in
      (
        w,
        c,
        rw (m) refl,
        rw
            (
              ne→== r.address v.address apart,
              eq→== (length r.buffer) (length (made ++ rest)) (k ∙ sym sized),
            )
            refl,
        sized,
        sized,
        rw (eq→== t t refl, front, objects.read-construct v.address t x) refl,
        rw (eq→== t t refl, front) refl,
        λ u n. rw (ne→== t u (λ e. n (sym e))) refl,
      )

  -- A copy gives back an object whose bytes are read alike everywhere.
  read_at_copied :
      (t : ℕ) (x : V) (a b : ℕ) → IsTrivial t → objects.read_at b t (objects.construct a t x) ≡ x
  read_at_copied t x a b trivial =
      trivial b a (objects.construct a t x) ∙ objects.read-construct a t x
