-- ===== src/Tests/Utilities.antt =====
-- The functions of util at concrete inputs: texts, the property tree, ids and variants.
use echo_frame.Base.{
  Bool-cases, inl, inr, eq→==, ℕ, ◌+◌, ◌/◌, ◌%◌, ◌^◌, ◌<◌, ◌≡◌, ◌≢◌, refl, true, some, List, [],
  ◌∷◌, arith, length, ◌==◌, if◌then◌else◌,
}
use echo_frame.Util.Text.{Text, pieces, split, starts_with, find}
use echo_frame.Util.Text.Split.{fields, keep_all, split-fields}
use echo_frame.Util.Variant.{
  Objects, Variant, new_variant, max_size, contains_type, set_object, as_object, assign_variant,
  gives, type_incorrect, as_object-set_object,
}
use echo_frame.Util.Ids.{snowflake, snowflake_parts}
use echo_frame.Util.PropertyTree.{
  Node, PropertyValue, int64, text, int64_kind, text_kind, read, path_of, get, set, new_node,
  text_eq,
}
use echo_frame.Util.PropertyTree.Lookup.{get-set, diverges, get-set_other}

-- `a/b` and `a/c`
abbrev a_b : Text
a_b = b'a' ∷ b'/' ∷ b'b' ∷ []

abbrev a_c : Text
a_c = b'a' ∷ b'/' ∷ b'c' ∷ []

abbrev a : Text
a = b'a' ∷ []

abbrev b : Text
b = b'b' ∷ []

abbrev c : Text
c = b'c' ∷ []

path_to_b : path_of a_b ≡ a ∷ b ∷ []
unfolding path_of split find starts_with
path_to_b = refl

path_to_c : path_of a_c ≡ a ∷ c ∷ []
unfolding path_of split find starts_with
path_to_c = refl

abbrev root : Node
root = new_node (b'r' ∷ [])

abbrev seven : PropertyValue
seven = int64 7

seven_fits : read int64_kind seven ≡ some seven
unfolding read
seven_fits = refl

apart : diverges (a ∷ b ∷ c ∷ []) (a ∷ c ∷ c ∷ []) ≡ true
unfolding diverges text_eq
apart = refl

get-set_example : get int64_kind a_b c (int64 0) (set a_b c seven root) ≡ some seven
get-set_example = get-set int64_kind a_b c a (b ∷ []) seven (int64 0) root path_to_b seven_fits

get-set_other_example :
    get text_kind a_c c (text []) (set a_b c seven root) ≡ get text_kind a_c c (text []) root
get-set_other_example =
    get-set_other text_kind a_b c a (b ∷ []) a_c c a (c ∷ []) seven (text []) root path_to_b
      path_to_c apart

abbrev slash : ℕ
slash = b'/'

split-fields_example :
    split 4 true (slash ∷ []) (some a_b) ≡ some (pieces (keep_all true (fields slash a_b)))
split-fields_example = split-fields 4 true slash a_b (omega arith)

abbrev time : ℕ
time = 1541000000000

abbrev worker : ℕ
worker = 5

abbrev sequence : ℕ
sequence = 9

snowflake_parts_example :
    (snowflake time worker sequence < 2 ^ 64)
    × (snowflake time worker sequence / 2 ^ 22 ≡ time)
    × (snowflake time worker sequence / 2 ^ 12 % 2 ^ 10 ≡ worker)
    × (snowflake time worker sequence % 2 ^ 12 ≡ sequence)
snowflake_parts_example =
    snowflake_parts time worker sequence (omega arith) (omega arith) (omega arith)

-- A variant of a type of four bytes, one of which tells where it stands, and of one of two.
abbrev bytes_of_type : ℕ → ℕ
bytes_of_type t = if t == 1 then 4 else 2

abbrev bytes_of_object : ℕ → ℕ → ℕ → List ℕ
bytes_of_object at t x = if t == 1 then x ∷ at ∷ 0 ∷ 0 ∷ [] else x ∷ 0 ∷ []

abbrev read_first : List ℕ → ℕ
read_first [] = 0
read_first (x ∷ xs) = x

-- The first type is read only where it was constructed.
abbrev read_object : ℕ → ℕ → List ℕ → ℕ
read_object at t [] = 0
read_object at t (x ∷ xs) = if t == 1 then (if read_first xs == at then x else 0) else x

length-bytes_of_object : (at t x : ℕ) → length (bytes_of_object at t x) ≡ bytes_of_type t
length-bytes_of_object at t x = elim (Bool-cases (t == 1)) [
  | inl e ↦ rw (e) refl
  | inr e ↦ rw (e) refl
]

read_object-bytes_of_object : (at t x : ℕ) → read_object at t (bytes_of_object at t x) ≡ x
read_object-bytes_of_object at t x = elim (Bool-cases (t == 1)) [
  | inl e ↦ rw (e, e, eq→== at at refl) refl
  | inr e ↦ rw (e, e) refl
]

abbrev two_kinds : Objects ℕ
two_kinds = record {
  size = bytes_of_type;
  construct = bytes_of_object;
  read_at = read_object;
  length-construct = length-bytes_of_object;
  read-construct = read_object-bytes_of_object;
}

abbrev two_types : List ℕ
two_types = 1 ∷ 2 ∷ []

abbrev fresh : ℕ → Variant
fresh at = new_variant two_kinds at two_types

fresh-IsSized : (at : ℕ) → length (fresh at).buffer ≡ max_size two_kinds two_types + 4
unfolding new_variant max_size
fresh-IsSized at = refl

first_type : contains_type 1 two_types ≡ true
unfolding contains_type
first_type = refl

elsewhere : (fresh 200).address ≢ (fresh 100).address
unfolding new_variant
elsewhere e = absurd (omega (arith, e))

as_object-set_object_example :
    (w : Variant) × (c : Variant) × (set_object two_kinds two_types 1 7 (fresh 100) ≡ gives w)
    × (assign_variant w (fresh 200) ≡ gives c)
    × (length w.buffer ≡ max_size two_kinds two_types + 4)
    × (length c.buffer ≡ max_size two_kinds two_types + 4)
    × (as_object two_kinds 1 w ≡ gives 7)
    × (as_object two_kinds 1 c
        ≡ gives (read_object (fresh 200).address 1 (bytes_of_object (fresh 100).address 1 7)))
    × ((u : ℕ) → u ≢ 1 → as_object two_kinds u c ≡ type_incorrect)
as_object-set_object_example =
    as_object-set_object two_kinds two_types 1 7 (fresh 100) (fresh 200) (fresh-IsSized 100)
      (fresh-IsSized 200) elsewhere first_type
