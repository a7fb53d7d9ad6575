-- ===== src/Persistence/Names.antt =====
-- What the clients take from the C++ library: signed numbers, their digits, C strings, and
-- `std::map` with strings for keys.
pub mod Order
use Prim.Native.Char.{code}
use Prim.Native.String.{String}
use echo_frame.Base.{
  ℕ, suc, ◌+◌, ◌-◌, ◌≡◌, refl, ap, Bool, true, false, Option, none, some, List, [], ◌∷◌, ◌++◌, ◌==◌,
  if◌then◌else◌, Bool-cases, inl, inr, arith, ltb,
}
pub use echo_frame.Base.Integers.{ℤ, pos, negsuc, is_one, is_positive}
use echo_frame.Util.Text.{Text}
use echo_frame.Util.PropertyTree.{text_eq, text_lt, digits}
use echo_frame.Util.PropertyTree.Lookup.{text_eq_refl, text_eq_sound}

-- `tostr` of a signed number of 64 bits.
unfoldable pub int_str : ℤ → Text
int_str (pos n) = digits 20 n
int_str (negsuc n) = b'-' ∷ digits 20 (suc n)

-- The bytes of a literal.
abbrev pub codes : String → Text
codes String.[] = []
codes (String.◌∷◌ c s) = code c ∷ codes s

-- A string that is assigned from a `char*` ends before its first zero byte.
unfoldable pub c_str : Text → Text
c_str [] = []
c_str (x ∷ xs) = if x == 0 then [] else x ∷ c_str xs

module _ {ℓ} {V : Type ℓ} where
  -- `insert`: an entry that is there stays.
  unfoldable pub emplace : Text → V → List (Text × V) → List (Text × V)
  emplace k w [] = (k, w) ∷ []
  emplace k w ((j, v) ∷ m) =
      let rest = emplace k w m in
      if text_eq j k then (j, v) ∷ m else if text_lt k j then (k, w) ∷ (j, v) ∷ m else (j, v) ∷ rest

  -- `operator[]` that is assigned to.
  unfoldable pub assign : Text → V → List (Text × V) → List (Text × V)
  assign k w [] = (k, w) ∷ []
  assign k w ((j, v) ∷ m) =
      let rest = assign k w m in
      if text_eq j k then (j, w) ∷ m else if text_lt k j then (k, w) ∷ (j, v) ∷ m else (j, v) ∷ rest

  -- `find`
  unfoldable pub entry : Text → List (Text × V) → Option V
  entry k [] = none
  entry k ((j, v) ∷ m) = if text_eq j k then some v else entry k m

  -- All keys of a map lie behind a key; the keys rise.
  unfoldable pub Behind : Text → List (Text × V) → Type 0
  Behind k [] = Unit {0}
  Behind k ((j, v) ∷ m) = (text_lt k j ≡ true) × Behind k m

  unfoldable pub Rising : List (Text × V) → Type 0
  Rising [] = Unit {0}
  Rising ((k, v) ∷ m) = Behind k m × Rising m
