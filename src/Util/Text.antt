-- ===== src/Util/Text.antt =====
-- MyCommon's functions on strings (util/MyCommon.h, util/MyCommon.cc). A string is the list of its
-- characters' numbers. What the C++ library gives, `find`, `rfind`, `substr` and the tests of
-- equality, is written out.
pub mod Search
pub mod Split
pub mod Trim
use echo_frame.Base.{
  ℕ, zero, suc, ◌+◌, ◌-◌, ◌≡◌, Bool, true, false, ◌&&◌, ◌||◌, Option, none, some, List, [], ◌∷◌,
  ◌++◌, leb, ◌==◌, if◌then◌else◌, length, take, drop,
}

abbrev pub Text : Type 0
Text = List ℕ

-- `s` begins with `c`.
unfoldable pub starts_with : Text → Text → Bool
starts_with [] s = true
starts_with (c ∷ cs) [] = false
starts_with (c ∷ cs) (x ∷ xs) = c == x && starts_with cs xs

abbrev pub shift : Option ℕ → Option ℕ
shift none = none
shift (some i) = some (suc i)

-- `find`: where `c` stands first; `none` is `npos`.
unfoldable pub find : Text → Text → Option ℕ
find c [] = if starts_with c [] then some 0 else none
find c (x ∷ xs) = if starts_with c (x ∷ xs) then some 0 else shift (find c xs)

abbrev later_or : Bool → Option ℕ → Option ℕ
later_or b (some i) = some (suc i)
later_or true none = some 0
later_or false none = none

-- `rfind`: where `c` stands last.
unfoldable pub rfind : Text → Text → Option ℕ
rfind c [] = if starts_with c [] then some 0 else none
rfind c (x ∷ xs) = later_or (starts_with c (x ∷ xs)) (rfind c xs)

-- `erase(pos, n)`
abbrev pub erase_at : ℕ → ℕ → Text → Text
erase_at pos n s = take pos s ++ drop (pos + n) s

-- The loops run on fuel; `none` is a loop that is not done.
abbrev trim_front : Text → Option ℕ → Text → Option Text → Option Text
trim_front c none s rest = some s
trim_front c (some zero) s rest = rest
trim_front c (some (suc i)) s rest = some s

unfoldable pub trimleft : ℕ → Text → Text → Option Text
trimleft zero c s = none
trimleft (suc fuel) c s =
    let rest = trimleft fuel c (erase_at 0 (length c) s) in trim_front c (find c s) s rest

abbrev pub trim_back : Text → Option ℕ → Text → (ℕ → Option Text) → Option Text
trim_back c none s go = some s
trim_back c (some pos) s go = if pos + length c == length s then go pos else some s

unfoldable pub trimright : ℕ → Text → Text → Option Text
trimright zero c s = none
trimright (suc fuel) c s =
    trim_back c (rfind c s) s (λ pos. trimright fuel c (erase_at pos (length c) s))

abbrev pub bind {ℓ κ} : {A : Type ℓ} {B : Type κ} → Option A → (A → Option B) → Option B
bind none f = none
bind (some a) f = f a

unfoldable pub trim : ℕ → Text → Text → Option Text
trim fuel c s = bind (trimleft fuel c s) (trimright fuel c)

abbrev pub replaced : Text → Text → Option ℕ → Text → (ℕ → Option Text) → Option Text
replaced o r none s go = some s
replaced o r (some i) s go = go i

-- `replace`: what stands before the search position is not looked at again, so the loop is over what
-- stands behind it. The parameter `recursion` is not read.
unfoldable pub replace : ℕ → Text → Text → Text → Option Text
replace zero o r s = none
replace (suc fuel) o r s =
    replaced o r (find o s) s
      λ i. bind (replace fuel o r (drop (i + length o) s)) λ rest. some (take i s ++ (r ++ rest))

-- `count`
unfoldable pub count : Text → ℕ → ℕ
count [] c = 0
count (x ∷ xs) c = if x == c then suc (count xs c) else count xs c

-- `split`: what stands behind the last delimiter that was found, from `last_pos` on. `none` is a
-- position behind the end, which only an empty delimiter leads to: there `substr` throws.
abbrev pub behind : ℕ → Text → Option Text
behind zero [] = none
behind zero (x ∷ xs) = some xs
behind (suc i) [] = none
behind (suc i) (x ∷ xs) = behind i xs

abbrev pub keep : Bool → Text → List Text → List Text
keep ignore_blank [] ps = if ignore_blank then ps else [] ∷ ps
keep ignore_blank (x ∷ xs) ps = (x ∷ xs) ∷ ps

pub data Pieces : Type 0 where
  pieces : List Text → Pieces
  out_of_range : Pieces

abbrev pub add_piece : Bool → Text → Option Pieces → Option Pieces
add_piece ignore_blank p none = none
add_piece ignore_blank p (some out_of_range) = some out_of_range
add_piece ignore_blank p (some (pieces ps)) = some (pieces (keep ignore_blank p ps))

abbrev pub split_rest : Bool → Text → Option ℕ → (ℕ → Option Pieces) → Option Pieces
split_rest ignore_blank rest none go = some (pieces (keep ignore_blank rest []))
split_rest ignore_blank rest (some i) go = add_piece ignore_blank (take i rest) (go i)

-- `split<std::string>`
unfoldable pub split : ℕ → Bool → Text → Option Text → Option Pieces
split zero ignore_blank delimiter rest = none
split (suc fuel) ignore_blank delimiter none = some out_of_range
split (suc fuel) ignore_blank delimiter (some rest) =
    split_rest ignore_blank rest (find delimiter rest)
      λ i. split fuel ignore_blank delimiter (behind i rest)

-- `isdigit`, `is_digit_str` and `ischaracter`
unfoldable pub is_digit : ℕ → Bool
is_digit c = leb b'0' c && leb c b'9'

unfoldable pub is_digit_str : Text → Bool
is_digit_str [] = true
is_digit_str (c ∷ cs) = is_digit c && is_digit_str cs

unfoldable pub is_character : ℕ → Bool
is_character c = leb b'a' c && leb c b'z' || leb b'A' c && leb c b'Z'
