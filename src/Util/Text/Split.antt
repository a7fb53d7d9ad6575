-- ===== src/Util/Text/Split.antt =====
-- `split` at a delimiter of one character, which is how the program calls it.
use echo_frame.Base.{
  ℕ, zero, suc, ◌<◌, ◌≡◌, ◌≢◌, ◌⊎◌, inl, inr, refl, ap, ◌∙◌, Bool, true, none, some, List, [], ◌∷◌,
  ◌++◌, ◌==◌, if◌then◌else◌, length, take, arith, Bool-cases, ne→==, eq→==,
}
use echo_frame.Server.Packets.Frames.{All}
use echo_frame.Util.Text.{Text, starts_with, find, behind, keep, pieces, split}

-- The fields of a string: what stands before, between and behind the delimiters.
abbrev pub onto_first : ℕ → List Text → List Text
onto_first x [] = (x ∷ []) ∷ []
onto_first x (p ∷ ps) = (x ∷ p) ∷ ps

unfoldable pub fields : ℕ → Text → List Text
fields d [] = [] ∷ []
fields d (x ∷ xs) = if d == x then [] ∷ fields d xs else onto_first x (fields d xs)

unfoldable pub keep_all : Bool → List Text → List Text
keep_all ignore_blank [] = []
keep_all ignore_blank (p ∷ ps) = keep ignore_blank p (keep_all ignore_blank ps)

-- Where the delimiter stands first, and the fields on both sides of that place.
abbrev NoDelimiter : ℕ → Text → Type 0
NoDelimiter d s = (find (d ∷ []) s ≡ none) × (fields d s ≡ s ∷ [])

abbrev FirstDelimiter : ℕ → Text → Type 0
FirstDelimiter d s =
    (i : ℕ) × (rest : Text) × (find (d ∷ []) s ≡ some i)
    × (behind i s ≡ some rest)
    × (fields d s ≡ take i s ∷ fields d rest)
    × (length rest < length s)

delimiter_cases : (d : ℕ) (s : Text) → NoDelimiter d s ⊎ FirstDelimiter d s
unfolding find starts_with fields
delimiter_cases d [] = inl (refl, refl)
delimiter_cases d (x ∷ xs) = elim (Bool-cases (d == x)) [
  | inl here ↦ inr (0, xs, rw here refl, refl, rw here refl, omega arith)
  | inr elsewhere ↦ elim (delimiter_cases d xs) [
    | inl (f, e) ↦ inl (rw (elsewhere, f) refl, rw (elsewhere, e) refl)
    | inr (i, rest, f, b, e, l) ↦
        inr (suc i, rest, rw (elsewhere, f) refl, b, rw (elsewhere, e) refl, omega arith)
  ]
]

-- For a delimiter of one character, and with one round for each character and one more, `split`
-- returns the fields of the string in order, without the empty ones if `ignore_blank` is set; a field
-- of spaces only is kept.
pub split-fields :
    (fuel : ℕ) (ignore_blank : Bool) (d : ℕ) (s : Text)
    → length s < fuel
    → split fuel ignore_blank (d ∷ []) (some s) ≡ some (pieces (keep_all ignore_blank (fields d s)))
unfolding split keep_all
split-fields zero ignore_blank d s h = absurd (omega arith)
split-fields (suc fuel) ignore_blank d s h = elim (delimiter_cases d s) [
  | inl (f, e) ↦ rw (f, e) refl
  | inr (i, rest, f, b, e, l) ↦
      rw (f, b, split-fields fuel ignore_blank d rest (omega arith), e) refl
]

-- Words that are joined.
unfoldable pub join : ℕ → List Text → Text
join d [] = []
join d (p ∷ []) = p
join d (p ∷ q ∷ ps) = p ++ (d ∷ join d (q ∷ ps))

-- A word is not empty and does not hold the delimiter.
abbrev pub IsWord : ℕ → Text → Type 0
IsWord d p = (0 < length p) × All (λ x. d ≢ x) p

fields-word : (d : ℕ) (p : Text) → All (λ x. d ≢ x) p → fields d p ≡ p ∷ []
unfolding fields
fields-word d [] v = refl
fields-word d (x ∷ xs) (h, v) = rw (ne→== d x h, fields-word d xs v) refl

fields-join :
    (d : ℕ) (p rest : Text) → All (λ x. d ≢ x) p → fields d (p ++ (d ∷ rest)) ≡ p ∷ fields d rest
unfolding fields
fields-join d [] rest v = rw (eq→== d d refl) refl
fields-join d (x ∷ xs) rest (h, v) = rw (ne→== d x h, fields-join d xs rest v) refl

keep-word : (p : Text) (ps : List Text) → 0 < length p → keep true p ps ≡ p ∷ ps
keep-word [] ps h = absurd (omega arith)
keep-word (x ∷ xs) ps h = refl

keep_all-join :
    (d : ℕ) (ps : List Text) → All (IsWord d) ps → keep_all true (fields d (join d ps)) ≡ ps
unfolding keep_all join fields
keep_all-join d [] v = refl
keep_all-join d (p ∷ []) ((h, w), v) = rw (fields-word d p w) (keep-word p [] h)
keep_all-join d (p ∷ q ∷ ps) ((h, w), v) =
    rw (fields-join d p (join d (q ∷ ps)) w, keep_all-join d (q ∷ ps) v) (keep-word p (q ∷ ps) h)

-- Words that are joined by a character that none of them holds are what `split` returns for the
-- joined string, if no word is empty and the rounds are more than the characters.
split-join :
    (fuel d : ℕ) (ps : List Text)
    → All (IsWord d) ps
    → length (join d ps) < fuel
    → split fuel true (d ∷ []) (some (join d ps)) ≡ some (pieces ps)
split-join fuel d ps v h =
    split-fields fuel true d (join d ps) h ∙ ap (λ k. some (pieces k)) (keep_all-join d ps v)
