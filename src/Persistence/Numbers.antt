-- ===== src/Persistence/Numbers.antt =====
-- The C library's `atol` and `atoi`, on the bytes of a string.
use echo_frame.Base.{
  ℕ, zero, suc, ◌+◌, ◌-◌, ◌*◌, Bool, ◌&&◌, ◌||◌, [], ◌∷◌, leb, ◌==◌, if◌then◌else◌,
}
use echo_frame.Util.Text.{Text, is_digit}
use echo_frame.Persistence.Names.{ℤ, pos, negsuc}

-- `atol` and `atoi`: blanks, a sign, and the digits up to the first other character. What they give
-- where the number does not fit is undefined; here it is the number.
unfoldable pub number : ℕ → Text → ℕ
number n [] = n
number n (c ∷ cs) = let rest = number (n * 10 + (c - b'0')) cs in if is_digit c then rest else n

abbrev pub negated_number : ℕ → ℤ
negated_number zero = pos 0
negated_number (suc n) = negsuc n

abbrev pub signed_number : Text → ℤ
signed_number [] = pos 0
signed_number (c ∷ cs) =
    if c == b'-'
    then negated_number (number 0 cs)
    else if c == b'+'
    then pos (number 0 cs)
    else pos (number 0 (c ∷ cs))

abbrev pub is_blank : ℕ → Bool
is_blank c = c == 32 || leb 9 c && leb c 13

unfoldable pub skip_blanks : Text → Text
skip_blanks [] = []
skip_blanks (c ∷ cs) = let rest = skip_blanks cs in if is_blank c then rest else c ∷ cs

unfoldable pub atol : Text → ℤ
unfolding skip_blanks
atol s = signed_number (skip_blanks s)
