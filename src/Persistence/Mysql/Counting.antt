-- ===== src/Persistence/Mysql/Counting.antt =====
-- The rows of a result as maps, and the counts that are read from them
-- (presistence/MyDatabase.cc).
use echo_frame.Base.{
  ℕ, zero, suc, ◌+◌, ◌-◌, ◌*◌, ◌/◌, ◌%◌, ◌^◌, ◌≤◌, ◌<◌, ◌≡◌, refl, ap, ◌∙◌, true, false, some, [],
  ◌∷◌, ◌++◌, arith, ltb, ltb→lt, le→leb, ne→==, Bool-cases, inl, inr,
}
use echo_frame.Util.Text.{Text, is_digit}
use echo_frame.Util.PropertyTree.{text_eq, digits}
use echo_frame.Persistence.Names.{pos, codes, entry, assign}
use echo_frame.Persistence.Numbers.{number, atol, skip_blanks, is_blank}
use echo_frame.Persistence.Mysql.{
  QueryResult, Driver, ok, DcMysql, row_map, all_rows, execute, query_record,
}
use echo_frame.Persistence.Mysql.Records.{get_record_count, field, record_at}

-- The digits of a number, read again.
Digits : Text → Type 0
Digits [] = Unit {0}
Digits (c ∷ cs) = (is_digit c ≡ true) × Digits cs

number-append : (n : ℕ) (s t : Text) → Digits s → number n (s ++ t) ≡ number (number n s) t
unfolding number Digits
number-append n [] t d = refl
number-append n (c ∷ s) t d = rw (d.0) (number-append (n * 10 + (c - b'0')) s t d.1)

digit_code : (d : ℕ) → d < 10 → is_digit (b'0' + d) ≡ true
unfolding is_digit
digit_code d h = rw (le→leb b'0' (b'0' + d) (omega arith)) (le→leb (b'0' + d) b'9' (omega arith))

Digits-append : (s t : Text) → Digits s → Digits t → Digits (s ++ t)
unfolding Digits
Digits-append [] t a b = b
Digits-append (c ∷ s) t a b = (a.0, Digits-append s t a.1 b)

digits-Digits : (fuel n : ℕ) → Digits (digits fuel n)
unfolding Digits digits
digits-Digits zero n = tt
digits-Digits (suc fuel) n = elim (Bool-cases (ltb n 10)) [
  | inl small ↦ rw (small) (digit_code n (ltb→lt n 10 small), tt)
  | inr large ↦ rw (large) (
      Digits-append (digits fuel (n / 10)) _ (digits-Digits fuel (n / 10))
        (digit_code (n % 10) (omega arith), tt))
]

number-digits : (fuel n : ℕ) → n < 10 ^ fuel → number 0 (digits fuel n) ≡ n
unfolding number digits
number-digits zero n h = omega arith
number-digits (suc fuel) n h = elim (Bool-cases (ltb n 10)) [
  | inl small ↦ rw (small, digit_code n (ltb→lt n 10 small)) (omega arith)
  | inr large ↦ rw (large) (
      number-append 0 (digits fuel (n / 10)) ((b'0' + n % 10) ∷ []) (digits-Digits fuel (n / 10))
      ∙ rw (digit_code (n % 10) (omega arith)) (
          ap (λ a. a * 10 + (b'0' + n % 10 - b'0')) (number-digits fuel (n / 10) (omega arith))
          ∙ omega arith))
]

digit_bounds : (c : ℕ) → is_digit c ≡ true → (b'0' ≤ c) × (c ≤ b'9')
unfolding is_digit
digit_bounds c h = ground arith

not_blank : (c : ℕ) → b'0' ≤ c → c ≤ b'9' → is_blank c ≡ false
not_blank c a b = ground arith

atol-Digits : (s : Text) → Digits s → atol s ≡ pos (number 0 s)
unfolding atol Digits skip_blanks number
atol-Digits [] d = refl
atol-Digits (c ∷ s) d =
    let (a, b) = digit_bounds c d.0 in
    rw (not_blank c a b, ne→== c b'-' (omega arith), ne→== c b'+' (omega arith)) refl

-- What `atol` makes of the digits of a number of 64 bits.
pub atol-digits : (n : ℕ) → n < 2 ^ 64 → atol (digits 20 n) ≡ pos n
atol-digits n h =
    atol-Digits (digits 20 n) (digits-Digits 20 n) ∙ ap pos (number-digits 20 n (omega arith))

-- A result with the one column `num` and one row, which has the digits of a number.
abbrev pub count_result : ℕ → QueryResult
count_result n = record { fields = codes "num" ∷ []; rows = (some (digits 20 n) ∷ []) ∷ [] }

abbrev pub count_sql : Text → Text → Text
count_sql table condition = codes "select count(*) as num from " ++ table ++ codes " " ++ condition

-- If the statement for the count is executed and the server answers with a number of 63 bits in one
-- row, `getRecordCount` returns that number.
pub get_record_count_lem :
    {W : Type 0} (driver : Driver W) (table condition : Text) (n : ℕ) (c d : DcMysql W) (w : W)
    → n < 2 ^ 63
    → execute driver (count_sql table condition) c ≡ (ok tt, d)
    → driver.mysql_store_result d.world ≡ (some (count_result n), w)
    → (e : DcMysql W) × (get_record_count driver table condition c ≡ (ok n, e))
unfolding get_record_count query_record all_rows row_map assign record_at field entry text_eq
get_record_count_lem driver table condition n c d w h e s = (
  record d { world = driver.mysql_free_result w },
  rw (e, s, atol-digits n (omega arith))
      (ap (λ k. (ok k, record d { world = driver.mysql_free_result w })) (omega arith)),
)
