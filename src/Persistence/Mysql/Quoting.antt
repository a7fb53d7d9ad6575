-- ===== src/Persistence/Mysql/Quoting.antt =====
-- The values of a statement, read back by the rules of SQL (presistence/MyDatabase.cc): what stands in
-- quotes ends at the first quote that no backslash escapes.
use echo_frame.Base.{
  ℕ, ◌≡◌, ◌≢◌, refl, ap, ap₂, ◌∙◌, Bool, true, false, Option, none, some, List, [], ◌∷◌, ◌++◌,
  append-nil, append_assoc, ◌==◌, if◌then◌else◌,
}
use echo_frame.Util.Text.{Text}
use echo_frame.Persistence.Names.{codes, c_str}
use echo_frame.Persistence.Mysql.{Driver, ok, DcMysql}
use echo_frame.Persistence.Mysql.Attempts.{connect_first-is_connected}
use echo_frame.Persistence.Mysql.Sql.{
  db_str, RecordData, comma, quoted_name, quoted, escape_string, column_value, insert_columns,
  insert_text, build_insert_sql,
}

-- A text in which every quote and every backslash is escaped, without zero bytes.
pub data IsEscaped : Text → Type 0 where
  all_escaped : IsEscaped []
  plain :
      {x : ℕ} {s : Text}
      → (x == b'\'') ≡ false
      → (x == b'\\') ≡ false
      → (x == 0) ≡ false
      → IsEscaped s
      → IsEscaped (x ∷ s)
  backslash : {x : ℕ} {s : Text} → (x == 0) ≡ false → IsEscaped s → IsEscaped (b'\\' ∷ x ∷ s)

-- Where the reader of a list of quoted values stands.
pub data Reading : Type 0 where
  at_value at_comma : Reading
  inside after_backslash : Text → Reading

abbrev pub and_value : Text → Option (List Text) → Option (List Text)
and_value s none = none
and_value s (some ss) = some (s ∷ ss)

unfoldable pub quoted_values : Reading → Text → Option (List Text)
quoted_values at_value [] = none
quoted_values at_value (x ∷ xs) =
    let rest = quoted_values (inside []) xs in if x == b'\'' then rest else none
quoted_values at_comma [] = some []
quoted_values at_comma (x ∷ xs) =
    let rest = quoted_values at_value xs in if x == b',' then rest else none
quoted_values (inside s) [] = none
quoted_values (inside s) (x ∷ xs) =
    let closed = quoted_values at_comma xs in
    let escape = quoted_values (after_backslash (s ++ (x ∷ []))) xs in
    let more = quoted_values (inside (s ++ (x ∷ []))) xs in
    if x == b'\'' then and_value s closed else if x == b'\\' then escape else more
quoted_values (after_backslash s) [] = none
quoted_values (after_backslash s) (x ∷ xs) = quoted_values (inside (s ++ (x ∷ []))) xs

c_str-IsEscaped : (s : Text) → IsEscaped s → c_str s ≡ s
unfolding c_str
c_str-IsEscaped [] all_escaped = refl
c_str-IsEscaped (x ∷ s) (plain a b c e) = rw (c) (ap (◌∷◌ x) (c_str-IsEscaped s e))
c_str-IsEscaped (x ∷ y ∷ s) (backslash c e) = rw (c) (ap (λ t. x ∷ y ∷ t) (c_str-IsEscaped s e))

inside-IsEscaped :
    (s acc t : Text)
    → IsEscaped s
    → quoted_values (inside acc) (s ++ t) ≡ quoted_values (inside (acc ++ s)) t
unfolding quoted_values
inside-IsEscaped [] acc t all_escaped = rw (append-nil acc) refl
inside-IsEscaped (x ∷ s) acc t (plain a b c e) =
    rw (a, b)
      (inside-IsEscaped s (acc ++ (x ∷ [])) t e
        ∙ ap (λ u. quoted_values (inside u) t) (append_assoc acc (x ∷ []) s))
inside-IsEscaped (x ∷ y ∷ s) acc t (backslash c e) =
    inside-IsEscaped s ((acc ++ (x ∷ [])) ++ (y ∷ [])) t e
    ∙ ap (λ u. quoted_values (inside u) t)
        (append_assoc (acc ++ (x ∷ [])) (y ∷ []) s ∙ append_assoc acc (x ∷ []) (y ∷ s))

quoted-IsEscaped :
    (s t : Text)
    → IsEscaped s
    → quoted_values at_value (quoted s ++ t) ≡ and_value s (quoted_values at_comma t)
unfolding quoted_values
quoted-IsEscaped s t e =
    ap (quoted_values (inside [])) (append_assoc s (b'\'' ∷ []) t)
    ∙ inside-IsEscaped s [] ((b'\'' ∷ []) ++ t) e

append_four : (a b p q : Text) → a ++ b ++ p ++ q ≡ a ++ (b ++ p ++ q)
append_four a b p q = ap (λ t. t ++ q) (append_assoc a b p) ∙ append_assoc a (b ++ p) q

-- All columns are strings.
pub data Strings : RecordData → Type 0 where
  no_column : Strings []
  string_column : {k v : Text} {m : RecordData} → Strings m → Strings ((k, db_str, v) ∷ m)

module _ {W : Type 0} (driver : Driver W) where
  -- What the library makes of a value is escaped.
  abbrev pub Escapes : W → Type 0
  Escapes w = (v : Text) → IsEscaped (driver.mysql_real_escape_string v w)

  abbrev pub escaped_values : W → RecordData → List Text
  escaped_values w [] = []
  escaped_values w ((k, t, v) ∷ m) = driver.mysql_real_escape_string v w ∷ escaped_values w m

  abbrev values_text : W → Bool → RecordData → Text
  values_text w first [] = []
  values_text w first ((k, t, v) ∷ m) =
      comma first ++ quoted (driver.mysql_real_escape_string v w) ++ values_text w false m

  abbrev names_text : Bool → RecordData → Text
  names_text first [] = []
  names_text first ((k, t, v) ∷ m) = comma first ++ quoted_name k ++ names_text false m

  column_value_lem :
      (v : Text) (c : DcMysql W)
      → c.is_connected ≡ true
      → Escapes c.world
      → column_value driver db_str v c
        ≡ (ok (quoted (driver.mysql_real_escape_string v c.world)), c)
  unfolding column_value escape_string
  column_value_lem v c a e =
      rw (connect_first-is_connected driver c a, c_str-IsEscaped _ (e v)) refl

  insert_columns_lem :
      (first : Bool) (m : RecordData) (names values : Text) (c : DcMysql W)
      → c.is_connected ≡ true
      → Escapes c.world
      → Strings m
      → insert_columns driver first m names values c
        ≡ (ok (names ++ names_text first m, values ++ values_text c.world first m), c)
  unfolding insert_columns
  insert_columns_lem first [] names values c a e no_column =
      rw (append-nil names, append-nil values) refl
  insert_columns_lem first ((k, t, v) ∷ m) names values c a e (string_column s) =
      rw (column_value_lem v c a e) (
        insert_columns_lem false m _ _ c a e s
        ∙ ap₂ (λ p q. (ok (p, q), c))
            (append_four names (comma first) (quoted_name k) (names_text false m))
            (append_four values (comma first) (quoted (driver.mysql_real_escape_string v c.world))
              (values_text c.world false m)))

  values_text-rest :
      (w : W) (m : RecordData)
      → Escapes w
      → Strings m
      → quoted_values at_comma (values_text w false m) ≡ some (escaped_values w m)
  unfolding quoted_values
  values_text-rest w [] e no_column = refl
  values_text-rest w ((k, t, v) ∷ m) e (string_column s) =
      let x = driver.mysql_real_escape_string v w in
      quoted-IsEscaped x (values_text w false m) (e v) ∙ ap (and_value x) (values_text-rest w m e s)

  -- With a connection and a library that escapes quotes and backslashes, the statement that
  -- `buildInsertSQL` makes of columns that are all strings has as its list of values exactly one
  -- quoted text for each column, the escaped one: no value ends its quotes early or runs on into
  -- the rest of the statement.
  pub build_insert_sql-quoted :
      (table : Text) (m : RecordData) (c : DcMysql W)
      → c.is_connected ≡ true
      → Escapes c.world
      → Strings m
      → m ≢ []
      → (names : Text) × (values : Text) × (build_insert_sql driver table m c
          ≡ (ok (insert_text (codes "insert") table (names, values)), c))
        × (quoted_values at_value values ≡ some (escaped_values c.world m))
  unfolding build_insert_sql
  build_insert_sql-quoted table [] c a e no_column ne = absurd (ne refl)
  build_insert_sql-quoted table ((k, t, v) ∷ m) c a e (string_column s) ne =
      let x = driver.mysql_real_escape_string v c.world in
      (
        names_text true ((k, db_str, v) ∷ m),
        values_text c.world true ((k, db_str, v) ∷ m),
        rw (insert_columns_lem true ((k, db_str, v) ∷ m) [] [] c a e (string_column s)) refl,
        quoted-IsEscaped x (values_text c.world false m) (e v)
            ∙ ap (and_value x) (values_text-rest c.world m e s),
      )
