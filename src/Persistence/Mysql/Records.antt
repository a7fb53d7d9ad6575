-- ===== src/Persistence/Mysql/Records.antt =====
-- The operations on records, and MysqlData and MysqlRecord (presistence/MyDatabase.h,
-- presistence/MyDatabase.cc).
use echo_frame.Base.{
  ℕ, suc, ◌-◌, ◌%◌, ◌^◌, Bool, true, false, Option, none, some, List, [], ◌∷◌, ◌++◌, ltb,
  if◌then◌else◌,
}
use echo_frame.Util.Text.{Text}
use echo_frame.Util.PropertyTree.{text_eq}
use echo_frame.Persistence.Names.{ℤ, pos, negsuc, codes, entry}
use echo_frame.Persistence.Numbers.{atol}
use echo_frame.Persistence.Mysql.{
  Driver, ok, threw, undefined, M, pure, ◌>>=◌, Record, execute, query_record,
}
use echo_frame.Persistence.Mysql.Sql.{
  RecordData, build_insert_sql, build_replace_sql, build_update_sql,
}

module _ {W : Type 0} where
  abbrev found : Text → Option Text → M W Text
  found f none c =
      (threw record { message = codes "field '" ++ f ++ codes "' not exists."; code = negsuc 0 }, c)
  found f (some v) c = (ok v, c)

  -- A field of a record.
  unfoldable pub field : Text → Record → M W Text
  field f r = found f (entry f r)

  -- A record of a result; the number is not checked against the size.
  unfoldable pub record_at : ℕ → List Record → M W Record
  record_at n [] c = (undefined, c)
  record_at ℕ.zero (r ∷ rs) c = (ok r, c)
  record_at (suc n) (r ∷ rs) c = record_at n rs c

-- A `long` as a `size_t`, and as an `int`, which is its lower 32 bits.
abbrev pub to_size : ℤ → ℕ
to_size (pos n) = n % 2 ^ 64
to_size (negsuc n) = 2 ^ 64 - 1 - n % 2 ^ 64

abbrev signed_word : ℕ → ℤ
signed_word n = if ltb n (2 ^ 31) then pos n else negsuc (2 ^ 32 - 1 - n)

unfoldable pub to_int : ℤ → ℤ
to_int n = signed_word (to_size n % 2 ^ 32)

abbrev pub first_column : {W : Type 0} → Text → List Record → M W Text
first_column f rows = do r ← record_at 0 rows; field f r

module _ {W : Type 0} (driver : Driver W) where
  -- `getAffectedRows` and `lastInsertID`
  abbrev pub get_affected_rows : M W ℕ
  get_affected_rows c = (ok (driver.mysql_affected_rows c.world), c)

  abbrev pub last_insert_id : M W ℕ
  last_insert_id c = (ok (driver.mysql_insert_id c.world), c)

  abbrev pub execute_counted : Text → M W ℕ
  execute_counted sql = do executed ← execute driver sql; get_affected_rows

  unfoldable pub update_record : Text → RecordData → Text → M W ℕ
  update_record table m condition = do
    sql ← build_update_sql driver table m condition
    execute_counted sql

  unfoldable pub insert_record : Text → RecordData → M W ℕ
  insert_record table m = do sql ← build_insert_sql driver table m; execute_counted sql

  unfoldable pub replace_record : Text → RecordData → M W ℕ
  replace_record table m = do sql ← build_replace_sql driver table m; execute_counted sql

  unfoldable pub delete_record : Text → Text → M W ℕ
  delete_record table condition =
      execute_counted (codes "delete from " ++ table ++ codes " " ++ condition)

  -- The number in the first row; a result without rows is read out of range.
  abbrev pub counted : Text → M W ℕ
  counted sql = do
    rows ← query_record driver sql
    num ← first_column (codes "num") rows
    pure (to_size (atol num))

  unfoldable pub get_record_count : Text → Text → M W ℕ
  get_record_count table condition =
      counted (codes "select count(*) as num from " ++ table ++ codes " " ++ condition)

  unfoldable pub get_sql_count : Text → M W ℕ
  get_sql_count condition = counted (codes "select count(*) as num " ++ condition)

  abbrev max_of : List Record → M W ℤ
  max_of [] = pure (pos 0)
  max_of (r ∷ rs) = do f ← field (codes "f") r; pure (to_int (atol f))

  unfoldable pub get_max_value : Text → Text → Text → M W ℤ
  get_max_value table name condition = do
    rows ← query_record driver (
        codes "select "
        ++ name
        ++ codes " as f from "
        ++ table
        ++ codes " "
        ++ condition
        ++ codes " order by f desc limit 1")
    max_of rows

  abbrev is_some_row : List Record → Bool
  is_some_row [] = false
  is_some_row (r ∷ rs) = true

  unfoldable pub exist_record : Text → M W Bool
  exist_record sql = do rows ← query_record driver sql; pure (is_some_row rows)

  abbrev variable_of : Text → List Record → M W Text
  variable_of name [] = pure []
  variable_of name (r ∷ rs) = do
    found_name ← field (codes "Variable_name") r
    if text_eq name found_name then field (codes "Value") r else pure []

  unfoldable pub get_variables : Text → M W Text
  get_variables name = do
    rows ← query_record driver (codes "SHOW VARIABLES LIKE '" ++ name ++ codes "'")
    variable_of name rows
