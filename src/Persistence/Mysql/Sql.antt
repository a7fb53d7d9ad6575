-- ===== src/Persistence/Mysql/Sql.antt =====
-- escapeString, buildInsertSQL, buildReplaceSQL and buildUpdateSQL (presistence/MyDatabase.cc). The
-- table, the names of the columns and the condition go into the statement as they are.
use echo_frame.Base.{Bool, true, false, List, [], ◌∷◌, ◌++◌, if◌then◌else◌}
use echo_frame.Util.Text.{Text}
use echo_frame.Persistence.Names.{codes, c_str}
use echo_frame.Persistence.Mysql.{Driver, ok, M, pure, ◌>>=◌, connect_first}

pub data FieldType : Type 0 where
  db_int db_str : FieldType

-- `RECORD_DATA`: the columns in the order of their names.
abbrev pub RecordData : Type 0
RecordData = List (Text × FieldType × Text)

abbrev pub comma : Bool → Text
comma first = if first then [] else b',' ∷ []

abbrev pub quoted_name : Text → Text
quoted_name k = (b'`' ∷ k) ++ (b'`' ∷ [])

abbrev pub quoted : Text → Text
quoted s = (b'\'' ∷ s) ++ (b'\'' ∷ [])

abbrev pub insert_text : Text → Text → Text × Text → Text
insert_text verb table (names, values) =
    verb
    ++ codes " into "
    ++ table
    ++ codes " ("
    ++ names
    ++ codes ") values ("
    ++ values
    ++ codes ")"

module _ {W : Type 0} (driver : Driver W) where
  abbrev escaped : Text → M W Text
  escaped s c = (ok (c_str (driver.mysql_real_escape_string s c.world)), c)

  -- `escapeString` connects where there is no connection, and reads what was escaped as a C string.
  unfoldable pub escape_string : Text → M W Text
  escape_string s = do connected ← connect_first driver; escaped s

  -- A number goes into the statement as it is, any other value escaped and in quotes.
  unfoldable pub column_value : FieldType → Text → M W Text
  column_value db_int v = pure v
  column_value db_str v = do e ← escape_string v; pure (quoted e)

  -- The loop of `buildInsertSQL` and `buildReplaceSQL`: the names and the values.
  unfoldable pub insert_columns : Bool → RecordData → Text → Text → M W (Text × Text)
  insert_columns first [] names values c = (ok (names, values), c)
  insert_columns first ((k, t, v) ∷ m) names values c =
      (do
        s ← column_value t v
        insert_columns false m (names ++ comma first ++ quoted_name k) (values ++ comma first ++ s))
        c

  unfoldable pub build_insert_sql : Text → RecordData → M W Text
  build_insert_sql table m = do
    columns ← insert_columns true m [] []
    pure (insert_text (codes "insert") table columns)

  unfoldable pub build_replace_sql : Text → RecordData → M W Text
  build_replace_sql table m = do
    columns ← insert_columns true m [] []
    pure (insert_text (codes "replace") table columns)

  -- The loop of `buildUpdateSQL`.
  unfoldable pub update_columns : Bool → RecordData → Text → M W Text
  update_columns first [] sets c = (ok sets, c)
  update_columns first ((k, t, v) ∷ m) sets c =
      (do
        s ← column_value t v
        update_columns false m (sets ++ comma first ++ quoted_name k ++ codes "= " ++ s))
        c

  unfoldable pub build_update_sql : Text → RecordData → Text → M W Text
  build_update_sql table m condition = do
    sets ← update_columns true m []
    pure (codes "update " ++ table ++ codes " set " ++ sets ++ codes " " ++ condition)
