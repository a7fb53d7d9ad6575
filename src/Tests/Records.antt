-- ===== src/Tests/Records.antt =====
-- The MySQL client, against a server that loses the connection at the first query and answers each
-- count with seven.
use echo_frame.Base.{
  ℕ, ◌≡◌, ◌≢◌, refl, ap, Bool, true, false, none, some, List, [], ◌∷◌, ◌++◌, arith, ◌==◌,
  if◌then◌else◌, Bool-cases, inl, inr,
}
use echo_frame.Util.Text.{Text}
use echo_frame.Persistence.Names.{pos, codes}
use echo_frame.Persistence.Mysql.{
  QueryResult, Driver, ok, DcMysql, Record, execute, query_record, connect_first, query,
}
use echo_frame.Persistence.Mysql.Retry.{Logs}
use echo_frame.Persistence.Mysql.Attempts.{Attempts, execute-Sent}
use echo_frame.Persistence.Mysql.Sql.{db_str, RecordData, insert_text, build_insert_sql}
use echo_frame.Persistence.Mysql.Quoting.{
  IsEscaped, all_escaped, plain, backslash, no_column, string_column, at_value, quoted_values,
  escaped_values, build_insert_sql-quoted,
}
use echo_frame.Persistence.Mysql.Records.{get_record_count}
use echo_frame.Persistence.Mysql.Rows.{RowsOf, no_wide, wide, query_record-RowsOf}
use echo_frame.Persistence.Mysql.Counting.{count_result, count_sql, get_record_count_lem}

abbrev is_some_query : List Text → Bool
is_some_query [] = false
is_some_query (x ∷ xs) = true

-- A quote, a backslash and a zero get a backslash before them.
abbrev escape_char : ℕ → Text → Text
escape_char x rest =
    if x == b'\''
    then b'\\' ∷ x ∷ rest
    else if x == b'\\'
    then b'\\' ∷ x ∷ rest
    else if x == 0
    then b'\\' ∷ b'0' ∷ rest
    else x ∷ rest

escape : Text → Text
escape [] = []
escape (x ∷ xs) = escape_char x (escape xs)

abbrev two_columns : QueryResult
two_columns = record {
  fields = codes "a" ∷ codes "b" ∷ [];
  rows = (some (codes "1") ∷ none ∷ []) ∷ (none ∷ some (codes "2") ∷ []) ∷ [];
}

abbrev driver_with : QueryResult → Driver (List Text)
driver_with r = record {
  mysql_init = λ w. (true, w);
  mysql_close = λ w. w;
  mysql_options = λ s w. (true, w);
  mysql_real_connect = λ conf w. (true, w);
  mysql_real_query = λ sql w. (is_some_query w, w ++ (sql ∷ []));
  mysql_errno = λ w. 2006;
  mysql_error = λ w. codes "gone away";
  mysql_store_result = λ w. (some r, w);
  mysql_free_result = λ w. w;
  mysql_affected_rows = λ w. 1;
  mysql_insert_id = λ w. 1;
  mysql_real_escape_string = λ s w. escape s;
}

abbrev counting : Driver (List Text)
counting = driver_with (count_result 7)

abbrev queries : List Text → List Text
queries w = w

counting-Logs : Logs counting queries
counting-Logs = record {
  queried = λ sql w. refl;
  inited = λ w. refl;
  closed = λ w. refl;
  optioned = λ s w. refl;
  opened = λ conf w. refl;
}

abbrev client_at : List Text → DcMysql (List Text)
client_at w = record {
  handle = true;
  conf = record {
    host = codes "h";
    user = codes "u";
    password = [];
    database = codes "d";
    charset = codes "utf8";
    port = pos 3306;
    flag = 0;
  };
  is_connected = true;
  last_sql = [];
  world = w;
}

execute-Sent_example :
    (sent : List Text) × (queries (execute counting (codes "x") (client_at [])).1.world ≡ sent)
    × Attempts counting
        (codes "x")
        (client_at [])
        (execute counting (codes "x") (client_at [])).1
        (execute counting (codes "x") (client_at [])).0
        sent
execute-Sent_example = execute-Sent counting-Logs (codes "x") (client_at [])

escape-IsEscaped : (s : Text) → IsEscaped (escape s)
unfolding escape
escape-IsEscaped [] = all_escaped
escape-IsEscaped (x ∷ s) = elim (Bool-cases (x == b'\'')) [
  | inl quote ↦ rw (quote) (backslash (ground arith) (escape-IsEscaped s))
  | inr other ↦ elim (Bool-cases (x == b'\\')) [
    | inl slash ↦ rw (other, slash) (backslash (ground arith) (escape-IsEscaped s))
    | inr more ↦ elim (Bool-cases (x == 0)) [
      | inl zeros ↦ rw (other, more, zeros) (backslash refl (escape-IsEscaped s))
      | inr rest ↦ rw (other, more, rest) (plain other more rest (escape-IsEscaped s))
    ]
  ]
]

-- A value that tries to end its quotes.
abbrev columns : RecordData
columns = (codes "a", db_str, codes "x") ∷ (codes "b", db_str, b'\'' ∷ codes "); --") ∷ []

abbrev is_column : RecordData → Bool
is_column [] = false
is_column (x ∷ xs) = true

columns-some : columns ≢ []
columns-some e = cc (ap is_column e)

build_insert_sql-quoted_example :
    (names : Text) × (values : Text) × (build_insert_sql counting (codes "t") columns (client_at [])
      ≡ (ok (insert_text (codes "insert") (codes "t") (names, values)), client_at []))
    × (quoted_values at_value values ≡ some (escaped_values counting [] columns))
build_insert_sql-quoted_example =
    build_insert_sql-quoted counting (codes "t") columns (client_at []) refl escape-IsEscaped
      (string_column (string_column no_column)) columns-some

abbrev before : List Text
before = codes "x" ∷ []

abbrev after : Text → DcMysql (List Text)
after sql = record (client_at (before ++ (sql ∷ []))) { last_sql = sql }

executed :
    (r : QueryResult) (sql : Text)
    → execute (driver_with r) sql (client_at before) ≡ (ok tt, after sql)
unfolding execute connect_first query
executed r sql = refl

get_record_count_lem_example :
    (e : DcMysql (List Text)) × (get_record_count counting
        (codes "t")
        (codes "where 1")
        (client_at before)
      ≡ (ok 7, e))
get_record_count_lem_example =
    get_record_count_lem counting (codes "t") (codes "where 1") 7 (client_at before)
      (after (count_sql (codes "t") (codes "where 1")))
      (before ++ (count_sql (codes "t") (codes "where 1") ∷ [])) (omega arith)
      (executed (count_result 7) (count_sql (codes "t") (codes "where 1"))) refl

query_record-RowsOf_example :
    (rs : List Record) × (e : DcMysql (List Text)) × (query_record
        (driver_with two_columns)
        (codes "q")
        (client_at before)
      ≡ (ok rs, e))
    × RowsOf two_columns.fields two_columns.rows rs
query_record-RowsOf_example =
    query_record-RowsOf (driver_with two_columns) (codes "q") two_columns (client_at before)
      (after (codes "q")) (before ++ (codes "q" ∷ [])) (executed two_columns (codes "q")) refl
      (wide (omega arith) (wide (omega arith) no_wide))
