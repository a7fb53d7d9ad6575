-- ===== src/Persistence/Mysql.antt =====
-- DCMysql (presistence/MyDatabase.h, presistence/MyDatabase.cc): the configuration, the connection,
-- `execute` and `queryRecord`. Sql has the statements that are built, Records the operations on
-- records and what they read. The client library is a record of functions; its handle is there or
-- null, and all that stands behind it is the state `world`.
pub mod Sql
pub mod Records
pub mod Retry
pub mod Attempts
pub mod Quoting
pub mod Counting
pub mod Rows
use echo_frame.Base.{
  ℕ, zero, suc, ◌+◌, ◌-◌, ◌*◌, ◌%◌, ◌^◌, Bool, true, false, ◌||◌, ◌&&◌, Option, none, some, List,
  [], ◌∷◌, ◌++◌, leb, ltb, ◌==◌, if◌then◌else◌,
}
use echo_frame.Util.Text.{Text, is_digit}
use echo_frame.Persistence.Numbers.{atol}
use echo_frame.Persistence.Names.{ℤ, pos, negsuc, codes, entry, assign}

-- The exception, with its text and its number.
pub record DcMysqlException : Type 0 where
  pub message : Text
  pub code : ℤ

-- A call returns, throws, or reads out of range, which C++ leaves undefined.
pub data DbResult (A : Type 0) : Type 0 where
  ok : A → DbResult A
  threw : DcMysqlException → DbResult A
  undefined : DbResult A

-- `DCDBConf`
pub record DcDbConf : Type 0 where
  pub host : Text
  pub user : Text
  pub password : Text
  pub database : Text
  pub charset : Text
  pub port : ℤ
  pub flag : ℕ

-- A name that is missing reads as the empty string.
abbrev pub text_or : Option Text → Text
text_or none = []
text_or (some s) = s

abbrev pub parameter : Text → List (Text × Text) → Text
parameter k m = text_or (entry k m)

abbrev port_of : Text → ℤ
port_of [] = pos 3306
port_of (c ∷ cs) = atol (c ∷ cs)

-- `loadFromMap`
unfoldable pub load_from_map : List (Text × Text) → DcDbConf
load_from_map m = record {
  host = parameter (codes "dbhost") m;
  user = parameter (codes "dbuser") m;
  password = parameter (codes "dbpass") m;
  database = parameter (codes "dbname") m;
  charset = parameter (codes "charset") m;
  port = port_of (parameter (codes "dbport") m);
  flag = 0;
}

-- The rows of a result: a value is null or has its bytes.
pub record QueryResult : Type 0 where
  pub fields : List Text
  pub rows : List (List (Option Text))

-- libmysql: tests answer whether the call succeeded.
pub record Driver (W : Type 0) : Type 0 where
  pub mysql_init : W → Bool × W
  pub mysql_close : W → W
  pub mysql_options : Text → W → Bool × W
  pub mysql_real_connect : DcDbConf → W → Bool × W
  pub mysql_real_query : Text → W → Bool × W
  pub mysql_errno : W → ℕ
  pub mysql_error : W → Text
  pub mysql_store_result : W → Option QueryResult × W
  pub mysql_free_result : W → W
  pub mysql_affected_rows : W → ℕ
  pub mysql_insert_id : W → ℕ
  pub mysql_real_escape_string : Text → W → Text

-- `handle`: the pointer to the library's object is not null.
pub record DcMysql (W : Type 0) : Type 0 where
  pub handle : Bool
  pub conf : DcDbConf
  pub is_connected : Bool
  pub last_sql : Text
  pub world : W

-- `init` of a connection.
unfoldable pub init : {W : Type 0} → DcDbConf → DcMysql W → DcMysql W
init conf c = record c { conf = conf }

abbrev pub M : Type 0 → Type 0 → Type 0
M W A = DcMysql W → DbResult A × DcMysql W

module _ {W : Type 0} where
  abbrev pub pure : {A : Type 0} → A → M W A
  pure a c = (ok a, c)

  abbrev pub raise : {A : Type 0} → DcMysqlException → M W A
  raise e c = (threw e, c)

  abbrev pub then_with :
      {A B : Type 0} → (A → M W B) → DbResult A → DcMysql W → DbResult B × DcMysql W
  then_with f (ok a) c = f a c
  then_with f (threw e) c = (threw e, c)
  then_with f undefined c = (undefined, c)

  infixl 5 ◌>>=◌
  abbrev pub ◌>>=◌ : {A B : Type 0} → M W A → (A → M W B) → M W B
  ◌>>=◌ m f c = then_with f (m c).0 (m c).1

  -- `_sLastSql`
  abbrev pub remember : Text → M W (Unit {0})
  remember sql c = (ok tt, record c { last_sql = sql })

-- The numbers of a lost connection.
abbrev pub is_gone : ℕ → Bool
is_gone n = n == 2013 || n == 2006

module _ {W : Type 0} (driver : Driver W) where
  abbrev pub failure : Text → DcMysql W → DcMysqlException
  failure s c = record {
    message = s ++ driver.mysql_error c.world;
    code = pos (driver.mysql_errno c.world);
  }

  abbrev initialised : Bool × W → DcMysql W → DcMysql W
  initialised (h, w) c = record c { handle = h; world = w }

  unfoldable pub disconnect : DcMysql W → DcMysql W
  disconnect c =
      record (if c.handle
        then initialised (driver.mysql_init (driver.mysql_close c.world)) c
        else c) { is_connected = false }

  abbrev pub with_handle : DcMysql W → DcMysql W
  with_handle c = if c.handle then c else initialised (driver.mysql_init c.world) c

  -- The constructor.
  unfoldable pub start : DcDbConf → W → DcMysql W
  start conf w =
      initialised (driver.mysql_init w)
        record { handle = false; conf = conf; is_connected = false; last_sql = []; world = w }

  -- The destructor.
  unfoldable pub stop : DcMysql W → DcMysql W
  stop c = if c.handle then record c { handle = false; world = driver.mysql_close c.world } else c

  -- The character set, where the configuration names one.
  abbrev charset_set : Bool × W → M W (Unit {0})
  charset_set (done, w) c =
      let d = record c { world = w } in
      if done then (ok tt, d) else (
        threw (
            failure
              (codes "DCMysql::connect: mysql_options MYSQL_SET_CHARSET_NAME "
                ++ c.conf.charset
                ++ codes ":")
              d),
        d,
      )

  abbrev pub set_charset : Text → M W (Unit {0})
  set_charset [] c = (ok tt, c)
  set_charset (x ∷ xs) c = charset_set (driver.mysql_options (x ∷ xs) c.world) c

  abbrev really_connected : Bool × W → M W (Unit {0})
  really_connected (done, w) c =
      let d = record c { world = w } in
      if done
      then (ok tt, record d { is_connected = true })
      else (threw (failure (codes "[DCMysql::connect]: mysql_real_connect: ") d), d)

  abbrev pub real_connect : M W (Unit {0})
  real_connect c = really_connected (driver.mysql_real_connect c.conf c.world) c

  unfoldable pub connect : M W (Unit {0})
  connect c = (do charset ← set_charset c.conf.charset; real_connect) (with_handle (disconnect c))

  unfoldable pub connect_first : M W (Unit {0})
  connect_first c = if c.is_connected then (ok tt, c) else connect c

  unfoldable pub query : Text → M W Bool
  query sql c =
      let (done, w) = driver.mysql_real_query sql c.world in (ok done, record c { world = w })

  abbrev pub again : Text → M W Bool
  again sql = do connected ← connect; query sql

  abbrev pub retry : Text → Bool → M W Bool
  retry sql true c = (ok true, c)
  retry sql false c = if is_gone (driver.mysql_errno c.world) then again sql c else (ok false, c)

  abbrev pub check : Text → Bool → M W (Unit {0})
  check sql true c = (ok tt, c)
  check sql false c =
      (threw (failure (codes "[DCMysql::execute]: mysql_query: [ " ++ sql ++ codes " ] :") c), c)

  unfoldable pub execute : Text → M W (Unit {0})
  execute sql = do
    connected ← connect_first
    remembered ← remember sql
    done ← query sql
    retried ← retry sql done
    check sql retried

abbrev pub Record : Type 0
Record = List (Text × Text)

-- A row as a map: a null is the empty string. `none` is a row that is shorter than the fields.
unfoldable pub row_map : List Text → List (Option Text) → Record → Option Record
row_map [] row m = some m
row_map (f ∷ fs) [] m = none
row_map (f ∷ fs) (v ∷ vs) m = row_map fs vs (assign f (text_or v) m)

abbrev add_row : Option Record → Option (List Record) → Option (List Record)
add_row none rest = none
add_row (some r) none = none
add_row (some r) (some rs) = some (r ∷ rs)

unfoldable pub all_rows : List Text → List (List (Option Text)) → Option (List Record)
all_rows fields [] = some []
all_rows fields (row ∷ rows) = add_row (row_map fields row []) (all_rows fields rows)

module _ {W : Type 0} (driver : Driver W) where
  abbrev read_rows : Option (List Record) → M W (List Record)
  read_rows none c = (undefined, c)
  read_rows (some rs) c = (ok rs, record c { world = driver.mysql_free_result c.world })

  abbrev stored : Text → Option QueryResult × W → M W (List Record)
  stored sql (none, w) c =
      let d = record c { world = w } in
      (
        threw (
            failure driver
              (codes "[DCMysql::queryRecord]: mysql_store_result: " ++ sql ++ codes " : ") d),
        d,
      )
  stored sql (some r, w) c = read_rows (all_rows r.fields r.rows) (record c { world = w })

  abbrev pub store : Text → M W (List Record)
  store sql c = stored sql (driver.mysql_store_result c.world) c

  -- `queryRecord`: its lines up to the result are those of `execute`.
  unfoldable pub query_record : Text → M W (List Record)
  query_record sql = do executed ← execute driver sql; store sql
