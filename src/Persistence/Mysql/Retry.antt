-- ===== src/Persistence/Mysql/Retry.antt =====
-- The queries that `execute` sends (presistence/MyDatabase.cc).
use echo_frame.Base.{◌≡◌, refl, ◌∙◌, true, false, List, [], ◌∷◌, ◌++◌, Bool-cases, inl, inr}
use echo_frame.Util.Text.{Text}
use echo_frame.Persistence.Mysql.{
  DcMysqlException, Driver, DbResult, ok, threw, DcDbConf, DcMysql, ◌>>=◌, disconnect, with_handle,
  connect, set_charset, real_connect,
}

-- The queries that the server was sent are a view of what stands behind the driver: a query adds to
-- it, the calls that open and close leave it.
pub record Logs {W : Type 0} (driver : Driver W) (log : W → List Text) : Type 0 where
  pub queried : (sql : Text) (w : W) → log (driver.mysql_real_query sql w).1 ≡ log w ++ (sql ∷ [])
  pub inited : (w : W) → log (driver.mysql_init w).1 ≡ log w
  pub closed : (w : W) → log (driver.mysql_close w) ≡ log w
  pub optioned : (s : Text) (w : W) → log (driver.mysql_options s w).1 ≡ log w
  pub opened : (conf : DcDbConf) (w : W) → log (driver.mysql_real_connect conf w).1 ≡ log w

-- A call that returns leaves a connection, and one that throws does not.
pub data Connects {W : Type 0} : DbResult (Unit {0}) → DcMysql W → Type 0 where
  stands : {c : DcMysql W} → c.is_connected ≡ true → Connects (ok tt) c
  fails : {e : DcMysqlException} {c : DcMysql W} → c.is_connected ≡ false → Connects (threw e) c

module _ {W : Type 0} {driver : Driver W} {log : W → List Text} (logs : Logs driver log) where
  disconnect-log :
      (c : DcMysql W)
      → (log (disconnect driver c).world ≡ log c.world)
        × ((disconnect driver c).is_connected ≡ false)
        × ((disconnect driver c).conf ≡ c.conf)
  unfolding disconnect
  disconnect-log c = elim (Bool-cases c.handle) [
    | inl e ↦
        (rw (e) (logs.inited (driver.mysql_close c.world) ∙ logs.closed c.world), refl, rw (e) refl)
    | inr e ↦ (rw (e) refl, refl, rw (e) refl)
  ]

  with_handle-log :
      (c : DcMysql W)
      → (log (with_handle driver c).world ≡ log c.world)
        × ((with_handle driver c).is_connected ≡ c.is_connected)
  with_handle-log c = elim (Bool-cases c.handle) [
    | inl e ↦ (rw (e) refl, rw (e) refl)
    | inr e ↦ (rw (e) (logs.inited c.world), rw (e) refl)
  ]

  -- A call that sends no query, and returns exactly if it leaves a connection.
  abbrev Quiet : DcMysql W → DbResult (Unit {0}) → DcMysql W → Type 0
  Quiet c r d = (log d.world ≡ log c.world) × Connects r d

  real_connect-Quiet :
      (c : DcMysql W)
      → c.is_connected ≡ false
      → Quiet c (real_connect driver c).0 (real_connect driver c).1
  real_connect-Quiet c a =
      let l = logs.opened c.conf c.world in
      elim (Bool-cases (driver.mysql_real_connect c.conf c.world).0) [
        | inl e ↦ rw (e) (l, stands refl)
        | inr e ↦ rw (e) (l, fails a)
      ]

  charset-Quiet :
      (s : Text) (c : DcMysql W)
      → c.is_connected ≡ false
      → Quiet c
          ((set_charset driver s >>= λ u. real_connect driver) c).0
          ((set_charset driver s >>= λ u. real_connect driver) c).1
  charset-Quiet [] c a = real_connect-Quiet c a
  charset-Quiet (x ∷ xs) c a =
      let l = logs.optioned (x ∷ xs) c.world in
      let d : DcMysql W = record c { world = (driver.mysql_options (x ∷ xs) c.world).1 } in
      let (m, q) = real_connect-Quiet d a in
      elim (Bool-cases (driver.mysql_options (x ∷ xs) c.world).0) [
        | inl e ↦ rw (e) (m ∙ l, q)
        | inr e ↦ rw (e) (l, fails a)
      ]

  -- `connect` sends no query, and returns exactly if it leaves a connection.
  pub connect-Quiet : (c : DcMysql W) → Quiet c (connect driver c).0 (connect driver c).1
  unfolding connect
  connect-Quiet c =
      let (l, a, s) = disconnect-log c in
      let (m, b) = with_handle-log (disconnect driver c) in
      let (n, q) =
        charset-Quiet c.conf.charset (with_handle driver (disconnect driver c)) (b ∙ a) in
      (n ∙ m ∙ l, q)
