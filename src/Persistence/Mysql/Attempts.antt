-- ===== src/Persistence/Mysql/Attempts.antt =====
-- How often `execute` sends its statement, and what is left of the client
-- (presistence/MyDatabase.cc).
use echo_frame.Base.{
  ◌≡◌, refl, sym, ap, subst, ◌∙◌, Bool, true, false, List, [], ◌∷◌, ◌++◌, append-nil, append_assoc,
  Bool-cases, inl, inr,
}
use echo_frame.Util.Text.{Text}
use echo_frame.Persistence.Mysql.{
  DcMysqlException, Driver, DbResult, ok, threw, undefined, DcMysql, M, ◌>>=◌, then_with, connect,
  connect_first, query, remember, is_gone, retry, check, execute,
}
use echo_frame.Persistence.Mysql.Retry.{Logs, Connects, stands, fails, connect-Quiet}

module _ {W : Type 0} (driver : Driver W) where
  pub connect_first-is_connected :
      (c : DcMysql W) → c.is_connected ≡ true → connect_first driver c ≡ (ok tt, c)
  unfolding connect_first
  connect_first-is_connected c a = rw (a) refl

  connect_first-connect :
      (c : DcMysql W) → c.is_connected ≡ false → connect_first driver c ≡ connect driver c
  unfolding connect_first
  connect_first-connect c a = rw (a) refl

module _ {W : Type 0} (driver : Driver W) (sql : Text) where
  -- The query of a client fails with the number of a lost connection, or with another number.
  abbrev Fails : Bool → DcMysql W → Type 0
  Fails gone b =
      ((driver.mysql_real_query sql b.world).0 ≡ false)
      × (is_gone (driver.mysql_errno (driver.mysql_real_query sql b.world).1) ≡ gone)

  abbrev Succeeds : Bool → DcMysql W → Type 0
  Succeeds success b = (driver.mysql_real_query sql b.world).0 ≡ success

  -- A client behind its query.
  abbrev behind_query : DcMysql W → DcMysql W
  behind_query b = record b { world = (driver.mysql_real_query sql b.world).1 }

  -- The client is ready for the first query: it was connected or connects, and the statement is kept.
  abbrev Ready : DcMysql W → DcMysql W → Type 0
  Ready c b =
      (r : DcMysql W) × (connect_first driver c ≡ (ok tt, r)) × (b ≡ record r { last_sql = sql })

  -- Behind the first query the client connects again.
  abbrev Reconnects : DcMysql W → DcMysql W → Type 0
  Reconnects b e = connect driver (behind_query b) ≡ (ok tt, e)

  -- What `execute` of a client returns, the client that is left, and the queries that were sent.
  pub data Attempts (c d : DcMysql W) : DbResult (Unit {0}) → List Text → Type 0 where
    unconnected :
        {x : DcMysqlException}
        → c.is_connected ≡ false
        → connect driver c ≡ (threw x, d)
        → d.is_connected ≡ false
        → Attempts c d (threw x) []
    first :
        (b : DcMysql W)
        → Ready c b
        → Succeeds true b
        → d ≡ behind_query b
        → d.is_connected ≡ true
        → Attempts c d (ok tt) (sql ∷ [])
    refused :
        {x : DcMysqlException} (b : DcMysql W)
        → Ready c b
        → Fails false b
        → d ≡ behind_query b
        → d.is_connected ≡ true
        → Attempts c d (threw x) (sql ∷ [])
    cut_off :
        {x : DcMysqlException} (b : DcMysql W)
        → Ready c b
        → Fails true b
        → connect driver (behind_query b) ≡ (threw x, d)
        → d.is_connected ≡ false
        → Attempts c d (threw x) (sql ∷ [])
    second :
        (b e : DcMysql W)
        → Ready c b
        → Fails true b
        → Reconnects b e
        → Succeeds true e
        → d ≡ behind_query e
        → d.is_connected ≡ true
        → Attempts c d (ok tt) (sql ∷ sql ∷ [])
    twice :
        {x : DcMysqlException} (b e : DcMysql W)
        → Ready c b
        → Fails true b
        → Reconnects b e
        → Succeeds false e
        → d ≡ behind_query e
        → d.is_connected ≡ true
        → Attempts c d (threw x) (sql ∷ sql ∷ [])

  abbrev last_check : DbResult Bool → DcMysql W → DbResult (Unit {0}) × DcMysql W
  last_check = then_with (check driver sql)

  -- `execute` behind its first connection, and behind the second one.
  abbrev body : M W (Unit {0})
  body = do
    remembered ← remember sql
    done ← query driver sql
    retried ← retry driver sql done
    check driver sql retried

  abbrev resend : DbResult (Unit {0}) → DcMysql W → DbResult (Unit {0}) × DcMysql W
  resend r d =
      last_check (then_with (λ u. query driver sql) r d).0 (then_with (λ u. query driver sql) r d).1

module _ {W : Type 0} {driver : Driver W} {log : W → List Text} (logs : Logs driver log) where
  -- A result that stands among the attempts, with its queries behind those of the start.
  abbrev Sent : Text → List Text → DcMysql W → DbResult (Unit {0}) → DcMysql W → Type 0
  Sent sql before c r d =
      (sent : List Text) × (log d.world ≡ before ++ sent) × Attempts driver sql c d r sent

  resend-Sent :
      (sql : Text) (before : List Text) (c b : DcMysql W)
      → Ready driver sql c b
      → Fails driver sql true b
      → (r : DbResult (Unit {0})) (e : DcMysql W) → Connects r e
      → connect driver (behind_query driver sql b) ≡ (r, e)
      → log e.world ≡ before ++ (sql ∷ [])
      → Sent sql before c (resend driver sql r e).0 (resend driver sql r e).1
  unfolding query
  resend-Sent sql before c b ready f (ok u) e (stands a) again l =
      let m =
        logs.queried sql e.world
        ∙ ap (λ t. t ++ (sql ∷ [])) l
        ∙ append_assoc before (sql ∷ []) (sql ∷ []) in
      elim (Bool-cases (driver.mysql_real_query sql e.world).0) [
        | inl g ↦ rw (g) (_, m, second b e ready f again g refl a)
        | inr g ↦ rw (g) (_, m, twice b e ready f again g refl a)
      ]
  resend-Sent sql before c b ready f (threw x) e (fails a) again l =
      (_, l, cut_off b ready f again a)
  resend-Sent sql before c b ready f undefined e q again l = elim q [ ]

  body-Sent :
      (sql : Text) (c r : DcMysql W)
      → connect_first driver c ≡ (ok tt, r)
      → r.is_connected ≡ true
      → Sent sql (log r.world) c (body driver sql r).0 (body driver sql r).1
  unfolding query
  body-Sent sql c r start a =
      let b : DcMysql W = record r { last_sql = sql } in
      let ready : Ready driver sql c b = (r, start, refl) in
      let d = behind_query driver sql b in
      let l = logs.queried sql r.world in
      let (m, q) = connect-Quiet logs d in
      elim (Bool-cases (driver.mysql_real_query sql r.world).0) [
        | inl e ↦ rw (e) (_, l, first b ready e refl a)
        | inr e ↦ elim (Bool-cases (is_gone (driver.mysql_errno d.world))) [
          | inl g ↦
              rw (e, g)
                (resend-Sent sql (log r.world) c b ready (e, g) (connect driver d).0
                  (connect driver d).1 q refl (m ∙ l))
          | inr g ↦ rw (e, g) (_, l, refused b ready (e, g) refl a)
        ]
      ]

  first-Sent :
      (sql : Text) (before : List Text) (c : DcMysql W)
      → c.is_connected ≡ false
      → (r : DbResult (Unit {0})) (d : DcMysql W) → Connects r d
      → connect driver c ≡ (r, d)
      → log d.world ≡ before
      → Sent sql before c
          (then_with (λ u. body driver sql) r d).0
          (then_with (λ u. body driver sql) r d).1
  first-Sent sql before c a (ok u) d (stands b) e l =
      subst (λ t. Sent sql t c (body driver sql d).0 (body driver sql d).1) l
        (body-Sent sql c d (connect_first-connect driver c a ∙ e) b)
  first-Sent sql before c a (threw x) d (fails b) e l =
      ([], l ∙ sym (append-nil before), unconnected a e b)
  first-Sent sql before c a undefined d q e l = elim q [ ]

  -- `execute` sends its statement at most twice, and twice only if the first query failed with the
  -- number of a lost connection and the client then connected again, on which connection the second
  -- query is sent. It returns exactly if the last query that was sent succeeded, and throws
  -- otherwise, also where connecting fails. Behind it the client is as the last call left it, and
  -- taken to be connected except where connecting failed.
  pub execute-Sent :
      (sql : Text) (c : DcMysql W)
      → Sent sql (log c.world) c (execute driver sql c).0 (execute driver sql c).1
  unfolding execute
  execute-Sent sql c = elim (Bool-cases c.is_connected) [
    | inl a ↦
        let e = connect_first-is_connected driver c a in
        rw (connect_first-is_connected driver c a) (body-Sent sql c c e a)
    | inr a ↦
        let (l, q) = connect-Quiet logs c in
        rw (connect_first-connect driver c a)
          (first-Sent sql (log c.world) c a (connect driver c).0 (connect driver c).1 q refl l)
  ]
