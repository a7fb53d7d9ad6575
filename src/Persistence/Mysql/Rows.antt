-- ===== src/Persistence/Mysql/Rows.antt =====
-- The rows that `queryRecord` returns (presistence/MyDatabase.cc).
use echo_frame.Base.{
  ℕ, ◌≤◌, ◌≡◌, refl, sym, ap, ◌∙◌, Bool, true, false, Option, none, some, List, [], ◌∷◌, arith,
  length, if◌then◌else◌, Bool-cases, inl, inr,
}
use echo_frame.Util.Text.{Text}
use echo_frame.Util.PropertyTree.{text_eq, text_lt}
use echo_frame.Util.PropertyTree.Lookup.{text_eq_sound}
use echo_frame.Persistence.Names.{entry, assign}
use echo_frame.Persistence.Names.Order.{or_else, or_else-none, text_eq_other, or_else_assoc}
use echo_frame.Persistence.Mysql.{
  QueryResult, Driver, ok, DcMysql, Record, row_map, all_rows, execute, query_record, text_or,
}

entry-assign :
    (j k w : Text) (m : Record)
    → entry j (assign k w m) ≡ (if text_eq k j then some w else entry j m)
unfolding entry assign
entry-assign j k w [] = refl
entry-assign j k w ((i, v) ∷ m) = elim (Bool-cases (text_eq i k)) [
  | inl same ↦
      rw (same, text_eq_sound i k same)
        elim (Bool-cases (text_eq k j)) [ inl e ↦ rw (e) refl | inr e ↦ rw (e) refl ]
  | inr other ↦ elim (Bool-cases (text_lt k i)) [
    | inl before ↦ rw (other, before) refl
    | inr behind ↦
        rw (other, behind)
          elim (Bool-cases (text_eq k j)) [
            | inl e ↦ rw (text_eq_other i k j other e, e) (entry-assign j k w m ∙ rw (e) refl)
            | inr e ↦ rw (e) elim (Bool-cases (text_eq i j)) [
              | inl f ↦ rw (f) refl
              | inr f ↦ rw (f) (entry-assign j k w m ∙ rw (e) refl)
            ]
          ]
  ]
]

-- The value of a row under a name, a null as the empty string: where several fields have the name,
-- the last one's.
unfoldable pub column : Text → List Text → List (Option Text) → Option Text
column f [] row = none
column f (g ∷ gs) [] = none
column f (g ∷ gs) (v ∷ vs) =
    or_else (column f gs vs) (if text_eq g f then some (text_or v) else none)

if_some :
    (b : Bool) (v : Text) (o : Option Text)
    → (if b then some v else o) ≡ or_else (if b then some v else none) o
if_some true v o = refl
if_some false v o = refl

row_map-column :
    (fields : List Text) (row : List (Option Text)) (m : Record)
    → length fields ≤ length row
    → (r : Record) × (row_map fields row m ≡ some r)
      × ((f : Text) → entry f r ≡ or_else (column f fields row) (entry f m))
unfolding row_map column
row_map-column [] row m h = (m, refl, λ f. refl)
row_map-column (g ∷ gs) [] m h = absurd (omega arith)
row_map-column (g ∷ gs) (v ∷ vs) m h =
    let (r, e, p) = row_map-column gs vs (assign g (text_or v) m) (omega arith) in
    (
      r,
      e,
      λ f.
          p f
          ∙ ap (or_else (column f gs vs))
              (entry-assign f g (text_or v) m ∙ if_some (text_eq g f) (text_or v) (entry f m))
          ∙ sym (or_else_assoc (column f gs vs) _ (entry f m)),
    )

-- The maps that a result's rows become, one for each and in their order.
pub data RowsOf (fields : List Text) : List (List (Option Text)) → List Record → Type 0 where
  no_row : RowsOf fields [] []
  next_row :
      {row : List (Option Text)} {rows : List (List (Option Text))} {r : Record} {rs : List Record}
      → ((f : Text) → entry f r ≡ column f fields row)
      → RowsOf fields rows rs
      → RowsOf fields (row ∷ rows) (r ∷ rs)

-- Every row is as wide as the fields.
pub data Wide (n : ℕ) : List (List (Option Text)) → Type 0 where
  no_wide : Wide n []
  wide :
      {row : List (Option Text)} {rows : List (List (Option Text))}
      → n ≤ length row
      → Wide n rows
      → Wide n (row ∷ rows)

all_rows-RowsOf :
    (fields : List Text) (rows : List (List (Option Text)))
    → Wide (length fields) rows
    → (rs : List Record) × (all_rows fields rows ≡ some rs) × RowsOf fields rows rs
unfolding all_rows entry
all_rows-RowsOf fields [] no_wide = ([], refl, no_row)
all_rows-RowsOf fields (row ∷ rows) (wide h hs) =
    let (r, e, p) = row_map-column fields row [] h in
    let (rs, f, q) = all_rows-RowsOf fields rows hs in
    (r ∷ rs, rw (e, f) refl, next_row (λ k. p k ∙ or_else-none (column k fields row)) q)

-- If the statement is executed and the server has a result whose rows are as wide as its fields,
-- `queryRecord` returns one map for each row in their order, and a map has under each name the
-- value of the last field of that name, a null as the empty string, and no other entry.
pub query_record-RowsOf :
    {W : Type 0} (driver : Driver W) (sql : Text) (q : QueryResult) (c d : DcMysql W) (w : W)
    → execute driver sql c ≡ (ok tt, d)
    → driver.mysql_store_result d.world ≡ (some q, w)
    → Wide (length q.fields) q.rows
    → (rs : List Record) × (e : DcMysql W) × (query_record driver sql c ≡ (ok rs, e))
      × RowsOf q.fields q.rows rs
unfolding query_record
query_record-RowsOf driver sql q c d w e s h =
    let (rs, f, m) = all_rows-RowsOf q.fields q.rows h in
    (rs, record d { world = driver.mysql_free_result w }, rw (e, s, f) refl, m)
