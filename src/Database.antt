-- ===== src/Database.antt =====
-- What internal/smf/db.go and internal/udm/db.go use of pgx: statements, their arguments and rows. The
-- driver and the database are parameters.
pub mod Driver
pub mod Scan
pub mod Sample
mod Tests
use pdu_session_sim.Common.{
  ℕ, ℤ, ◌≡◌, ◌≢◌, List, [], ◌∷◌, ◌++◌, map, Bool, true, false, ◌||◌, ◌&&◌, Option, none, some, Text,
  text_eq, Result, ok, err, Map, lookup, ◌==◌, if◌then◌else◌,
}

-- A value of a row or an argument. A time is in nanoseconds.
pub data Value : Type 0 where
  null : Value
  string : Text → Value
  integer : ℤ → Value
  time : ℕ → Value

-- A statement is its text by its parts: `COALESCE` of a column with a text, and a column by itself.
pub data Shown : Type 0 where
  coalesce : Text → Text → Shown
  plain : Text → Shown

-- `INSERT INTO table (columns) VALUES ($1, …)`, `UPDATE table SET column = $1, … WHERE key = $n`,
-- `SELECT columns FROM table WHERE key = $1`, `SELECT columns FROM table ORDER BY column DESC LIMIT n`, and
-- `SELECT shown, COUNT(*) FROM table WHERE column IN (texts) GROUP BY column`.
pub data Statement : Type 0 where
  insert_into : Text → List Text → Statement
  update_where : Text → List Text → Text → Statement
  select_where : List Text → Text → Text → Statement
  select_newest : List Text → Text → Text → ℕ → Statement
  select_counts : Shown → Text → Text → List Text → Text → Statement

-- The rows of a query as `Next` yields them: those after a row depend on whether its `Scan` failed.
pub data Rows : Type 0 where
  no_row : Rows
  one_row : List Value → Rows → Rows → Rows

-- A pool of connections to a database in a state `D`: the methods that the source calls, and the error of
-- a `Scan` into destinations that do not fit the values.
pub record Pool (D : Type 0) : Type 0 where
  pub exec : Statement → List Value → D → D × Option Text
  pub query_row : Statement → List Value → D → Result (List Value)
  pub query : Statement → List Value → D → Result Rows
  pub scan_error : List Value → Text

abbrev pub Row : Type 0
Row = Text → Value

-- A row with some columns set, in their order.
abbrev pub assign : List Text → List Value → Row → Row
assign [] args r column = r column
assign (name ∷ names) [] r column = r column
assign (name ∷ names) (arg ∷ args) r column =
    if name == column then arg else assign names args r column

-- A value as a column keeps it.
abbrev pub keep : (ℕ → ℕ) → Value → Value
keep kept null = null
keep kept (string s) = string s
keep kept (integer n) = integer n
keep kept (time t) = time (kept t)

abbrev pub is_in : Text → List Text → Bool
is_in name [] = false
is_in name (column ∷ columns) = name == column || is_in name columns

-- Columns of a table.
abbrev pub all_in : List Text → List Text → Bool
all_in [] schema = true
all_in (name ∷ names) schema = is_in name schema && all_in names schema

-- What the source relies on of a table with a text as its primary key and the columns of a schema, at a
-- pool that answers its selections: a row stands under each key or none does; an insertion or an update of
-- columns of the schema that reports no error sets these columns in its row, where an update leaves the
-- key alone; neither touches another row, even with an error; a selection by the key of columns of the
-- schema yields the row's columns, or an error that depends on the key alone, for no row or for a text
-- that the database refuses.
pub record IsTable {D : Type 0} (kept : ℕ → ℕ) (pool : Pool D) (table key : Text)
    (schema : List Text) : Type 0 where
  pub found : Text → D → Option Row
  pub missing : Text → Text
  pub inserted :
      (columns : List Text) (args : List Value) (id : Text) (d : D)
      → all_in columns schema ≡ true
      → assign columns args (λ column. null) key ≡ string id
      → (pool.exec (insert_into table columns) args d).1 ≡ none
      → (fresh : Row) × (found id (pool.exec (insert_into table columns) args d).0
          ≡ some (assign columns (map (keep kept) args) fresh))
  pub inserted_other :
      (columns : List Text) (args : List Value) (id other : Text) (d : D)
      → assign columns args (λ column. null) key ≡ string id
      → id ≢ other
      → found other (pool.exec (insert_into table columns) args d).0 ≡ found other d
  pub updated :
      (columns : List Text) (args : List Value) (id : Text) (d : D) (r : Row)
      → all_in columns schema ≡ true
      → is_in key columns ≡ false
      → found id d ≡ some r
      → (pool.exec (update_where table columns key) (args ++ (string id ∷ [])) d).1 ≡ none
      → found id (pool.exec (update_where table columns key) (args ++ (string id ∷ [])) d).0
        ≡ some (assign columns (map (keep kept) args) r)
  pub updated_other :
      (columns : List Text) (args : List Value) (id other : Text) (d : D)
      → is_in key columns ≡ false
      → id ≢ other
      → found other (pool.exec (update_where table columns key) (args ++ (string id ∷ [])) d).0
        ≡ found other d
  pub selected :
      (columns : List Text) (id : Text) (d : D) (r : Row)
      → all_in columns schema ≡ true
      → found id d ≡ some r
      → pool.query_row (select_where columns table key) (string id ∷ []) d ≡ ok (map r columns)
  pub selected_none :
      (columns : List Text) (id : Text) (d : D)
      → all_in columns schema ≡ true
      → found id d ≡ none
      → pool.query_row (select_where columns table key) (string id ∷ []) d ≡ err (missing id)
