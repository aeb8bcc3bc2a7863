-- ===== src/Database/Sample.antt =====
-- A database of one table by its rows, with times in microseconds.
use pdu_session_sim.Common.{
  ℕ, ◌*◌, ◌/◌, ◌≡◌, refl, List, [], ◌∷◌, ◌++◌, map, Option, none, some, Option-cases, Text, text,
  text_eq, Result, ok, err, Map, lookup, insert, lookup-insert, lookup-insert_self, ==_iff, inl,
  inr, arith,
}
use pdu_session_sim.Database.{
  Value, null, string, Statement, insert_into, update_where, select_where, no_row, Pool, Row,
  assign, keep, IsTable,
}

abbrev pub micros : ℕ → ℕ
micros t = t / 1000 * 1000

abbrev pub Table : Type 0
Table = Map Text Row

abbrev pub key_of : Value → Text
key_of (string id) = id
key_of _ = []

abbrev pub no_values : Row
no_values column = null

-- The last argument, and those before it.
unfoldable pub split_last : List Value → List Value × Text
split_last [] = ([], [])
split_last (arg ∷ rest) =
    let (front, last) = split_last rest in
    elim rest [ [] ↦ ([], key_of arg) | _ ∷ _ ↦ (arg ∷ front, last) ]

pub split_last-append :
    (args : List Value) (id : Text) → split_last (args ++ (string id ∷ [])) ≡ (args, id)
unfolding split_last
split_last-append [] id = refl
split_last-append (arg ∷ []) id = refl
split_last-append (arg ∷ other ∷ rest) id = ground (arith, split_last-append (other ∷ rest) id)

module _ (table key : Text) where
  unfoldable pub table_exec : Statement → List Value → Table → Table × Option Text
  unfolding lookup insert split_last
  table_exec (insert_into name columns) args d =
      let id = key_of (assign columns args no_values key) in
      elim (lookup id d) [
        | some _ ↦ (d, some (text "duplicate key value violates unique constraint"))
        | none ↦ (insert id (assign columns (map (keep micros) args) no_values) d, none)
      ]
  table_exec (update_where name columns by) args d =
      let (front, id) = split_last args in
      elim (lookup id d) [
        | none ↦ (d, none)
        | some r ↦ (insert id (assign columns (map (keep micros) front) r) d, none)
      ]
  table_exec _ args d = (d, none)

  abbrev pub no_rows : Text
  no_rows = text "no rows in result set"

  unfoldable pub table_query_row : Statement → List Value → Table → Result (List Value)
  unfolding lookup
  table_query_row (select_where columns name by) (string id ∷ []) d = elim (lookup id d) [
    | none ↦ err no_rows
    | some r ↦ ok (map r columns)
  ]
  table_query_row _ args d = err no_rows

  abbrev pub table_pool : Pool Table
  table_pool = record {
    exec = table_exec;
    query_row = table_query_row;
    query = λ statement args d. ok no_row;
    scan_error = λ values. text "cannot scan";
  }

  -- The table of the rows.
  unfoldable pub sample_table : (schema : List Text) → IsTable micros table_pool table key schema
  unfolding table_exec table_query_row
  sample_table schema = record {
    found = lookup;
    missing = λ id. no_rows;
    inserted = λ columns args id d named at done. (
      no_values,
      ground (
        arith,
        at,
        done,
        lookup-insert_self id (assign columns (map (keep micros) args) no_values) d,
      ),
    );
    inserted_other = λ columns args id other d at ne. ground (
      arith,
      at,
      ==_iff id other,
      lookup-insert id other (assign columns (map (keep micros) args) no_values) d,
    );
    updated = λ columns args id d r named keyless at done. ground (
      arith,
      at,
      split_last-append args id,
      lookup-insert_self id (assign columns (map (keep micros) args) r) d,
    );
    updated_other = λ columns args id other d keyless ne. elim (Option-cases (lookup id d)) [
      | inl missing ↦ ground (arith, missing, split_last-append args id)
      | inr (r, at) ↦ ground (
        arith,
        at,
        split_last-append args id,
        ==_iff id other,
        lookup-insert id other (assign columns (map (keep micros) args) r) d,
      )
    ];
    selected = λ columns id d r named at. ground (arith, at);
    selected_none = λ columns id d named at. ground (arith, at);
  }
