-- ===== src/Smf/Db/Postgres/Laws.antt =====
-- The store in PostgreSQL keeps the laws of the interface.
use pdu_session_sim.Common.{
  ℕ, ◌≡◌, refl, sym, ◌∙◌, List, [], ◌∷◌, ◌++◌, map, none, some, Option-cases, true, false, Text,
  text, text_eq, text_beq, ok, err, inl, inr, arith,
}
use pdu_session_sim.Database.{
  Value, string, time, Pool, Row, assign, keep, IsTable, update_where, all_in, is_in,
}
use pdu_session_sim.Models.{PduSession}
use pdu_session_sim.Smf.Db.Interface.{Updates, IsRepository}
use pdu_session_sim.Smf.Db.Postgres.{
  sessions_table, key_column, session_columns, scan_session, postgres, save_session, get_session,
  update_session_status, update_session_status_with_reason, update_session_status_and_ip,
}

abbrev columns_of : Row → List Value
columns_of r = map r session_columns

module _ {D : Type 0} {kept : ℕ → ℕ} (pool : Pool D)
    (t : IsTable kept pool sessions_table key_column session_columns) where
  get_session_of_row :
      (ref : Text) (d : D) (r : Row)
      → t.found ref d ≡ some r
      → get_session pool ref d ≡ scan_session pool.scan_error (columns_of r)
  unfolding get_session text_beq
  get_session_of_row ref d r at = ground (arith, t.selected session_columns ref d r refl at)

  saved-get_session :
      (now : ℕ) (s : PduSession) (d : D)
      → (save_session pool now s d).1 ≡ none
      → get_session pool s.sm_context_ref (save_session pool now s d).0
        ≡ ok (record s { created_at = kept now; updated_at = kept now })
  unfolding save_session text_beq
  saved-get_session now s d done =
      let (fresh, at) = t.inserted session_columns _ s.sm_context_ref d refl refl done in
      get_session_of_row s.sm_context_ref _ _ at

  get_session-missing :
      (ref : Text) (d : D) → t.found ref d ≡ none → get_session pool ref d ≡ err (t.missing ref)
  unfolding get_session text_beq
  get_session-missing ref d at = ground (arith, t.selected_none session_columns ref d refl at)

  -- What a reference finds depends on its row alone.
  get_session-same :
      (ref : Text) (d d' : D)
      → t.found ref d' ≡ t.found ref d
      → get_session pool ref d' ≡ get_session pool ref d
  get_session-same ref d d' same = elim (Option-cases (t.found ref d)) [
    | inl missing ↦
        get_session-missing ref d' (same ∙ missing) ∙ sym (get_session-missing ref d missing)
    | inr (r, at) ↦ get_session_of_row ref d' r (same ∙ at) ∙ sym (get_session_of_row ref d r at)
  ]

  -- An update of some columns that every session's row takes as a change of the session.
  Changes : List Text → List Value → (PduSession → PduSession) → Type 0
  Changes columns args change =
      (r : Row) (s : PduSession)
      → scan_session pool.scan_error (columns_of r) ≡ ok s
      → scan_session pool.scan_error (columns_of (assign columns (map (keep kept) args) r))
        ≡ ok (change s)

  update_where-Updates :
      (ref : Text) (columns : List Text) (args : List Value) (change : PduSession → PduSession)
      → all_in columns session_columns ≡ true
      → is_in key_column columns ≡ false
      → Changes columns args change
      → Updates
          (postgres pool)
          ref
          change
          (pool.exec (update_where sessions_table columns key_column) (args ++ (string ref ∷ [])))
  unfolding Changes
  update_where-Updates ref columns args change named keyless changes = record {
    changed = λ d s has done. elim (Option-cases (t.found ref d)) [
      | inl missing ↦ absurd (ground (arith, has, get_session-missing ref d missing))
      | inr (r, at) ↦
          get_session_of_row ref _ _ (t.updated columns args ref d r named keyless at done)
          ∙ changes r s (sym (get_session_of_row ref d r at) ∙ has)
    ];
    kept = λ d other ne.
        get_session-same other _ _ (t.updated_other columns args ref other d keyless ne);
  }

  status-Changes :
      (status : Text) (now : ℕ)
      → Changes
          (text "status" ∷ text "updated_at" ∷ [])
          (string status ∷ time now ∷ [])
          (λ s. record s { status = status; updated_at = kept now })
  unfolding Changes text_beq
  status-Changes status now r s has = ground (arith, has)

  reason-Changes :
      (status reason : Text) (now : ℕ)
      → Changes
          (text "status" ∷ text "failure_reason" ∷ text "updated_at" ∷ [])
          (string status ∷ string reason ∷ time now ∷ [])
          (λ s. record s { status = status; failure_reason = reason; updated_at = kept now })
  unfolding Changes text_beq
  reason-Changes status reason now r s has = ground (arith, has)

  ip-Changes :
      (status ip : Text) (now : ℕ)
      → Changes
          (text "status" ∷ text "ip_address" ∷ text "updated_at" ∷ [])
          (string status ∷ string ip ∷ time now ∷ [])
          (λ s. record s { status = status; ip_address = ip; updated_at = kept now })
  unfolding Changes text_beq
  ip-Changes status ip now r s has = ground (arith, has)

  -- Over a pool that answers its selections and whose table of sessions, with the columns that the source
  -- names, keeps what its statements set, with times up to the precision of the database: the store in
  -- PostgreSQL is a repository, by the same laws as the one in memory.
  pub postgres-IsRepository : IsRepository kept (postgres pool)
  unfolding save_session update_session_status update_session_status_with_reason
      update_session_status_and_ip text_beq
  postgres-IsRepository = record {
    saved = saved-get_session;
    saved_other = λ now s d other ne.
        get_session-same other _ _
          (t.inserted_other session_columns _ s.sm_context_ref other d refl ne);
    status_updates = λ ref status now.
        update_where-Updates ref _ (string status ∷ time now ∷ []) _ refl refl
          (status-Changes status now);
    reason_updates = λ ref status reason now.
        update_where-Updates ref _ (string status ∷ string reason ∷ time now ∷ []) _ refl refl
          (reason-Changes status reason now);
    ip_updates = λ ref status ip now.
        update_where-Updates ref _ (string status ∷ string ip ∷ time now ∷ []) _ refl refl
          (ip-Changes status ip now);
  }
