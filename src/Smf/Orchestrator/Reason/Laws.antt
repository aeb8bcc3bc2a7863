-- ===== src/Smf/Orchestrator/Reason/Laws.antt =====
-- `contains` finds exactly the substrings, and each stage's errors have their reason.
use pdu_session_sim.Common.{
  ℕ, zero, suc, ◌+◌, ◌-◌, ◌<◌, ◌≤◌, ◌≡◌, ◌≢◌, ◌↔◌, ◌⊎◌, inl, inr, refl, sym, ap, ◌∙◌, subst, [],
  ◌∷◌, ◌++◌, true, false, ◌||◌, Text, text, text_eq, ◌==◌, ==_iff, length, length-append, take,
  drop, some, Bool-cases, Option-cases, arith,
}
use mathlib.Core.List.{append_assoc}
use mathlib.Core.Bool.{false≢true}
use pdu_session_sim.Smf.Orchestrator.Reason.{
  index_from, index_string, is_found, contains, reason_of, pfcp_timeout, n1n2_failed, db_error,
}

take-drop-middle :
    (before sub after : Text)
    → take (length sub) (drop (length before) (before ++ (sub ++ after))) ≡ sub
take-drop-middle [] [] after = refl
take-drop-middle [] (c ∷ sub) after = ap (◌∷◌ c) (take-drop-middle [] sub after)
take-drop-middle (c ∷ before) sub after = take-drop-middle before sub after

split-take-drop : (i n : ℕ) (s : Text) → take i s ++ (take n (drop i s) ++ drop n (drop i s)) ≡ s
split-take-drop zero zero s = refl
split-take-drop zero (suc n) [] = refl
split-take-drop zero (suc n) (c ∷ s) = ap (◌∷◌ c) (split-take-drop zero n s)
split-take-drop (suc i) zero [] = refl
split-take-drop (suc i) (suc n) [] = refl
split-take-drop (suc i) n (c ∷ s) = ap (◌∷◌ c) (split-take-drop i n s)

-- A position that the loop reports holds the substring.
index_from_sound :
    (rounds i j : ℕ) (s sub : Text)
    → index_from rounds i s sub ≡ some j
    → take (length sub) (drop j s) ≡ sub
unfolding index_from
index_from_sound zero i j s sub e = cc
index_from_sound (suc rounds) i j s sub e =
    ground
      (arith, index_from_sound rounds (i + 1) j s sub, ==_iff (take (length sub) (drop i s)) sub)

-- The loop finds a position if one of its rounds meets the substring.
index_from_complete :
    (rounds i j : ℕ) (s sub : Text)
    → i ≤ j
    → j < i + rounds
    → take (length sub) (drop j s) ≡ sub
    → is_found (index_from rounds i s sub) ≡ true
unfolding index_from
index_from_complete zero i j s sub lo hi e = absurd (omega arith)
index_from_complete (suc rounds) i j s sub lo hi e =
    ground
      (arith, index_from_complete rounds (i + 1) j s sub, ==_iff (take (length sub) (drop i s)) sub)

abbrev pub Occurs : Text → Text → Type 0
Occurs sub s = (before : Text) × (after : Text) × (s ≡ before ++ (sub ++ after))

Occurs-at : (j : ℕ) (s sub : Text) → take (length sub) (drop j s) ≡ sub → Occurs sub s
Occurs-at j s sub e = (
  take j s,
  drop (length sub) (drop j s),
  sym (
      subst (λ t. take j s ++ (t ++ drop (length sub) (drop j s)) ≡ s) e
        (split-take-drop j (length sub) s)),
)

index_string-Occurs : (s sub : Text) → is_found (index_string s sub) ≡ true → Occurs sub s
unfolding index_string
index_string-Occurs s sub h = elim (Option-cases (index_string s sub)) [
  | inl missed ↦ cc
  | inr (j, found) ↦ Occurs-at j s sub (index_from_sound _ 0 j s sub found)
]

append-nil_text : (s : Text) → s ≡ s ++ []
append-nil_text [] = refl
append-nil_text (c ∷ s) = ap (◌∷◌ c) (append-nil_text s)

contains_sound : (s sub : Text) → contains s sub ≡ true → Occurs sub s
unfolding contains
contains_sound s [] h = ([], s, refl)
contains_sound s (c ∷ sub) h = elim (Bool-cases (s == (c ∷ sub))) [
  | inl same ↦ ([], [], (==_iff s (c ∷ sub)).0 same ∙ append-nil_text (c ∷ sub))
  | inr other ↦ index_string-Occurs s (c ∷ sub) (ground arith)
]

contains_complete : (before sub after : Text) → contains (before ++ (sub ++ after)) sub ≡ true
unfolding contains index_string
contains_complete before sub after = ground (
  arith,
  length-append before (sub ++ after),
  length-append sub after,
  index_from_complete (length (before ++ (sub ++ after)) + 1 - length sub) 0 (length before)
      (before ++ (sub ++ after)) sub (omega arith)
      (omega (arith, length-append before (sub ++ after), length-append sub after))
      (take-drop-middle before sub after),
)

-- `contains` tells exactly whether the second text occurs in the first.
pub contains_iff : (s sub : Text) → (contains s sub ≡ true) ↔ Occurs sub s
contains_iff s sub =
    (contains_sound s sub, λ (before, after, e). rw e (contains_complete before sub after))

-- The test for the longer PFCP text adds nothing to the one for the shorter.
pfcp_in_timeout :
    (e : Text)
    → contains e (text "PFCP") ≡ false
    → contains e (text "timeout waiting for PFCP") ≡ false
pfcp_in_timeout e h = elim (Bool-cases (contains e (text "timeout waiting for PFCP"))) [
  | inl yes_timeout ↦
      let (before, after, s) = (contains_iff e (text "timeout waiting for PFCP")).0 yes_timeout in
      let split : Occurs (text "PFCP") e = (
        before ++ text "timeout waiting for ",
        after,
        s ∙ sym (append_assoc before (text "timeout waiting for ") (text "PFCP" ++ after)),
      ) in
      let found = (contains_iff e (text "PFCP")).1 split in absurd (false≢true (sym h ∙ found))
  | inr no_timeout ↦ no_timeout
]

-- Every error of the PFCP stage is PFCP_TIMEOUT, a rejection by the UPF and a refused address too.
pub reason_of-pfcp :
    (e : Text) → reason_of (text "PFCP Establishment Request failed: " ++ e) ≡ pfcp_timeout
unfolding reason_of
reason_of-pfcp e =
    ground (arith, contains_complete [] (text "PFCP") (text " Establishment Request failed: " ++ e))

module _ (e : Text) where
  reason_of-n1n2 :
      contains e (text "PFCP") ≡ false
      → contains e (text "N1N2") || contains e (text "AMF responded") ≡ true
      → reason_of e ≡ n1n2_failed
  unfolding reason_of
  reason_of-n1n2 no_pfcp some_n1n2 = ground (arith, pfcp_in_timeout e)

  reason_of-db :
      contains e (text "PFCP") ≡ false
      → contains e (text "N1N2") ≡ false
      → contains e (text "AMF responded") ≡ false
      → contains e (text "database") ≡ true
      → reason_of e ≡ db_error
  unfolding reason_of
  reason_of-db no_pfcp no_n1n2 no_amf some_db = ground (arith, pfcp_in_timeout e)

  -- No error is without a reason.
  pub reason_of-ne-nil : reason_of e ≢ []
  unfolding reason_of
  reason_of-ne-nil = ground arith

-- An error of the N1N2 stage is N1N2_FAILED, unless its text holds PFCP.
pub reason_of-n1n2_stage :
    (said e : Text)
    → (said ≡ text "N1N2 HTTP request failed: ") ⊎ (said ≡ text "AMF responded with error: ")
    → contains (said ++ e) (text "PFCP") ≡ false
    → reason_of (said ++ e) ≡ n1n2_failed
reason_of-n1n2_stage said e (inl s) h = rw s (
    reason_of-n1n2 _ (rw s at h)
      (rw (contains_complete [] (text "N1N2") (text " HTTP request failed: " ++ e))))
reason_of-n1n2_stage said e (inr s) h =
    let found = contains_complete [] (text "AMF responded") (text " with error: " ++ e) in
    rw s (reason_of-n1n2 _ (rw s at h) (ground (arith, found)))

-- An error of the database stage is DB_ERROR, unless its text holds what names another stage.
pub reason_of-database_stage :
    (e : Text)
    → contains (text "database error: " ++ e) (text "PFCP") ≡ false
    → contains (text "database error: " ++ e) (text "N1N2") ≡ false
    → contains (text "database error: " ++ e) (text "AMF responded") ≡ false
    → reason_of (text "database error: " ++ e) ≡ db_error
reason_of-database_stage e no_pfcp no_n1n2 no_amf =
    reason_of-db (text "database error: " ++ e) no_pfcp no_n1n2 no_amf
      (contains_complete [] (text "database") (text " error: " ++ e))
