-- ===== src/Smf/Db/Interface.antt =====
-- `SessionRepository` of internal/smf/db.go, and what its clients rely on. A method that the source
-- lets return an `error` returns the message, or `none`.
use pdu_session_sim.Common.{ℕ, ◌≡◌, ◌≢◌, List, Option, none, Text, Result, ok, Map}
use pdu_session_sim.Models.{PduSession}

pub record Counts : Type 0 where
  pub active : ℕ
  pub pending : ℕ
  pub failed : ℕ

pub record SessionRepository (R : Type 0) : Type 0 where
  pub save : ℕ → PduSession → R → R × Option Text
  pub get : Text → R → Result PduSession
  pub update_status : Text → Text → ℕ → R → R × Option Text
  pub update_status_with_reason : Text → Text → Text → ℕ → R → R × Option Text
  pub update_status_and_ip : Text → Text → Text → ℕ → R → R × Option Text
  pub all : R → Result (List PduSession)
  pub by_status : R → Counts
  pub by_failure_reason : R → Map Text ℕ

-- An update under a reference: where it reports no error a session that was there is changed, and
-- no session under another reference is touched.
pub record Updates {R : Type 0} (repo : SessionRepository R) (ref : Text)
    (change : PduSession → PduSession) (op : R → R × Option Text) : Type 0 where
  pub changed :
      (r : R) (s : PduSession)
      → repo.get ref r ≡ ok s
      → (op r).1 ≡ none
      → repo.get ref (op r).0 ≡ ok (change s)
  pub kept : (r : R) (other : Text) → ref ≢ other → repo.get other (op r).0 ≡ repo.get other r

-- The laws of a store that keeps times up to its precision.
pub record IsRepository {R : Type 0} (kept : ℕ → ℕ) (repo : SessionRepository R) : Type 0 where
  pub saved :
      (now : ℕ) (s : PduSession) (r : R)
      → (repo.save now s r).1 ≡ none
      → repo.get s.sm_context_ref (repo.save now s r).0
        ≡ ok (record s { created_at = kept now; updated_at = kept now })
  pub saved_other :
      (now : ℕ) (s : PduSession) (r : R) (other : Text)
      → s.sm_context_ref ≢ other
      → repo.get other (repo.save now s r).0 ≡ repo.get other r
  pub status_updates :
      (ref status : Text) (now : ℕ)
      → Updates repo ref
          (λ s. record s { status = status; updated_at = kept now })
          (repo.update_status ref status now)
  pub reason_updates :
      (ref status reason : Text) (now : ℕ)
      → Updates repo ref
          (λ s. record s { status = status; failure_reason = reason; updated_at = kept now })
          (repo.update_status_with_reason ref status reason now)
  pub ip_updates :
      (ref status ip : Text) (now : ℕ)
      → Updates repo ref
          (λ s. record s { status = status; ip_address = ip; updated_at = kept now })
          (repo.update_status_and_ip ref status ip now)

-- A store that reports no error where the session is there, and saves every session.
pub record IsReliable {R : Type 0} (repo : SessionRepository R) : Type 0 where
  pub saves : (now : ℕ) (s : PduSession) (r : R) → (repo.save now s r).1 ≡ none
  pub updates_reason :
      (ref status reason : Text) (now : ℕ) (r : R) (s : PduSession)
      → repo.get ref r ≡ ok s
      → (repo.update_status_with_reason ref status reason now r).1 ≡ none
  pub updates_ip :
      (ref status ip : Text) (now : ℕ) (r : R) (s : PduSession)
      → repo.get ref r ≡ ok s
      → (repo.update_status_and_ip ref status ip now r).1 ≡ none
