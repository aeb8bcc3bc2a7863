-- ===== src/System/Core/Calls.antt =====
-- A call of the PFCP client leaves the active sessions backed by the UPF
-- (`SendSessionEstablishmentRequest` of internal/smf/pfcp_client.go).
use pdu_session_sim.Common.{
  ℕ, ◌+◌, ◌<◌, ◌≤◌, ◌≡◌, ◌^◌, inl, inr, refl, sym, ap, subst, ◌∙◌, List, ◌++◌, Option-cases, ok,
  Result-cases, arith,
}
use pdu_session_sim.Pfcp.{encode_request}
use pdu_session_sim.Smf.Concurrent.Places.{set_self, set_other}
use pdu_session_sim.Smf.Concurrent.Service.{Worker, busy, set}
use pdu_session_sim.Smf.Concurrent.Stages.{
  Stage, activating, waiting, failing, pfcp_error, begin_call, end_call,
}
use pdu_session_sim.Smf.Db.Interface.{SessionRepository}
use pdu_session_sim.Smf.Orchestrator.State.{Job, Surroundings}
use pdu_session_sim.Smf.Orchestrator.Task.{prefix_error}
use pdu_session_sim.Smf.PfcpClient.{
  PfcpClient, next_seq, register, unregister, await, rejected, timed_out,
}
use pdu_session_sim.Smf.PfcpClient.Correlation.{seq_of}
use pdu_session_sim.System.Core.{WasSent, written}
use pdu_session_sim.System.Core.Client.{
  Correlated, Correlated-imp, next_seq-Correlated, register-Correlated, unregister-Correlated,
}
use pdu_session_sim.System.Core.Moves.{written-after_outcome, await-held, moved-Sound}
use pdu_session_sim.System.Core.Table.{Stored}
use pdu_session_sim.System.Core.Sound.{Log, Backs, AtStage, Sound, Extends}
use pdu_session_sim.Upf.{Server}

module _ {R : Type 0} (repo : SessionRepository R) (log : Log) (upf : Server)
    (to_upf to_smf : List (List ℕ)) (workers : ℕ → Worker) (c : PfcpClient) (store : R)
    (sound : Sound repo log c upf to_upf to_smf workers store) (env : Surroundings) (i : ℕ)
    (job : Job) where
  -- After a client's step, what holds of all.
  abbrev pub SoundAfter : PfcpClient × Stage → Type 0
  SoundAfter (c', following) =
      (log' : Log) × Sound repo log' c' upf (written following ++ to_upf) to_smf
        (set workers i (busy job following)) store

  abbrev new_seq : ℕ
  new_seq = (next_seq c).seq_counter

  new_seq_lem : c.seq_counter + 1 < 2 ^ 32 → new_seq ≡ c.seq_counter + 1
  unfolding next_seq
  new_seq_lem small = omega arith

  -- The job's address under a new number.
  abbrev issue : (ℕ → ℕ) → Log
  issue owner = record { issued = set log.issued new_seq job.ip_address; owner = owner }

  issue-Extends :
      (owner : ℕ → ℕ) (c' : PfcpClient)
      → c'.seq_counter ≡ c.seq_counter + 1
      → c.next_channel ≤ c'.next_channel
      → new_seq ≡ c.seq_counter + 1
      → ((ch : ℕ) → ch < c.next_channel → owner ch ≡ log.owner ch)
      → Extends log c upf (issue owner) c' upf
  issue-Extends owner c' counted more is_new same_owner =
      let issued_same : (seq : ℕ)
          → seq ≤ c.seq_counter
          → set log.issued new_seq job.ip_address seq ≡ log.issued seq =
        λ seq below.
          set_other log.issued new_seq seq job.ip_address (λ e. omega (arith, e, below, is_new)) in
      record {
        counted = omega (arith, counted);
        more_channels = more;
        same_issued = issued_same;
        same_owner = same_owner;
        still_backs = λ seq (below, stored). (
          omega (arith, below, counted),
          subst (Stored upf seq) (sym (issued_same seq below)) stored,
        );
      }

  begun-Sound :
      (owner : ℕ → ℕ) (c' : PfcpClient) (following : Stage)
      → c.seq_counter + 1 < 2 ^ 32
      → c'.seq_counter ≡ new_seq
      → c.next_channel ≤ c'.next_channel
      → ((ch : ℕ) → ch < c.next_channel → owner ch ≡ log.owner ch)
      → Correlated (Backs log c upf) owner c'
      → AtStage (issue owner) c' upf job following
      → ((bytes : List ℕ)
          → WasSent bytes (written following)
          → encode_request 50 new_seq job.ip_address ≡ ok bytes)
      → SoundAfter (c', following)
  begun-Sound owner c' following small counted more same_owner client at request =
      let is_new = new_seq_lem small in
      let ext = issue-Extends owner c' (omega (arith, counted, is_new)) more is_new same_owner in
      (
        issue owner,
        moved-Sound repo log c upf to_upf to_smf workers store sound i job (issue owner) c' store
            following ext (omega (arith, small, counted, is_new))
            (Correlated-imp c' ext.still_backs client) at
            (λ bytes sent. (
              new_seq,
              omega (arith, counted),
              subst (λ ip. encode_request 50 new_seq ip ≡ ok bytes)
                  (sym (set_self log.issued new_seq job.ip_address)) (request bytes sent),
            ))
            sound.backed,
      )

  -- The number that a new channel is made for.
  abbrev new_owner : ℕ → ℕ
  new_owner = set log.owner c.next_channel new_seq

  new_owner_same : (ch : ℕ) → ch < c.next_channel → new_owner ch ≡ log.owner ch
  new_owner_same ch below =
      set_other log.owner c.next_channel ch new_seq (λ e. omega (arith, e, below))

  abbrev registered : PfcpClient
  registered = register new_seq (next_seq c)

  registered-Correlated : Correlated (Backs log c upf) new_owner registered
  unfolding next_seq
  registered-Correlated =
      register-Correlated new_seq (next_seq c) (next_seq-Correlated c sound.client)

  pub begin_call-Sound : c.seq_counter + 1 < 2 ^ 32 → SoundAfter (begin_call env job.ip_address c)
  unfolding begin_call next_seq register unregister
  begin_call-Sound small =
      let is_new = new_seq_lem small in
      elim (Result-cases (encode_request 50 new_seq job.ip_address)) [
        | inl (e, refused) ↦
            rw (refused, begin_call)
              (begun-Sound log.owner (next_seq c) (failing (pfcp_error ++ e)) small refl
                (omega arith) (λ ch below. refl) (next_seq-Correlated c sound.client) tt
                (λ bytes sent. absurd sent))
        | inr (bytes, encoded) ↦ elim (Option-cases (env.exchange bytes).write_error) [
          | inr (e, unwritten) ↦
              rw (encoded, unwritten, begin_call)
                (begun-Sound new_owner (unregister new_seq registered) (failing (pfcp_error ++ e))
                  small refl (omega arith) new_owner_same
                  (unregister-Correlated new_seq registered registered-Correlated) tt
                  (λ other sent. absurd sent))
          | inl written_out ↦
              rw (encoded, written_out, begin_call)
                (begun-Sound new_owner registered (waiting bytes new_seq c.next_channel) small refl
                  (omega arith) new_owner_same registered-Correlated
                  (
                    omega arith,
                    set_self log.issued new_seq job.ip_address,
                    set_self log.owner c.next_channel new_seq,
                    omega arith,
                  )
                  (λ other sent. ground (arith, sent, encoded)))
        ]
      ]

  pub end_call-Sound :
      (bytes : List ℕ) (seq ch : ℕ)
      → AtStage log c upf job (waiting bytes seq ch)
      → SoundAfter (end_call env bytes seq ch c)
  unfolding end_call unregister
  end_call-Sound bytes seq ch (below, ip, own, made) = (
    log,
    moved-Sound repo log c upf to_upf to_smf workers store sound i job log (unregister seq c) store
        (end_call env bytes seq ch c).1
        (record {
          counted = omega arith;
          more_channels = omega arith;
          same_issued = λ k low. refl;
          same_owner = λ k low. refl;
          still_backs = λ k b. b;
        })
        sound.small (unregister-Correlated seq c sound.client)
        (elim (Result-cases (await rejected timed_out (env.exchange bytes).expired ch c)) [
          | inl (e, failed) ↦ rw failed tt
          | inr (res, yields) ↦
              let (same, backs) =
                sound.client.held ch res
                  (await-held rejected timed_out (env.exchange bytes).expired ch c res yields) in
              rw yields (seq_of res, ap log.issued (sym same ∙ own) ∙ ip, backs)
        ])
        (λ other sent. absurd (
          subst (WasSent other)
            (written-after_outcome activating
              (prefix_error pfcp_error (await rejected timed_out (env.exchange bytes).expired ch c))
              refl)
            sent))
        sound.backed,
  )
