-- ===== src/External/Authorized.antt =====
-- When a submission is only answered from what is stored.
use safeops.Prelude.{true, false, ◌≡◌, refl, ◌==◌, some, str_eq, find}
use safeops.Json.{Fields}
use safeops.Model.Uuid.{Uuid}
use safeops.Model.Enums.{ExternalActionStatus}
use safeops.Model.Rows.{Agent, ExternalActionRequest}
use safeops.Model.Db.{Db}
use safeops.Exec.{returned, raised, ◌>>=◌}
use safeops.Gateway.Tooling.{Registry}
use safeops.Planner.{Planner}
use safeops.Runtime.Advance.{Settings}
use safeops.External.Request.{
  SubmitActionRequest, Digest, normalize_sources, canonical_payload, is_terminal,
  to_action_response, find_existing,
}
use safeops.External.Entry.{
  is_mapped, idempotency_conflict, require_agent_mapping, check_hash_or_conflict, resolve_existing,
  replay, submit,
}

module _ {W : Type 0} (registry : Registry W) (planner : Planner) (settings : Settings) where
  resolve-terminal :
      (e : ExternalActionRequest) (args : Fields) (sources : _) (db : Db W)
      → is_terminal e.status ≡ true
      → resolve_existing registry planner settings e args sources db
        ≡ (returned (to_action_response e), db)
  unfolding resolve_existing ◌>>=◌
  resolve-terminal e args sources db t = go e.status refl t
    where
      go :
          (s : ExternalActionStatus)
          → e.status ≡ s
          → is_terminal s ≡ true
          → resolve_existing registry planner settings e args sources db
            ≡ (returned (to_action_response e), db)
      go ExternalActionStatus.executed eq h = rw eq refl
      go ExternalActionStatus.blocked eq h = rw eq refl
      go ExternalActionStatus.failed eq h = rw eq refl
      go s eq h = absurd (cc)

  -- A mapped operator who submits under a request id that is stored: with another payload than the
  -- stored one the submission raises IDEMPOTENCY_CONFLICT; with the same payload, for a request that
  -- has come to its end, it returns the stored answer. Neither changes anything.
  pub submit-stored :
      (digest : Digest) (operator_id : Uuid) (r : SubmitActionRequest) (db : Db W) (agent : Agent)
      (e : ExternalActionRequest)
      → find (λ (a : Agent). a.id == r.safeops_agent_id) db.agents ≡ some agent
      → is_mapped operator_id r.safeops_agent_id db.mappings ≡ true
      → find_existing operator_id r.external_request_id db.externals ≡ some e
      → (str_eq e.payload_hash (digest (canonical_payload r)) ≡ false
          → submit registry planner settings digest operator_id r db
            ≡ (raised idempotency_conflict, db))
        × (str_eq e.payload_hash (digest (canonical_payload r)) ≡ true
            → is_terminal e.status ≡ true
            → submit registry planner settings digest operator_id r db
              ≡ (returned (to_action_response e), db))
  unfolding submit require_agent_mapping replay check_hash_or_conflict ◌>>=◌
  submit-stored digest operator_id r db agent e known mapped stored = (
    λ other. rw (known, mapped, stored, other) refl,
    λ same ended.
        rw (known, mapped, stored, same)
          (resolve-terminal e r.arguments (normalize_sources r.sources) db ended),
  )
