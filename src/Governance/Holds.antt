-- ===== src/Governance/Holds.antt =====
-- The methods of runtime/governance.py on legal holds.
use prodkit_control.Prelude.{ℕ, String, Bool, true, false, not, none, some, text_eq}
use prodkit_control.Prelude.Dict.{find, put}
use prodkit_control.Prelude.Result.{
  Result, ok, err, Call, ◌>>=◌, ◌>>◌, pure, raise_if, authorization_denied, key_error, value_error,
}
use prodkit_control.Contracts.Work.{is_some}
use prodkit_control.Contracts.Tenancy.{TenantAccessContext, TenantCapability}
use prodkit_control.Contracts.Changes.{
  critical, GovernanceTargetType, GovernanceChangeRequest, named, nothing, legal_hold_placed,
  legal_hold_released,
}
use prodkit_control.Governance.Store.{
  Environment, Store, Key, Key_discrete, gets, now, require, record_event,
}
use prodkit_control.Governance.Proposals.{approved_request, mark_applied, propose_change}
use prodkit_control.Contracts.Retention.{LegalHold, released, is_held_open}

unfoldable pub put_hold : Key → LegalHold → Call Store (Unit {0})
put_hold k h s = (ok tt, record s { holds = put Key_discrete k h s.holds })

unfoldable pub open_or_missing : LegalHold → Result LegalHold
open_or_missing h = elim (is_held_open h.status) [ true ↦ ok h | false ↦ err key_error ]

-- the active hold of a key; a released one raises as a missing one does
unfoldable pub find_open : String → ℕ → Store → Result LegalHold
find_open tenant_id hold_id s = elim (find Key_discrete (tenant_id, hold_id) s.holds) [
  | none ↦ err key_error
  | some h ↦ open_or_missing h
]

unfoldable pub has_hold : Key → Store → Result Bool
has_hold k s = ok (is_some (find Key_discrete k s.holds))

-- the copy of a hold that its release writes
abbrev pub released_copy : LegalHold → TenantAccessContext → ℕ → ℕ → LegalHold
released_copy h context request_id at = record h {
  status = released;
  released_at = some at;
  released_by = some context.actor;
  release_change_request_id = some request_id;
}

module _ (g : Environment) where
  unfoldable pub place_legal_hold : TenantAccessContext → LegalHold → Call Store LegalHold
  place_legal_hold context hold =
      require g context TenantCapability.legal_hold
      >> raise_if (not (text_eq hold.tenant_id context.tenant_id)) authorization_denied
      >> raise_if (not (is_held_open hold.status)) value_error
      >> gets (has_hold (context.tenant_id, hold.hold_id))
      >>= λ known. raise_if known value_error >>= λ _.
          put_hold (context.tenant_id, hold.hold_id) hold
          >> record_event g context hold.placed_at (record {
            event_type = legal_hold_placed;
            request_id = none;
            target_type = none;
            target_id = named (g.text_of hold.hold_id);
            before_digest = none;
            after_digest = none;
            reason = hold.reason;
            ticket_reference = some hold.case_reference;
            attributes = nothing;
          })
          >> pure hold

  unfoldable pub propose_legal_hold_release :
      TenantAccessContext → ℕ → String → String → Call Store GovernanceChangeRequest
  propose_legal_hold_release context hold_id reason ticket =
      require g context TenantCapability.configure
      >> gets (find_open context.tenant_id hold_id)
      >> propose_change g context GovernanceTargetType.legal_hold_release (g.text_of hold_id)
          (g.release_digest context.tenant_id hold_id) critical reason ticket none

  unfoldable pub release_legal_hold : TenantAccessContext → ℕ → ℕ → Call Store LegalHold
  release_legal_hold context hold_id request_id =
      require g context TenantCapability.legal_hold >> now g >>= λ at.
      gets (find_open context.tenant_id hold_id) >>= λ hold.
      approved_request context.tenant_id request_id GovernanceTargetType.legal_hold_release
        (g.text_of hold_id) (g.release_digest context.tenant_id hold_id) none
      >>= λ r.
          put_hold (context.tenant_id, hold_id) (released_copy hold context request_id at)
          >> mark_applied r at
          >> record_event g context at (record {
            event_type = legal_hold_released;
            request_id = some request_id;
            target_type = some GovernanceTargetType.legal_hold_release;
            target_id = named (g.text_of hold_id);
            before_digest = none;
            after_digest = some (g.release_digest context.tenant_id hold_id);
            reason = r.reason;
            ticket_reference = some r.ticket_reference;
            attributes = nothing;
          })
          >> pure (released_copy hold context request_id at)
