-- ===== src/Governance/Releases.antt =====
-- The life of a legal hold in runtime/governance.py: how one operation may change it.
use prodkit_control.Prelude.{ℕ, none, some, ◌≡◌}
use prodkit_control.Prelude.Dict.{find}
use prodkit_control.Contracts.Identity.{ActorRef}
use prodkit_control.Contracts.Changes.{GovernanceChangeRequest, GovernanceTargetType, applied}
use prodkit_control.Contracts.Retention.{LegalHold, LegalHoldStatus}
use prodkit_control.Governance.Store.{Environment, Store, Key, Key_discrete}
use prodkit_control.Governance.Machine.{Core, Clocked, IsApproved}

-- What a hold may be after an operation: as it was, or released with an approved request about exactly its
-- release, which the operation spends.
pub data HoldSuccessor (g : Environment) (least : ℕ) (c d : Core) (k : Key) (h q : LegalHold)
    : Type 0 where
  stays : q ≡ h → HoldSuccessor g least c d k h q
  ended :
      (i : ℕ) (r : GovernanceChangeRequest) (by : ActorRef) (at : ℕ)
      → Clocked g least at
      → h.status ≡ LegalHoldStatus.active
      → IsApproved c
          (k.0, i)
          GovernanceTargetType.legal_hold_release
          (g.text_of k.1)
          (g.release_digest k.0 k.1)
          none
          r
      → find Key_discrete (k.0, i) d.changes
        ≡ some (record r { status = applied; applied_at = some at })
      → q ≡ record h {
        status = LegalHoldStatus.released;
        released_at = some at;
        released_by = some by;
        release_change_request_id = some i;
      }
      → HoldSuccessor g least c d k h q

abbrev HoldsSucceed : Environment → ℕ → Core → Core → Type 0
HoldsSucceed g least c d =
    (k : Key) (h : LegalHold)
    → find Key_discrete k c.holds ≡ some h
    → (q : LegalHold) × (find Key_discrete k d.holds ≡ some q) × HoldSuccessor g least c d k h q
