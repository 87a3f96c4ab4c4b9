-- ===== src/Ledger.antt =====
-- `InMemoryEventLedger` of
-- packages/python/prodkit-control-runtime/src/prodkit_control_runtime/memory.py. The digest of an
-- entry, SHA-256 of the canonical JSON text of the draft, its sequence and the previous digest, is the
-- parameter `hash`. `append` holds the lock of the run for its whole body, so it is one step.
mod Chain
mod Tamper
mod Tests
use prodkit_control.Prelude.{
  ℕ, ◌+◌, ℕ_discrete, String, string_discrete, Bool, true, false, not, ◌&&◌, Option, none, some,
  List, [], ◌∷◌, ◌++◌, ◌==◌, same, text_eq, if◌then◌else◌, length, last?, any,
}
use prodkit_control.Prelude.Dict.{Dict, find, put}
use prodkit_control.Prelude.Result.{Result, ok, err, integrity_violation}
use prodkit_control.Contracts.Events.{ControlEventDraft, ControlEvent, EventIntegrity}

-- a tenant and a run
abbrev pub RunKey : Type 0
RunKey = String × ℕ

unfoldable pub RunKey_discrete : Discrete RunKey
RunKey_discrete = hlevel (string_discrete, ℕ_discrete)

unfoldable pub hash_discrete : Discrete (Option ℕ)
hash_discrete = hlevel ℕ_discrete

abbrev pub Ledger : Type 0
Ledger = Dict RunKey (List ControlEvent)

-- `bool(events)`
abbrev pub is_nonempty : List ControlEvent → Bool
is_nonempty [] = false
is_nonempty (_ ∷ _) = true

-- `list_run_events`
unfoldable pub list_run_events : RunKey → Ledger → List ControlEvent
list_run_events k s = elim (find RunKey_discrete k s) [ none ↦ [] | some es ↦ es ]

-- whether an entry of the ledger is the same run under another tenant, with events
abbrev pub crosses : ControlEventDraft → RunKey × List ControlEvent → Bool
crosses d ((tenant, run_id), events) =
    run_id == d.run_id && (not (text_eq tenant d.tenant_id) && is_nonempty events)

abbrev pub last_hash : List ControlEvent → Option ℕ
last_hash es = elim (last? es) [ none ↦ none | some e ↦ some e.integrity.event_hash ]

abbrev pub identity : ControlEventDraft → RunKey
identity d = (d.tenant_id, d.run_id)

module _ (hash : ControlEventDraft → ℕ → Option ℕ → ℕ) where
  -- the event that a draft becomes after the events of its run
  abbrev pub event_after : List ControlEvent → ControlEventDraft → ControlEvent
  event_after es d =
      let sequence = length es + 1 in
      let integrity : EventIntegrity = record {
        algorithm = "sha256";
        canonicalization = "prodkit-json-v1";
        previous_event_hash = last_hash es;
        event_hash = hash d sequence (last_hash es);
        signature = none;
        signing_key_id = none;
      } in
      record { draft = d; sequence = sequence; integrity = integrity }

  unfoldable pub append : ControlEventDraft → Ledger → Result ControlEvent × Ledger
  append d s =
      if any (crosses d) s
      then (err integrity_violation, s)
      else (let es = list_run_events (identity d) s in
          let event = event_after es d in
          (ok event, put RunKey_discrete (identity d) (es ++ event ∷ []) s))

  -- the tests of `verify_run` on one event
  abbrev pub is_intact : String → ℕ → Option ℕ → ControlEvent → Bool
  is_intact tenant sequence previous e =
      e.sequence == sequence
      && (text_eq e.draft.tenant_id tenant
          && (same hash_discrete e.integrity.previous_event_hash previous
              && e.integrity.event_hash == hash e.draft e.sequence previous))

  -- the loop of `verify_run`, from a sequence and a previous digest on
  unfoldable pub verify_from : String → ℕ → Option ℕ → List ControlEvent → Result (Unit {0})
  verify_from tenant sequence previous [] = ok tt
  verify_from tenant sequence previous (e ∷ es) =
      let rest = verify_from tenant (sequence + 1) (some e.integrity.event_hash) es in
      if not (is_intact tenant sequence previous e) then err integrity_violation else rest

  unfoldable pub verify_run : RunKey → Ledger → Result (Unit {0})
  verify_run k s = verify_from k.0 1 none (list_run_events k s)
