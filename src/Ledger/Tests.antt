-- ===== src/Ledger/Tests.antt =====
-- The theorems about the ledger at a concrete run.
use prodkit_control.Prelude.{
  ℕ, ◌+◌, ℕ_discrete, String, string_discrete, true, false, Option, none, some, List, [], ◌∷◌, ◌++◌,
  ◌≡◌, ◌≢◌, refl, inl, inr, ◌⊎◌, arith, length, any,
}
use prodkit_control.Prelude.Dict.{find, put}
use prodkit_control.Prelude.Result.{ok, err, integrity_violation}
use prodkit_control.Contracts.Identity.{ActorRef, service}
use prodkit_control.Contracts.Events.{
  ControlEventDraft, ControlEvent, EventIntegrity, run_started, run_completed, other, EventType,
}
use prodkit_control.Ledger.{
  RunKey, RunKey_discrete, hash_discrete, Ledger, is_nonempty, list_run_events, crosses, append,
  verify_from, verify_run, last_hash,
}
use prodkit_control.Ledger.Chain.{append_all, verify_run-append_all, list_run_events-append}
use prodkit_control.Ledger.Tamper.{AreSame, IsCollisionFree, verify_run_detects_tampering}

abbrev someone : ActorRef
someone = record {
  kind = service;
  id = "runner";
  display_name = none;
  tenant_id = "t";
  workload_identity = none;
  attributes = [];
}

abbrev draft : ℕ → EventType → ControlEventDraft
draft event_id event_type = record {
  event_id = event_id;
  run_id = 1;
  tenant_id = "t";
  event_type = event_type;
  occurred_at = 10;
  recorded_at = 10;
  actor = someone;
  trace_id = "trace";
  span_id = 0;
  action_id = none;
  payload = other 0;
}

-- A digest for the test: the event's id and its sequence.
abbrev test_hash : ControlEventDraft → ℕ → Option ℕ → ℕ
test_hash d sequence previous = d.event_id + sequence

abbrev drafts : List ControlEventDraft
drafts = draft 100 run_started ∷ draft 200 run_completed ∷ []

abbrev integrity_of : Option ℕ → ℕ → EventIntegrity
integrity_of previous h = record {
  algorithm = "sha256";
  canonicalization = "prodkit-json-v1";
  previous_event_hash = previous;
  event_hash = h;
  signature = none;
  signing_key_id = none;
}

abbrev first_event : ControlEvent
first_event = record {
  draft = draft 100 run_started;
  sequence = 1;
  integrity = integrity_of none 101;
}

abbrev second_event : ControlEvent
second_event = record {
  draft = draft 200 run_completed;
  sequence = 2;
  integrity = integrity_of (some 101) 202;
}

abbrev stored : Ledger
stored = (("t", 1), first_event ∷ second_event ∷ []) ∷ []

-- the same run with a signature that nobody made
abbrev signed_event : ControlEvent
signed_event = record second_event {
  integrity = record (integrity_of (some 101) 202) { signature = some "forged" };
}

abbrev presented : Ledger
presented = (("t", 1), first_event ∷ signed_event ∷ []) ∷ []

stored_by : append_all test_hash drafts [] ≡ stored
unfolding append_all append find put RunKey_discrete list_run_events string_discrete ℕ_discrete
stored_by = refl

verify_run-append_all_example :
    ((k : RunKey) → verify_run test_hash k (append_all test_hash drafts []) ≡ ok tt)
    × ((a b : String) (run_id : ℕ)
        → is_nonempty (list_run_events (a, run_id) (append_all test_hash drafts [])) ≡ true
        → is_nonempty (list_run_events (b, run_id) (append_all test_hash drafts [])) ≡ true
        → a ≡ b)
verify_run-append_all_example = verify_run-append_all test_hash drafts

list_run_events-append_example :
    let (result, r) = append test_hash (draft 300 run_completed) stored in
    ((any (crosses (draft 300 run_completed)) stored ≡ true)
      × (result ≡ err integrity_violation)
      × (r ≡ stored))
    ⊎ ((any (crosses (draft 300 run_completed)) stored ≡ false)
        × (e : ControlEvent) × (result ≡ ok e)
        × (e.draft ≡ draft 300 run_completed)
        × (e.sequence ≡ length (list_run_events ("t", 1) stored) + 1)
        × (list_run_events ("t", 1) r ≡ list_run_events ("t", 1) stored ++ e ∷ [])
        × ((k : RunKey) → k ≢ ("t", 1) → list_run_events k r ≡ list_run_events k stored))
list_run_events-append_example = list_run_events-append test_hash (draft 300 run_completed) stored

collision_free :
    IsCollisionFree test_hash (list_run_events ("t", 1) stored) (list_run_events ("t", 1) presented)
unfolding list_run_events find RunKey_discrete string_discrete ℕ_discrete
collision_free x y (inl p) (inl q) e = ground (arith, p, q)
collision_free x y (inl p) (inr (inl q)) e = absurd (ground (arith, p, q))
collision_free x y (inl p) (inr (inr q)) e = absurd q
collision_free x y (inr (inl p)) (inl q) e = absurd (ground (arith, p, q))
collision_free x y (inr (inl p)) (inr (inl q)) e = ground (arith, p, q)
collision_free x y (inr (inl p)) (inr (inr q)) e = absurd q
collision_free x y (inr (inr p)) m e = absurd p

stored_verifies : verify_run test_hash ("t", 1) stored ≡ ok tt
unfolding verify_run verify_from list_run_events find RunKey_discrete string_discrete ℕ_discrete
    hash_discrete
stored_verifies = refl

presented_verifies : verify_run test_hash ("t", 1) presented ≡ ok tt
unfolding verify_run verify_from list_run_events find RunKey_discrete string_discrete ℕ_discrete
    hash_discrete
presented_verifies = refl

same_end :
    last_hash (list_run_events ("t", 1) stored) ≡ last_hash (list_run_events ("t", 1) presented)
unfolding list_run_events find RunKey_discrete string_discrete ℕ_discrete
same_end = refl

verify_run_detects_tampering_example :
    AreSame (list_run_events ("t", 1) stored) (list_run_events ("t", 1) presented)
verify_run_detects_tampering_example =
    verify_run_detects_tampering test_hash ("t", 1) stored presented collision_free stored_verifies
      presented_verifies same_end
