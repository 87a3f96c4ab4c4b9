-- ===== src/Runtime/Tests.antt =====
-- Concrete runs, and the theorems at them.
use prodkit_control.Prelude.{
  ◌≤◌, String, string_discrete, true, List, [], ◌∷◌, ◌≡◌, refl, length, count, text_eq,
}
use prodkit_control.Prelude.Dict.{find, put}
use prodkit_control.Prelude.Result.{err, runtime_draining}
use prodkit_control.Contracts.Work.{CapacityEnvelope}
use prodkit_control.Runtime.Lifecycle
use prodkit_control.Runtime.Lifecycle.{
  Lifecycle, begin_draining, enter, is_drained, RuntimeState_discrete, drain_is_final,
}
use prodkit_control.Runtime.Capacity
use prodkit_control.Runtime.Capacity.{Controller, tenant_count, admissions_bounded}

-- one task inside, and the lifecycle draining
abbrev busy : Lifecycle
busy = record { state = Lifecycle.accepting; in_flight = 1 }

abbrev emptied : Lifecycle
emptied = record { state = Lifecycle.draining; in_flight = 0 }

admitted : Lifecycle.Reach Lifecycle.init 0 busy 1
unfolding enter RuntimeState_discrete
admitted = Lifecycle.next Lifecycle.here (Lifecycle.entered refl refl refl)

drained : Lifecycle.Reach (begin_draining busy) 1 emptied 0
unfolding begin_draining RuntimeState_discrete Lifecycle.leave
drained = Lifecycle.next Lifecycle.here (Lifecycle.left refl refl)

drain_is_final_example :
    (enter emptied ≡ (err runtime_draining, emptied))
    × (emptied.in_flight ≤ busy.in_flight)
    × (busy.in_flight ≡ 1)
    × (emptied.in_flight ≡ 0)
    × (is_drained busy ≡ true → is_drained emptied ≡ true)
drain_is_final_example = drain_is_final admitted drained

abbrev small : CapacityEnvelope
small = record {
  max_queue_depth = 2;
  max_in_flight = 2;
  max_per_tenant_in_flight = 1;
  qualification_concurrency = 1;
  qualification_work_items = 1;
}

abbrev one_inside : Controller
one_inside = record { envelope = small; total = 1; per_tenant = ("t", 1) ∷ [] }

abbrev inside : List String
inside = "t" ∷ []

one_entered : Capacity.Reach (Capacity.init small) one_inside inside
unfolding Capacity.enter find put string_discrete
one_entered = Capacity.next Capacity.here (Capacity.entered "t" refl refl)

admissions_bounded_example :
    (one_inside.total ≡ length inside)
    × (length inside ≤ small.max_in_flight)
    × ((t : String)
        → (tenant_count t one_inside.per_tenant ≡ count (text_eq t) inside)
          × (count (text_eq t) inside ≤ small.max_per_tenant_in_flight))
admissions_bounded_example = admissions_bounded small one_entered
