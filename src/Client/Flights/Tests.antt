-- ===== src/Client/Flights/Tests.antt =====
-- client/client.go: two goroutines that look up a list, and the theorems at them.
use kube_client.Prelude.{
  ℕ, ◌≤◌, String, true, false, Option, none, some, [], ◌≡◌, ◌≢◌, refl, inl, ◌==◌, if◌then◌else◌,
  str_eq, arith, eq_iff,
}
use kube_client.Client.Samples.{services, client, missing_services, served}
use kube_client.Client.Discovery.{contains, wrap, init_sf_discovery, sf_invalidate}
use kube_client.Client.Lookup.{Lists, no_resources, listed, api_resource_list}
use kube_client.Client.Lookup.Wrapped.{cache_of}
use kube_client.Client.Flights.{
  Group, idle, calling, waiting, leading, fetching, fetched, computed, done, list_key, received,
  inner_received, set_pc, Sys, ask, lead, join, inner_lead, fetch, inner_return, return, all_idle,
  Reach, nothing_yet, later,
}
use kube_client.Client.Flights.Safety.{calls_alone}
use kube_client.Client.Flights.Progress.{Moves, no_deadlock}
use kube_client.Client.Flights.Bound.{Quiet, Run, now, next_step, few_steps}
use kube_client.Client.Flights.Alone.{api_resource_list-alone}
use kube_client.Client.Flights.Stale.{stale_list}

-- A table of calls as a function.
abbrev group : Group
group = record {
  Table = String → Option ℕ;
  idle_table = λ key. none;
  leader = λ t key. t key;
  enter = λ key i t other. if str_eq key other then some i else t other;
  leave = λ key t other. if str_eq key other then none else t other;
  leader-idle_table = λ key. refl;
  leader-enter = λ key other i t. refl;
  leader-leave = λ key other t. refl;
}

abbrev stable : String
stable = "stable.example.com/v1"

stable-named : stable ≢ ""
stable-named h = ground (arith, eq_iff "stable.example.com/v1" "")

-- Goroutine 1 begins.
abbrev begun : Sys services group
begun = record (all_idle services group false) { pc = set_pc (λ i. idle) 1 (calling stable false) }

begun-Reach : Reach services group false begun
begun-Reach = later nothing_yet (ask 1 stable stable-named refl)

-- It runs the calls of both groups.
abbrev led : Sys services group
led = record begun {
  outer = group.enter (list_key stable) 1 begun.outer;
  pc = set_pc begun.pc 1 (leading stable false);
}

abbrev in_call : Sys services group
in_call = record led {
  inner = group.enter stable 1 led.inner;
  pc = set_pc led.pc 1 (fetching stable false stable);
}

in_call-Reach : Reach services group false in_call
in_call-Reach = later (later begun-Reach (lead 1 stable false refl refl)) (
    inner_lead 1 stable false (record { group = "stable.example.com"; version = "v1" }) refl refl
      refl)

calls_alone_example : ◌≡◌ {A = ℕ} 1 1
calls_alone_example =
    calls_alone services group false in_call 1 1 stable stable in_call-Reach (inl (refl, refl))

-- Goroutine 0 waits for it.
abbrev second_begun : Sys services group
second_begun = record in_call { pc = set_pc in_call.pc 0 (calling stable false) }

abbrev joined : Sys services group
joined = record second_begun { pc = set_pc second_begun.pc 0 (waiting stable false) }

joined-Reach : Reach services group false joined
joined-Reach =
    later (later in_call-Reach (ask 0 stable stable-named refl)) (join 0 1 stable false refl refl)

no_deadlock_example : Moves services group joined
no_deadlock_example = no_deadlock services group false joined 0 joined-Reach (λ h. cc)

begun-Quiet : Quiet 2 begun.pc
begun-Quiet i h = rw (not_one i h) refl
  where
    not_one : (i : ℕ) → 2 ≤ i → (1 == i) ≡ false
    not_one i h = ground arith

in_call-Run : Run services group begun 2 in_call
in_call-Run =
    next_step (next_step now (lead 1 stable false refl refl) refl)
      (inner_lead 1 stable false (record { group = "stable.example.com"; version = "v1" }) refl refl
        refl)
      refl

few_steps_example : (2 ≤ 28) × Quiet 2 in_call.pc
few_steps_example = few_steps services group 2 begun 2 in_call begun-Quiet in_call-Run

-- Goroutine 1 goes on alone to its result.
abbrev answered : Sys services group
answered = record in_call {
  pc = set_pc in_call.pc 1 (fetched stable false stable (served stable false));
}

abbrev result : Lists
result = listed services stable (served stable false)

abbrev inner_over : Sys services group
inner_over = record answered {
  inner = group.leave stable answered.inner;
  pc =
      set_pc (λ j. inner_received services group stable (served stable false) (answered.pc j)) 1
        (computed stable false result);
}

abbrev over : Sys services group
over = record inner_over {
  outer = group.leave (list_key stable) inner_over.outer;
  pc =
      set_pc (λ j. received (list_key stable) result (inner_over.pc j)) 1
        (done stable false result);
}

over-Run : Run services group begun 5 over
over-Run =
    next_step
      (next_step (next_step in_call-Run (fetch 1 stable false stable refl) refl)
        (inner_return 1 stable false stable (served stable false) refl) refl)
      (return 1 stable false result refl) refl

others_idle : (j : ℕ) → (1 == j) ≡ false → begun.pc j ≡ idle
others_idle j h = rw h refl

api_resource_list-alone_example :
    (result ≡ (api_resource_list services stable client).0)
    × (false ≡ cache_of services 0 (api_resource_list services stable client).1)
unfolding init_sf_discovery
api_resource_list-alone_example =
    api_resource_list-alone services group false begun over 1 5 0 stable client false result
      begun-Reach refl others_idle stable-named refl refl over-Run refl refl

stale_list_example :
    (x : Sys missing_services group) × Reach missing_services group false x
    × (x.pc 1
        ≡ done stable true (record {
          value = [];
          err =
              some
                (wrap (no_resources stable) (record { text = "not found"; is_not_found = false }));
        }))
    × (x.cache ≡ sf_invalidate missing_services false)
unfolding contains wrap
stale_list_example =
    stale_list missing_services group false stable
      (record { group = "stable.example.com"; version = "v1" }) none
      (record { text = "not found"; is_not_found = false }) stable-named refl refl refl
