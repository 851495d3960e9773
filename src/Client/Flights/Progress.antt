-- ===== src/Client/Flights/Progress.antt =====
-- client/client.go: the steps that goroutines in `APIResourceList` can take.
use kube_client.Prelude.{
  ℕ, String, true, false, some, ◌≡◌, ◌≢◌, refl, ap, Bool-cases, Option-cases, inl, inr,
}
use kube_client.Client.Backend.{Services}
use kube_client.Client.Flights.{
  Group, Pc, idle, calling, waiting, leading, inner_waiting, fetching, fetched, computed, done,
  locking, invalidating, list_key, Sys, Step, lead, join, refuse, inner_lead, inner_join, fetch,
  inner_return, return, take_result, retry, lock, invalidate, asks_again, Reach,
}
use kube_client.Client.Flights.Lock.{locks}
use kube_client.Client.Flights.Views.{outer_leads, outer_waits, inner_leads, inner_waits, no_key}
use kube_client.Client.Flights.Invariant.{Inv, Reach-Inv}
use kube_client.Client.Flights.Steps.{starts}

module _ (s : Services) (g : Group) where
  -- A step of a goroutine that is in a lookup.
  pub record Moves (x : Sys s g) : Type 0 where
    pub target : Sys s g
    pub step : Step s g x target
    pub goes_on : starts s g step ≡ false

  inner_leader-Moves :
      (x : Sys s g) (i : ℕ) (p : Pc) (k : String) → x.pc i ≡ p → inner_leads p ≡ some k → Moves x
  inner_leader-Moves x i (fetching v second gv) k e in_call = record {
    target = _;
    step = fetch i v second gv e;
    goes_on = refl;
  }
  inner_leader-Moves x i (fetched v second gv got) k e in_call = record {
    target = _;
    step = inner_return i v second gv got e;
    goes_on = refl;
  }
  inner_leader-Moves x i _ k e in_call = no_key in_call

  outer_leader-Moves :
      (x : Sys s g) (i : ℕ) (p : Pc) (k : String)
      → Inv s g x
      → x.pc i ≡ p
      → outer_leads p ≡ some k
      → Moves x
  outer_leader-Moves x i (leading v second) k h e in_call = elim (Option-cases (s.schema.parse v)) [
    | inl bad ↦ record { target = _; step = refuse i v second e bad; goes_on = refl }
    | inr (gv, parsed) ↦ elim (Option-cases (g.leader x.inner (s.schema.print gv))) [
      | inl free ↦ record {
        target = _;
        step = inner_lead i v second gv e parsed free;
        goes_on = refl;
      }
      | inr (j, runs) ↦ record {
        target = _;
        step = inner_join i j v second gv e parsed runs;
        goes_on = refl;
      }
    ]
  ]
  outer_leader-Moves x i (inner_waiting v second gv) k h e in_call =
      let (j, runs) = h.inner_calls.waited gv i (ap inner_waits e) in
      inner_leader-Moves x j (x.pc j) gv refl (h.inner_calls.held gv j runs)
  outer_leader-Moves x i (computed v second r) k h e in_call = record {
    target = _;
    step = return i v second r e;
    goes_on = refl;
  }
  outer_leader-Moves x i (fetching v second gv) k h e in_call =
      inner_leader-Moves x i (fetching v second gv) gv e refl
  outer_leader-Moves x i (fetched v second gv got) k h e in_call =
      inner_leader-Moves x i (fetched v second gv got) gv e refl
  outer_leader-Moves x i _ k h e in_call = no_key in_call

  holder-Moves : (x : Sys s g) (i : ℕ) (p : Pc) → x.pc i ≡ p → locks p ≡ true → Moves x
  holder-Moves x i (invalidating v) e holds = record {
    target = _;
    step = invalidate i v e;
    goes_on = refl;
  }
  holder-Moves x i _ e holds = cc

  busy-Moves : (x : Sys s g) (i : ℕ) (p : Pc) → Inv s g x → x.pc i ≡ p → p ≢ idle → Moves x
  busy-Moves x i idle h e busy = absurd (busy refl)
  busy-Moves x i (calling v second) h e busy = elim (Option-cases (g.leader x.outer (list_key v))) [
    | inl free ↦ record { target = _; step = lead i v second e free; goes_on = refl }
    | inr (j, runs) ↦ record { target = _; step = join i j v second e runs; goes_on = refl }
  ]
  busy-Moves x i (waiting v second) h e busy =
      let (j, runs) = h.outer_calls.waited (list_key v) i (ap outer_waits e) in
      outer_leader-Moves x j (x.pc j) (list_key v) h refl (h.outer_calls.held (list_key v) j runs)
  busy-Moves x i (done v second r) h e busy = elim (Bool-cases (asks_again second r.err)) [
    | inl wanted ↦ record { target = _; step = retry i v second r e wanted; goes_on = refl }
    | inr last ↦ record { target = _; step = take_result i v second r e last; goes_on = refl }
  ]
  busy-Moves x i (locking v) h e busy = elim (Option-cases x.mu) [
    | inl free ↦ record { target = _; step = lock i v e free; goes_on = refl }
    | inr (j, owner) ↦ holder-Moves x j (x.pc j) refl (h.mutex.taken j owner)
  ]
  busy-Moves x i (invalidating v) h e busy = holder-Moves x i (invalidating v) e refl
  busy-Moves x i (leading v second) h e busy =
      outer_leader-Moves x i (leading v second) (list_key v) h e refl
  busy-Moves x i (inner_waiting v second gv) h e busy =
      outer_leader-Moves x i (inner_waiting v second gv) (list_key v) h e refl
  busy-Moves x i (fetching v second gv) h e busy =
      inner_leader-Moves x i (fetching v second gv) gv e refl
  busy-Moves x i (fetched v second gv got) h e busy =
      inner_leader-Moves x i (fetched v second gv got) gv e refl
  busy-Moves x i (computed v second r) h e busy =
      outer_leader-Moves x i (computed v second r) (list_key v) h e refl

  -- In every state that is reached: when some goroutine is in a lookup, some goroutine that is in a
  -- lookup has a step, whoever waits for whom.
  pub no_deadlock :
      (cache : s.cache.State) (x : Sys s g) (i : ℕ) → Reach s g cache x → x.pc i ≢ idle → Moves x
  no_deadlock cache x i r busy = busy-Moves x i (x.pc i) (Reach-Inv s g cache x r) refl busy
