-- ===== src/Client/Flights/Steps.antt =====
-- client/client.go: a step of `APIResourceList` as a change of the goroutines.
use kube_client.Prelude.{
  ℕ, ◌+◌, ◌≤◌, ◌<◌, String, Bool, true, false, Option, ◌≡◌, refl, sym, ap, ◌∙◌, ◌==◌, str_eq, arith,
  Bool-cases, inl, inr, ==_iff, subst,
}
use kube_client.Api.{ApiResourceList}
use kube_client.Client.Backend.{Reply, Services}
use kube_client.Client.Lookup.{Lists, listed}
use kube_client.Client.Flights.{
  Group, Pc, idle, calling, waiting, leading, inner_waiting, computed, done, locking, invalidating,
  list_key, received, inner_received, set_pc, Sys, Step, ask, lead, join, refuse, inner_lead,
  inner_join, fetch, inner_return, return, take_result, retry, lock, invalidate, asks_again,
}
use kube_client.Client.Flights.Weight.{rounds_left, weight}

received-weight : (key : String) (r : Lists) (q : Pc) → weight (received key r q) ≤ weight q
received-weight key r (waiting v second) = elim (Bool-cases (str_eq (list_key v) key)) [
  | inl same ↦ rw same (omega arith)
  | inr other ↦ rw other (omega arith)
]
received-weight key r q = omega arith

module _ (s : Services) (g : Group) where
  inner_received-weight :
      (key : String) (got : Reply (Option ApiResourceList)) (q : Pc)
      → weight (inner_received s g key got q) ≤ weight q
  inner_received-weight key got (inner_waiting v second gv) = elim (Bool-cases (str_eq gv key)) [
    | inl same ↦ rw same (omega arith)
    | inr other ↦ rw other (omega arith)
  ]
  inner_received-weight key got q = omega arith

  -- Goroutine `who` goes to `next`, and `others` happens to all goroutines before.
  pub record Change (x y : Sys s g) (starts : Bool) : Type 0 where
    pub who : ℕ
    pub next : Pc
    pub others : Pc → Pc
    pub changed : set_pc (λ j. others (x.pc j)) who next ≡ y.pc
    pub idle_stays : others idle ≡ idle
    pub others_fall : (q : Pc) → weight (others q) ≤ weight q
    pub falls : starts ≡ false → weight next < weight (x.pc who)

  alone :
      (x y : Sys s g) (i : ℕ) (q p : Pc)
      → x.pc i ≡ q
      → set_pc x.pc i p ≡ y.pc
      → weight p < weight q
      → Change x y false
  alone x y i q p e same falls = record {
    who = i;
    next = p;
    others = λ q. q;
    changed = same;
    idle_stays = refl;
    others_fall = λ q. omega arith;
    falls = λ h. subst (λ q. weight p < weight q) (sym e) falls;
  }

  done_falls :
      (v : String) (second : Bool) (r : Lists)
      → asks_again second r.err ≡ true
      → weight (locking v) < weight (done v second r)
  done_falls v true r h = cc
  done_falls v false r h = omega arith

  -- Whether a step starts a new lookup.
  abbrev pub starts : {x y : Sys s g} → Step s g x y → Bool
  starts (ask i v named e) = true
  starts _ = false

  pub change : {x y : Sys s g} → (st : Step s g x y) → Change x y (starts st)
  change {x} {y} (ask i v named e) = record {
    who = i;
    next = calling v false;
    others = λ q. q;
    changed = refl;
    idle_stays = refl;
    others_fall = λ q. omega arith;
    falls = λ h. cc;
  }
  change {x} {y} (lead i v second e free) = alone x y i _ (leading v second) e refl (omega arith)
  change {x} {y} (join i j v second e runs) = alone x y i _ (waiting v second) e refl (omega arith)
  change {x} {y} (refuse i v second e bad) = alone x y i _ _ e refl (omega arith)
  change {x} {y} (inner_lead i v second gv e parsed free) = alone x y i _ _ e refl (omega arith)
  change {x} {y} (inner_join i j v second gv e parsed runs) = alone x y i _ _ e refl (omega arith)
  change {x} {y} (fetch i v second gv e) = alone x y i _ _ e refl (omega arith)
  change {x} {y} (inner_return i v second gv got e) = record {
    who = i;
    next = computed v second (listed s v got);
    others = inner_received s g gv got;
    changed = refl;
    idle_stays = refl;
    others_fall = inner_received-weight gv got;
    falls = λ h. subst (λ q. 2 + rounds_left second < weight q) (sym e) (omega arith);
  }
  change {x} {y} (return i v second r e) = record {
    who = i;
    next = done v second r;
    others = received (list_key v) r;
    changed = refl;
    idle_stays = refl;
    others_fall = received-weight (list_key v) r;
    falls = λ h. subst (λ q. 1 + rounds_left second < weight q) (sym e) (omega arith);
  }
  change {x} {y} (take_result i v second r e last) = alone x y i _ idle e refl (omega arith)
  change {x} {y} (retry i v second r e wanted) =
      alone x y i _ (locking v) e refl (done_falls v second r wanted)
  change {x} {y} (lock i v e free) = alone x y i _ (invalidating v) e refl (omega arith)
  change {x} {y} (invalidate i v e) = alone x y i _ (calling v true) e refl (omega arith)

  -- Where no lookup starts, an idle goroutine stays idle.
  pub Change-idle : (x y : Sys s g) (c : Change x y false) (j : ℕ) → x.pc j ≡ idle → y.pc j ≡ idle
  Change-idle x y c j e = ap (λ pc. pc j) (sym c.changed) ∙ elim (Bool-cases (c.who == j)) [
    | inl is ↦
        let light =
          subst (λ q. weight c.next < weight q) (ap x.pc ((==_iff c.who j).0 is) ∙ e)
            (c.falls refl) in
        absurd (omega (arith, light))
    | inr not ↦ rw not (ap c.others e ∙ c.idle_stays)
  ]
