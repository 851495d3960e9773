-- ===== src/Client/Flights/Bound.antt =====
-- client/client.go: runs of the `APIResourceList` calls that are under way.
use kube_client.Prelude.{
  ℕ, suc, ◌+◌, ◌*◌, ◌≤◌, ◌<◌, ltb, false, ◌≡◌, refl, ◌⊎◌, arith, Bool-cases, inl, inr, subst,
}
use kube_client.Client.Backend.{Services}
use kube_client.Client.Flights.{Group, Pc, idle, Sys, Step}
use kube_client.Client.Flights.Weight.{weight, total, total-lt, total-bound}
use kube_client.Client.Flights.Steps.{Change, change, starts, Change-idle}

-- No goroutine from n on is in a lookup.
abbrev pub Quiet : ℕ → (ℕ → Pc) → Type 0
Quiet n pc = (i : ℕ) → n ≤ i → pc i ≡ idle

below_or_beyond : (a b : ℕ) → (a < b) ⊎ (b ≤ a)
below_or_beyond a b = elim (Bool-cases (ltb a b)) [
  | inl below ↦ inl (ground arith)
  | inr beyond ↦ inr (ground arith)
]

module _ (s : Services) (g : Group) where
  -- k steps of lookups that are under way; no lookup starts.
  pub data Run (x : Sys s g) : ℕ → Sys s g → Type 0 where
    now : Run x 0 x
    next_step :
        {k : ℕ} {y z : Sys s g}
        → Run x k y
        → (st : Step s g y z) → starts s g st ≡ false
        → Run x (suc k) z

  who_below : (n : ℕ) (x y : Sys s g) (c : Change s g x y false) → Quiet n x.pc → c.who < n
  who_below n x y c quiet = elim (below_or_beyond c.who n) [
    | inl below ↦ below
    | inr beyond ↦
        let light = subst (λ q. weight c.next < weight q) (quiet c.who beyond) (c.falls refl) in
        omega (arith, light)
  ]

  Change-Quiet : (n : ℕ) (x y : Sys s g) (c : Change s g x y false) → Quiet n x.pc → Quiet n y.pc
  Change-Quiet n x y c quiet i beyond = Change-idle s g x y c i (quiet i beyond)

  Change-total :
      (n : ℕ) (x y : Sys s g) (c : Change s g x y false)
      → Quiet n x.pc
      → total n y.pc < total n x.pc
  Change-total n x y c quiet =
      subst (λ pc. total n pc < total n x.pc) c.changed
        (total-lt n x.pc c.others c.who c.next c.others_fall (c.falls refl)
          (who_below n x y c quiet))

  -- A run leaves the same goroutines idle, and each of its steps takes one off the weight.
  Run-total :
      (n : ℕ) (x : Sys s g) (k : ℕ) (y : Sys s g)
      → Quiet n x.pc
      → Run x k y
      → Quiet n y.pc × (k + total n y.pc ≤ total n x.pc)
  Run-total n x k y quiet now = (quiet, omega arith)
  Run-total n x _ z quiet (next_step {k} {y} run st goes_on) =
      let (quiet', weighs) = Run-total n x k y quiet run in
      let c = subst (Change s g y z) goes_on (change s g st) in
      (Change-Quiet n y z c quiet', omega (arith, weighs, Change-total n y z c quiet'))

  -- When no more than the first n goroutines are in a lookup, these lookups take 14 * n steps
  -- together at most, in whatever order the goroutines go on and whatever the cache answers; and
  -- the others stay out of lookups as long as none starts.
  pub few_steps :
      (n : ℕ) (x : Sys s g) (k : ℕ) (y : Sys s g)
      → Quiet n x.pc
      → Run x k y
      → (k ≤ 14 * n) × Quiet n y.pc
  few_steps n x k y quiet run =
      let (quiet', weighs) = Run-total n x k y quiet run in
      (omega (arith, weighs, total-bound n x.pc), quiet')
