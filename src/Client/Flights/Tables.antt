-- ===== src/Client/Flights/Tables.antt =====
-- client/client.go: a table of calls in flight of a singleflight group, beside the goroutines that
-- lead and wait.
use kube_client.Prelude.{
  ℕ, String, false, Option, none, some, ◌≡◌, refl, sym, ap, ◌∙◌, ◌==◌, str_eq, if◌then◌else◌,
  Bool-cases, inl, inr, some_inj, eq_iff, ==_iff,
}
use kube_client.Client.Flights.{Group, Pc, set_pc}

module _ (g : Group) (leads waits : Pc → Option String) where
  pub record Held (t : g.Table) (pc : ℕ → Pc) : Type 0 where
    pub led : (k : String) (i : ℕ) → leads (pc i) ≡ some k → g.leader t k ≡ some i
    pub held : (k : String) (i : ℕ) → g.leader t k ≡ some i → leads (pc i) ≡ some k
    pub waited : (k : String) (i : ℕ) → waits (pc i) ≡ some k → (j : ℕ) × (g.leader t k ≡ some j)

  differ : {A : Type 0} {o : Option A} {a : A} {P : Type 0} → o ≡ none → o ≡ some a → P
  differ e h = cc

  pub idle_table-Held :
      (pc : ℕ → Pc)
      → ((i : ℕ) → leads (pc i) ≡ none)
      → ((i : ℕ) → waits (pc i) ≡ none)
      → Held g.idle_table pc
  idle_table-Held pc no_leads no_waits = record {
    led = λ k i e. differ (no_leads i) e;
    held = λ k i e. differ (g.leader-idle_table k) e;
    waited = λ k i e. differ (no_waits i) e;
  }

  -- A step that neither starts nor ends a call of the table.
  pub move-Held :
      (t : g.Table) (pc : ℕ → Pc) (i : ℕ) (p : Pc)
      → Held t pc
      → leads p ≡ leads (pc i)
      → ((k : String) → waits p ≡ some k → (j : ℕ) × (g.leader t k ≡ some j))
      → Held t (set_pc pc i p)
  move-Held t pc i p h same new = record {
    led = λ k j e. elim (Bool-cases (i == j)) [
      | inl is ↦
          h.led k j (ap (λ n. leads (pc n)) (sym ((==_iff i j).0 is)) ∙ sym same ∙ (rw is at e))
      | inr not ↦ h.led k j (rw not at e)
    ];
    held = λ k j e. elim (Bool-cases (i == j)) [
      | inl is ↦ rw is (same ∙ ap (λ n. leads (pc n)) ((==_iff i j).0 is) ∙ h.held k j e)
      | inr not ↦ rw not (h.held k j e)
    ];
    waited = λ k j e. elim (Bool-cases (i == j)) [
      | inl is ↦ new k (rw is at e)
      | inr not ↦ h.waited k j (rw not at e)
    ];
  }

  -- The same for every goroutine at once.
  pub map-Held :
      (t : g.Table) (pc : ℕ → Pc) (f : Pc → Pc)
      → Held t pc
      → ((q : Pc) → leads (f q) ≡ leads q)
      → ((q : Pc) → waits (f q) ≡ waits q)
      → Held t (λ j. f (pc j))
  map-Held t pc f h same_leads same_waits = record {
    led = λ k j e. h.led k j (sym (same_leads (pc j)) ∙ e);
    held = λ k j e. same_leads (pc j) ∙ h.held k j e;
    waited = λ k j e. h.waited k j (sym (same_waits (pc j)) ∙ e);
  }

  -- A goroutine starts the call of a key that no call runs for.
  pub enter-Held :
      (t : g.Table) (pc : ℕ → Pc) (i : ℕ) (p : Pc) (k : String)
      → Held t pc
      → g.leader t k ≡ none
      → leads (pc i) ≡ none
      → leads p ≡ some k
      → waits p ≡ none
      → Held (g.enter k i t) (set_pc pc i p)
  enter-Held t pc i p k h free not_yet starts no_wait = record {
    led = λ k' j e. elim (Bool-cases (i == j)) [
      | inl is ↦
          g.leader-enter k k' i t
          ∙ (rw ((eq_iff k k').1 (some_inj (sym starts ∙ (rw is at e))))
              (ap some ((==_iff i j).0 is)))
      | inr not ↦
          let old = h.led k' j (rw not at e) in
          g.leader-enter k k' i t ∙ elim (Bool-cases (str_eq k k')) [
            | inl same ↦ differ free (ap (g.leader t) ((eq_iff k k').0 same) ∙ old)
            | inr other ↦ rw other old
          ]
    ];
    held = λ k' j e. elim (Bool-cases (str_eq k k')) [
      | inl same ↦
          let is = some_inj (rw same at (sym (g.leader-enter k k' i t) ∙ e)) in
          rw ((==_iff i j).1 is) (starts ∙ ap some ((eq_iff k k').0 same))
      | inr other ↦
          let old = h.held k' j (rw other at (sym (g.leader-enter k k' i t) ∙ e)) in
          elim (Bool-cases (i == j)) [
            | inl is ↦ differ (ap (λ n. leads (pc n)) (sym ((==_iff i j).0 is)) ∙ not_yet) old
            | inr not ↦ rw not old
          ]
    ];
    waited = λ k' j e. elim (Bool-cases (i == j)) [
      | inl is ↦ differ no_wait (rw is at e)
      | inr not ↦ elim (Bool-cases (str_eq k k')) [
        | inl same ↦ (i, g.leader-enter k k' i t ∙ (rw same refl))
        | inr other ↦
            let (n, old) = h.waited k' j (rw not at e) in
            (n, g.leader-enter k k' i t ∙ (rw other old))
      ]
    ];
  }

  -- The goroutine that leads the call of a key ends it, and those that wait for it go on.
  pub leave-Held :
      (t : g.Table) (pc : ℕ → Pc) (f : Pc → Pc) (i : ℕ) (p : Pc) (k : String)
      → Held t pc
      → leads (pc i) ≡ some k
      → leads p ≡ none
      → waits p ≡ none
      → ((q : Pc) → leads (f q) ≡ leads q)
      → ((q : Pc) (k' : String)
          → waits (f q) ≡ some k'
          → (waits q ≡ some k') × (str_eq k k' ≡ false))
      → Held (g.leave k t) (set_pc (λ j. f (pc j)) i p)
  leave-Held t pc f i p k h leads_k ends no_wait same_leads go_on = record {
    led = λ k' j e. elim (Bool-cases (i == j)) [
      | inl is ↦ differ ends (rw is at e)
      | inr not ↦
          let old = h.led k' j (sym (same_leads (pc j)) ∙ (rw not at e)) in
          g.leader-leave k k' t ∙ elim (Bool-cases (str_eq k k')) [
            | inl same ↦ cc (
                (==_iff i j).1 (
                  some_inj
                    (sym (h.led k i leads_k) ∙ ap (g.leader t) ((eq_iff k k').0 same) ∙ old)))
            | inr other ↦ rw other old
          ]
    ];
    held = λ k' j e. elim (Bool-cases (str_eq k k')) [
      | inl same ↦
          differ (ap (λ b. if b then none else g.leader t k') same)
            (sym (g.leader-leave k k' t) ∙ e)
      | inr other ↦
          let old = h.held k' j (rw other at (sym (g.leader-leave k k' t) ∙ e)) in
          elim (Bool-cases (i == j)) [
            | inl is ↦ cc (
                (eq_iff k k').1
                  (some_inj (sym leads_k ∙ ap (λ n. leads (pc n)) ((==_iff i j).0 is) ∙ old)))
            | inr not ↦ rw not (same_leads (pc j) ∙ old)
          ]
    ];
    waited = λ k' j e. elim (Bool-cases (i == j)) [
      | inl is ↦ differ no_wait (rw is at e)
      | inr not ↦
          let (waits_k', other) = go_on (pc j) k' (rw not at e) in
          let (n, old) = h.waited k' j waits_k' in (n, g.leader-leave k k' t ∙ (rw other old))
    ];
  }
