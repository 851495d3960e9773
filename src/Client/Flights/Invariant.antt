-- ===== src/Client/Flights/Invariant.antt =====
-- client/client.go: how the goroutines, the two groups and the mutex fit together in `APIResourceList`.
use kube_client.Prelude.{ℕ, String, true, false, some, ◌≡◌, refl, sym, ap, ◌∙◌, subst, some_inj}
use kube_client.Client.Backend.{Services}
use kube_client.Client.Lookup.{listed}
use kube_client.Client.Flights.{
  Group, Pc, idle, calling, waiting, leading, inner_waiting, fetching, fetched, computed, done,
  locking, invalidating, list_key, received, inner_received, set_pc, Sys, Step, ask, lead, join,
  refuse, inner_lead, inner_join, fetch, inner_return, return, take_result, retry, lock, invalidate,
  all_idle, Reach, nothing_yet, later, invalid,
}
use kube_client.Client.Flights.Lock.{
  Locked, locks, move-Locked, map-Locked, lock-Locked, unlock-Locked,
}
use kube_client.Client.Flights.Views.{
  outer_leads, outer_waits, inner_leads, inner_waits, no_key, received-outer_leads,
  received-outer_waits, received-inner_leads, received-inner_waits, received-locks,
  inner_received-outer_leads, inner_received-outer_waits, inner_received-inner_leads,
  inner_received-inner_waits, inner_received-locks,
}
use kube_client.Client.Flights.Tables.{
  Held, idle_table-Held, move-Held, map-Held, enter-Held, leave-Held,
}

module _ (s : Services) (g : Group) where
  pub record Inv (x : Sys s g) : Type 0 where
    pub outer_calls : Held g outer_leads outer_waits x.outer x.pc
    pub inner_calls : Held g inner_leads inner_waits x.inner x.pc
    pub mutex : Locked x.mu x.pc

  all_idle-Inv : (cache : s.cache.State) → Inv (all_idle s g cache)
  all_idle-Inv cache = record {
    outer_calls = idle_table-Held g outer_leads outer_waits _ (λ i. refl) (λ i. refl);
    inner_calls = idle_table-Held g inner_leads inner_waits _ (λ i. refl) (λ i. refl);
    mutex = record { taken = λ i e. cc; owned = λ i e. cc };
  }

  -- A step of goroutine i that leaves both tables and the mutex alone.
  quiet-Inv :
      (x : Sys s g) (i : ℕ) (q p : Pc)
      → Inv x
      → x.pc i ≡ q
      → outer_leads p ≡ outer_leads q
      → inner_leads p ≡ inner_leads q
      → locks p ≡ locks q
      → ((k : String) → outer_waits p ≡ some k → (j : ℕ) × (g.leader x.outer k ≡ some j))
      → ((k : String) → inner_waits p ≡ some k → (j : ℕ) × (g.leader x.inner k ≡ some j))
      → Inv (record x { pc = set_pc x.pc i p })
  quiet-Inv x i q p h e outer_same inner_same locks_same outer_new inner_new = record {
    outer_calls =
        move-Held g outer_leads outer_waits x.outer x.pc i p h.outer_calls
          (outer_same ∙ ap outer_leads (sym e)) outer_new;
    inner_calls =
        move-Held g inner_leads inner_waits x.inner x.pc i p h.inner_calls
          (inner_same ∙ ap inner_leads (sym e)) inner_new;
    mutex = move-Locked x.mu x.pc i p h.mutex (locks_same ∙ ap locks (sym e));
  }

  Step-Inv : (x y : Sys s g) → Step s g x y → Inv x → Inv y
  Step-Inv x y (ask i v named e) h =
      quiet-Inv x i idle (calling v false) h e refl refl refl (λ k. no_key) (λ k. no_key)
  Step-Inv x y (join i j v second e runs) h =
      quiet-Inv x i (calling v second) (waiting v second) h e refl refl refl
        (λ k w. (j, ap (g.leader x.outer) (sym (some_inj w)) ∙ runs)) (λ k. no_key)
  Step-Inv x y (refuse i v second e bad) h =
      quiet-Inv x i (leading v second) (computed v second (invalid v)) h e refl refl refl
        (λ k. no_key) (λ k. no_key)
  Step-Inv x y (inner_join i j v second gv e parsed runs) h =
      quiet-Inv x i (leading v second) (inner_waiting v second (s.schema.print gv)) h e refl refl
        refl (λ k. no_key) (λ k w. (j, ap (g.leader x.inner) (sym (some_inj w)) ∙ runs))
  Step-Inv x y (fetch i v second gv e) h =
      let h' =
        quiet-Inv x i (fetching v second gv)
          (fetched v second gv (s.cache.resources_for gv x.cache).0) h e refl refl refl
          (λ k. no_key) (λ k. no_key) in
      record { outer_calls = h'.outer_calls; inner_calls = h'.inner_calls; mutex = h'.mutex }
  Step-Inv x y (take_result i v second r e last) h =
      quiet-Inv x i (done v second r) idle h e refl refl refl (λ k. no_key) (λ k. no_key)
  Step-Inv x y (retry i v second r e wanted) h =
      quiet-Inv x i (done v second r) (locking v) h e refl refl refl (λ k. no_key) (λ k. no_key)
  Step-Inv x y (lead i v second e free) h = record {
    outer_calls =
        enter-Held g outer_leads outer_waits x.outer x.pc i (leading v second) (list_key v)
          h.outer_calls free (ap outer_leads e) refl refl;
    inner_calls =
        move-Held g inner_leads inner_waits x.inner x.pc i (leading v second) h.inner_calls
          (sym (ap inner_leads e)) (λ k. no_key);
    mutex = move-Locked x.mu x.pc i (leading v second) h.mutex (sym (ap locks e));
  }
  Step-Inv x y (inner_lead i v second gv e parsed free) h =
      let p = fetching v second (s.schema.print gv) in
      record {
        outer_calls =
            move-Held g outer_leads outer_waits x.outer x.pc i p h.outer_calls
              (sym (ap outer_leads e)) (λ k. no_key);
        inner_calls =
            enter-Held g inner_leads inner_waits x.inner x.pc i p (s.schema.print gv) h.inner_calls
              free (ap inner_leads e) refl refl;
        mutex = move-Locked x.mu x.pc i p h.mutex (sym (ap locks e));
      }
  Step-Inv x y (inner_return i v second gv got e) h =
      let f = inner_received s g gv got in
      let p = computed v second (listed s v got) in
      record {
        outer_calls =
            move-Held g outer_leads outer_waits x.outer (λ j. f (x.pc j)) i p
              (map-Held g outer_leads outer_waits x.outer x.pc f h.outer_calls
                (inner_received-outer_leads s g gv got) (inner_received-outer_waits s g gv got))
              (sym (inner_received-outer_leads s g gv got (x.pc i) ∙ ap outer_leads e))
              (λ k. no_key);
        inner_calls =
            leave-Held g inner_leads inner_waits x.inner x.pc f i p gv h.inner_calls
              (ap inner_leads e) refl refl (inner_received-inner_leads s g gv got)
              (inner_received-inner_waits s g gv got);
        mutex =
            move-Locked x.mu (λ j. f (x.pc j)) i p
              (map-Locked x.mu x.pc f h.mutex (inner_received-locks s g gv got))
              (sym (inner_received-locks s g gv got (x.pc i) ∙ ap locks e));
      }
  Step-Inv x y (return i v second r e) h =
      let f = received (list_key v) r in
      let p = done v second r in
      record {
        outer_calls =
            leave-Held g outer_leads outer_waits x.outer x.pc f i p (list_key v) h.outer_calls
              (ap outer_leads e) refl refl (received-outer_leads (list_key v) r)
              (received-outer_waits (list_key v) r);
        inner_calls =
            move-Held g inner_leads inner_waits x.inner (λ j. f (x.pc j)) i p
              (map-Held g inner_leads inner_waits x.inner x.pc f h.inner_calls
                (received-inner_leads (list_key v) r) (received-inner_waits (list_key v) r))
              (sym (received-inner_leads (list_key v) r (x.pc i) ∙ ap inner_leads e)) (λ k. no_key);
        mutex =
            move-Locked x.mu (λ j. f (x.pc j)) i p
              (map-Locked x.mu x.pc f h.mutex (received-locks (list_key v) r))
              (sym (received-locks (list_key v) r (x.pc i) ∙ ap locks e));
      }
  Step-Inv x y (lock i v e free) h = record {
    outer_calls =
        move-Held g outer_leads outer_waits x.outer x.pc i (invalidating v) h.outer_calls
          (sym (ap outer_leads e)) (λ k. no_key);
    inner_calls =
        move-Held g inner_leads inner_waits x.inner x.pc i (invalidating v) h.inner_calls
          (sym (ap inner_leads e)) (λ k. no_key);
    mutex = lock-Locked x.pc i v (subst (λ mu. Locked mu x.pc) free h.mutex);
  }
  Step-Inv x y (invalidate i v e) h = record {
    outer_calls =
        move-Held g outer_leads outer_waits x.outer x.pc i (calling v true) h.outer_calls
          (sym (ap outer_leads e)) (λ k. no_key);
    inner_calls =
        move-Held g inner_leads inner_waits x.inner x.pc i (calling v true) h.inner_calls
          (sym (ap inner_leads e)) (λ k. no_key);
    mutex = unlock-Locked x.mu x.pc i (calling v true) h.mutex (ap locks e) refl;
  }

  -- The invariant holds in every state that is reached.
  pub Reach-Inv : (cache : s.cache.State) (x : Sys s g) → Reach s g cache x → Inv x
  Reach-Inv cache x nothing_yet = all_idle-Inv cache
  Reach-Inv cache y (later {x} r st) = Step-Inv x y st (Reach-Inv cache x r)
