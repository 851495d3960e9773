-- ===== src/Client/Flights/Stale.antt =====
-- client/client.go: a second lookup of `APIResourceList` beside a first one of another goroutine.
use kube_client.Prelude.{
  ℕ, String, true, false, Option, none, some, [], ◌≡◌, ◌≢◌, refl, ap, ◌∙◌, ◌==◌, str_eq, eq_iff,
  ==_iff,
}
use kube_client.Api.{GroupVersion, ApiResourceList}
use kube_client.Client.Backend.{Error, Reply, Services}
use kube_client.Client.Discovery.{contains, wrap, sf_invalidate}
use kube_client.Client.Lookup.{Lists, listed, no_resources}
use kube_client.Client.Flights.{
  Group, idle, waiting, fetched, done, locking, list_key, received, inner_received, Sys, ask, lead,
  join, inner_lead, fetch, inner_return, return, retry, lock, invalidate, asks_again, all_idle,
  Reach, nothing_yet, later,
}

str_eq_refl : (k : String) → str_eq k k ≡ true
str_eq_refl k = (eq_iff k k).1 refl

==_refl : (i : ℕ) → (i == i) ≡ true
==_refl i = (==_iff i i).1 refl

module _ (g : Group) where
  leader-enter_same : (k : String) (i : ℕ) (t : g.Table) → g.leader (g.enter k i t) k ≡ some i
  leader-enter_same k i t = g.leader-enter k k i t ∙ (rw (str_eq_refl k) refl)

  leader-leave_same : (k : String) (t : g.Table) → g.leader (g.leave k t) k ≡ none
  leader-leave_same k t = g.leader-leave k k t ∙ (rw (str_eq_refl k) refl)

module _ (s : Services) (g : Group) (st : s.cache.State) (v : String) (gv : GroupVersion)
    (answer : Reply (Option ApiResourceList)) (named : v ≢ "") (parsed : s.schema.parse v ≡ some gv)
    (answers : s.cache.resources_for (s.schema.print gv) st ≡ (answer, st)) where
  -- Neither group has a call in flight for the list, and the cache is in the first state.
  record Free (x : Sys s g) : Type 0 where
    reached : Reach s g st x
    no_call : g.leader x.outer (list_key v) ≡ none
    no_inner_call : g.leader x.inner (s.schema.print gv) ≡ none
    unlocked : x.mu ≡ none
    same_cache : x.cache ≡ st

  -- Goroutine i has the answer of the cache, and its calls are in flight.
  record InFlight (x y : Sys s g) (i : ℕ) : Type 0 where
    reached : Reach s g st y
    has_answer : y.pc i ≡ fetched v false (s.schema.print gv) answer
    others_same : (j : ℕ) → (i == j) ≡ false → y.pc j ≡ x.pc j
    call : g.leader y.outer (list_key v) ≡ some i
    unlocked : y.mu ≡ none
    same_cache : y.cache ≡ st

  looks_up : (x : Sys s g) (i : ℕ) → Free x → x.pc i ≡ idle → (y : Sys s g) × InFlight x y i
  looks_up x i h e =
      let r1 = later h.reached (ask i v named e) in
      let r2 = later r1 (lead i v false (rw (==_refl i) refl) h.no_call) in
      let r3 = later r2 (inner_lead i v false gv (rw (==_refl i) refl) parsed h.no_inner_call) in
      let r4 = later r3 (fetch i v false (s.schema.print gv) (rw (==_refl i) refl)) in
      (
        _,
        record {
          reached = r4;
          has_answer = rw (==_refl i) (
              ap
                (λ c.
                  fetched v false (s.schema.print gv)
                    (s.cache.resources_for (s.schema.print gv) c).0)
                h.same_cache
              ∙ ap (λ a. fetched v false (s.schema.print gv) a.0) answers);
          others_same = λ j other. rw other refl;
          call = leader-enter_same g (list_key v) i x.outer;
          unlocked = h.unlocked;
          same_cache =
              ap (λ c. (s.cache.resources_for (s.schema.print gv) c).1) h.same_cache
              ∙ ap (λ a. a.1) answers;
        },
      )

  -- The result of the lookup.
  abbrev stale : Lists
  stale = listed s v answer

  module _ (refused : asks_again false stale.err ≡ true) where
    retries :
        (x : Sys s g)
        → Free x
        → x.pc 0 ≡ idle
        → x.pc 1 ≡ idle
        → (y : Sys s g) × Free y × (y.pc 0 ≡ idle) × (y.pc 1 ≡ locking v)
    retries x h idle_0 idle_1 =
        let (z, f) = looks_up x 1 h idle_1 in
        let p =
          ap (received (list_key v) stale)
            (ap (inner_received s g (s.schema.print gv) answer) (f.others_same 0 refl ∙ idle_0)) in
        let r5 = later f.reached (inner_return 1 v false (s.schema.print gv) answer f.has_answer) in
        let r6 = later r5 (return 1 v false stale refl) in
        let r7 = later r6 (retry 1 v false stale refl refused) in
        (
          _,
          record {
            reached = r7;
            no_call = leader-leave_same g (list_key v) z.outer;
            no_inner_call = leader-leave_same g (s.schema.print gv) z.inner;
            unlocked = f.unlocked;
            same_cache = f.same_cache;
          },
          p,
          refl,
        )

    -- Goroutine 0 has the answer when goroutine 1 invalidates the cache and joins its call.
    joins :
        (x : Sys s g)
        → Free x
        → x.pc 0 ≡ idle
        → x.pc 1 ≡ locking v
        → (y : Sys s g) × Reach s g st y
          × (y.pc 0 ≡ fetched v false (s.schema.print gv) answer)
          × (y.pc 1 ≡ waiting v true)
          × (y.cache ≡ sf_invalidate s st)
    joins x h idle_0 locking_1 =
        let (z, f) = looks_up x 0 h idle_0 in
        let r12 = later f.reached (lock 1 v (f.others_same 1 refl ∙ locking_1) f.unlocked) in
        let r13 = later r12 (invalidate 1 v refl) in
        let r14 = later r13 (join 1 0 v true refl f.call) in
        (_, r14, f.has_answer, refl, ap (sf_invalidate s) f.same_cache)

    returns :
        (x : Sys s g)
        → Reach s g st x
        → x.pc 0 ≡ fetched v false (s.schema.print gv) answer
        → x.pc 1 ≡ waiting v true
        → (y : Sys s g) × Reach s g st y × (y.pc 1 ≡ done v true stale) × (y.cache ≡ x.cache)
    returns x r has_answer waiting_1 =
        let r15 = later r (inner_return 0 v false (s.schema.print gv) answer has_answer) in
        let r16 = later r15 (return 0 v false stale refl) in
        (
          _,
          r16,
          ap (λ q. received (list_key v) stale (inner_received s g (s.schema.print gv) answer q))
                waiting_1
              ∙ (rw (str_eq_refl (list_key v)) refl),
          refl,
        )

    stale_run :
        (x : Sys s g) × Reach s g st x
        × (x.pc 1 ≡ done v true stale)
        × (x.cache ≡ sf_invalidate s st)
    stale_run =
        let (x, free, idle_0, locking_1) = retries (all_idle s g st) start_Free refl refl in
        let (y, r, has_answer, waiting_1, cache) = joins x free idle_0 locking_1 in
        let (z, r', got, same) = returns y r has_answer waiting_1 in (z, r', got, same ∙ cache)
      where
        start_Free : Free (all_idle s g st)
        start_Free = record {
          reached = nothing_yet;
          no_call = g.leader-idle_table (list_key v);
          no_inner_call = g.leader-idle_table (s.schema.print gv);
          unlocked = refl;
          same_cache = refl;
        }

module _ (s : Services) (g : Group) where
  -- When the cache answers a lookup with an error whose text, behind the client's, has "not found",
  -- and keeps its state, for an apiVersion that parses and is not empty, then the interleavings reach
  -- a state where goroutine 1 has invalidated the cache, has asked a second time after that, and still
  -- has the error from before as its result; what the cache answers once it is invalidated plays no
  -- part.
  pub stale_list :
      (st : s.cache.State) (v : String) (gv : GroupVersion) (value : Option ApiResourceList)
      (e : Error)
      → v ≢ ""
      → s.schema.parse v ≡ some gv
      → s.cache.resources_for (s.schema.print gv) st ≡ (record { value = value; err = some e }, st)
      → contains (wrap (no_resources v) e).text "not found" ≡ true
      → (x : Sys s g) × Reach s g st x
        × (x.pc 1 ≡ done v true (record { value = []; err = some (wrap (no_resources v) e) }))
        × (x.cache ≡ sf_invalidate s st)
  stale_list st v gv value e named parsed answers not_found =
      stale_run s g st v gv (record { value = value; err = some e }) named parsed answers not_found
