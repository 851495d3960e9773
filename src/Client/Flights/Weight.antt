-- ===== src/Client/Flights/Weight.antt =====
-- client/client.go: the steps of `APIResourceList` that goroutines have before them at most.
use kube_client.Prelude.{
  ℕ, zero, suc, ◌+◌, ◌*◌, ◌≤◌, ◌<◌, Bool, true, false, ◌≡◌, ◌==◌, arith, Bool-cases, inl, inr,
  ==_iff, subst,
}
use kube_client.Client.Flights.{
  Pc, idle, calling, waiting, leading, inner_waiting, fetching, fetched, computed, done, locking,
  invalidating, set_pc,
}

abbrev pub rounds_left : Bool → ℕ
rounds_left true = 0
rounds_left false = 8

-- The steps that a goroutine has before it at most.
abbrev pub weight : Pc → ℕ
weight idle = 0
weight (done v second r) = 1 + rounds_left second
weight (computed v second r) = 2 + rounds_left second
weight (waiting v second) = 2 + rounds_left second
weight (fetched v second gv got) = 3 + rounds_left second
weight (inner_waiting v second gv) = 3 + rounds_left second
weight (fetching v second gv) = 4 + rounds_left second
weight (leading v second) = 5 + rounds_left second
weight (calling v second) = 6 + rounds_left second
weight (invalidating v) = 7
weight (locking v) = 8

pub total : ℕ → (ℕ → Pc) → ℕ
total zero pc = 0
total (suc n) pc = total n pc + weight (pc n)

total-le :
    (n : ℕ) (pc : ℕ → Pc) (f : Pc → Pc) (i : ℕ) (p : Pc)
    → ((q : Pc) → weight (f q) ≤ weight q)
    → weight p ≤ weight (pc i)
    → total n (set_pc (λ j. f (pc j)) i p) ≤ total n pc
unfolding total
total-le zero pc f i p falls small = omega arith
total-le (suc n) pc f i p falls small = elim (Bool-cases (i == n)) [
  | inl is ↦ rw is (
      omega (
        arith,
        total-le n pc f i p falls small,
        subst (λ k. weight p ≤ weight (pc k)) ((==_iff i n).0 is) small,
      ))
  | inr not ↦ rw not (omega (arith, total-le n pc f i p falls small, falls (pc n)))
]

-- A step that makes its goroutine lighter, and none heavier, makes the first n lighter.
pub total-lt :
    (n : ℕ) (pc : ℕ → Pc) (f : Pc → Pc) (i : ℕ) (p : Pc)
    → ((q : Pc) → weight (f q) ≤ weight q)
    → weight p < weight (pc i)
    → i < n
    → total n (set_pc (λ j. f (pc j)) i p) < total n pc
unfolding total
total-lt zero pc f i p falls small below = elim below [ ]
total-lt (suc n) pc f i p falls small below = elim (Bool-cases (i == n)) [
  | inl is ↦ rw is (
      omega (
        arith,
        total-le n pc f i p falls (omega (arith, small)),
        subst (λ k. weight p < weight (pc k)) ((==_iff i n).0 is) small,
      ))
  | inr not ↦
      rw not
        (omega (arith, total-lt n pc f i p falls small (still_below i n below not), falls (pc n)))
]
  where
    still_below : (i n : ℕ) → i < suc n → (i == n) ≡ false → i < n
    still_below i n h other = ground arith

rounds_left-bound : (second : Bool) → rounds_left second ≤ 8
rounds_left-bound true = omega arith
rounds_left-bound false = omega arith

weight-bound : (q : Pc) → weight q ≤ 14
weight-bound (done v second r) = omega (arith, rounds_left-bound second)
weight-bound (computed v second r) = omega (arith, rounds_left-bound second)
weight-bound (waiting v second) = omega (arith, rounds_left-bound second)
weight-bound (fetched v second gv got) = omega (arith, rounds_left-bound second)
weight-bound (inner_waiting v second gv) = omega (arith, rounds_left-bound second)
weight-bound (fetching v second gv) = omega (arith, rounds_left-bound second)
weight-bound (leading v second) = omega (arith, rounds_left-bound second)
weight-bound (calling v second) = omega (arith, rounds_left-bound second)
weight-bound _ = omega arith

pub total-bound : (n : ℕ) (pc : ℕ → Pc) → total n pc ≤ 14 * n
unfolding total
total-bound zero pc = omega arith
total-bound (suc n) pc = omega (arith, total-bound n pc, weight-bound (pc n))
