-- ===== src/Client/Flights/Lock.antt =====
-- client/client.go: the mutex of `Invalidate` beside the goroutines.
use kube_client.Prelude.{
  ℕ, String, Bool, true, false, Option, none, some, ◌≡◌, refl, sym, ap, ◌∙◌, ◌==◌, Bool-cases, inl,
  inr, some_inj, ==_iff,
}
use kube_client.Client.Flights.{Pc, invalidating, set_pc}

abbrev pub locks : Pc → Bool
locks (invalidating v) = true
locks _ = false

pub record Locked (mu : Option ℕ) (pc : ℕ → Pc) : Type 0 where
  pub taken : (i : ℕ) → mu ≡ some i → locks (pc i) ≡ true
  pub owned : (i : ℕ) → locks (pc i) ≡ true → mu ≡ some i

pub move-Locked :
    (mu : Option ℕ) (pc : ℕ → Pc) (i : ℕ) (p : Pc)
    → Locked mu pc
    → locks p ≡ locks (pc i)
    → Locked mu (set_pc pc i p)
move-Locked mu pc i p h same = record {
  taken = λ j e. elim (Bool-cases (i == j)) [
    | inl is ↦ rw is (same ∙ ap (λ n. locks (pc n)) ((==_iff i j).0 is) ∙ h.taken j e)
    | inr not ↦ rw not (h.taken j e)
  ];
  owned = λ j e. elim (Bool-cases (i == j)) [
    | inl is ↦
        h.owned j (ap (λ n. locks (pc n)) (sym ((==_iff i j).0 is)) ∙ sym same ∙ (rw is at e))
    | inr not ↦ h.owned j (rw not at e)
  ];
}

pub map-Locked :
    (mu : Option ℕ) (pc : ℕ → Pc) (f : Pc → Pc)
    → Locked mu pc
    → ((q : Pc) → locks (f q) ≡ locks q)
    → Locked mu (λ j. f (pc j))
map-Locked mu pc f h same = record {
  taken = λ j e. same (pc j) ∙ h.taken j e;
  owned = λ j e. h.owned j (sym (same (pc j)) ∙ e);
}

pub lock-Locked :
    (pc : ℕ → Pc) (i : ℕ) (v : String)
    → Locked none pc
    → Locked (some i) (set_pc pc i (invalidating v))
lock-Locked pc i v h = record {
  taken = λ j e. rw ((==_iff i j).1 (some_inj e)) refl;
  owned = λ j e. elim (Bool-cases (i == j)) [
    | inl is ↦ ap some ((==_iff i j).0 is)
    | inr not ↦ cc (h.owned j (rw not at e))
  ];
}

pub unlock-Locked :
    (mu : Option ℕ) (pc : ℕ → Pc) (i : ℕ) (p : Pc)
    → Locked mu pc
    → locks (pc i) ≡ true
    → locks p ≡ false
    → Locked none (set_pc pc i p)
unlock-Locked mu pc i p h holds frees = record {
  taken = λ j e. cc;
  owned = λ j e. elim (Bool-cases (i == j)) [
    | inl is ↦ cc (sym frees ∙ (rw is at e))
    | inr not ↦ cc ((==_iff i j).1 (some_inj (sym (h.owned i holds) ∙ h.owned j (rw not at e))))
  ];
}
