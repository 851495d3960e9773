-- ===== src/Client/Flights/Views.antt =====
-- client/client.go: the goroutines of `APIResourceList` as the two groups see them, and what the end
-- of a call does to those that waited.
use kube_client.Prelude.{
  String, false, Option, none, some, ◌≡◌, refl, ap, str_eq, arith, Bool-cases, inl, inr, some_inj,
  eq_iff,
}
use kube_client.Api.{ApiResourceList}
use kube_client.Client.Backend.{Reply, Services}
use kube_client.Client.Lookup.{Lists}
use kube_client.Client.Flights.{
  Group, Pc, waiting, leading, inner_waiting, fetching, fetched, computed, list_key, received,
  inner_received,
}
use kube_client.Client.Flights.Lock.{locks}

-- The key whose call a goroutine runs, or waits for.
abbrev pub outer_leads : Pc → Option String
outer_leads (leading v second) = some (list_key v)
outer_leads (inner_waiting v second gv) = some (list_key v)
outer_leads (fetching v second gv) = some (list_key v)
outer_leads (fetched v second gv answer) = some (list_key v)
outer_leads (computed v second r) = some (list_key v)
outer_leads _ = none

abbrev pub outer_waits : Pc → Option String
outer_waits (waiting v second) = some (list_key v)
outer_waits _ = none

abbrev pub inner_leads : Pc → Option String
inner_leads (fetching v second gv) = some gv
inner_leads (fetched v second gv answer) = some gv
inner_leads _ = none

abbrev pub inner_waits : Pc → Option String
inner_waits (inner_waiting v second gv) = some gv
inner_waits _ = none

pub no_key : {P : Type 0} {k : String} → none ≡ some k → P
no_key h = cc

not_eq : (a key k : String) → a ≡ k → str_eq a key ≡ false → str_eq key k ≡ false
not_eq a key k is h = ground (arith, eq_iff a key, eq_iff key k)

pub received-outer_leads :
    (key : String) (got : Lists) (q : Pc) → outer_leads (received key got q) ≡ outer_leads q
received-outer_leads key got (waiting v second) = elim (Bool-cases (str_eq (list_key v) key)) [
  | inl same ↦ rw same refl
  | inr other ↦ rw other refl
]
received-outer_leads key got q = refl

pub received-outer_waits :
    (key : String) (got : Lists) (q : Pc) (k : String)
    → outer_waits (received key got q) ≡ some k
    → (outer_waits q ≡ some k) × (str_eq key k ≡ false)
received-outer_waits key got (waiting v second) k h = elim (Bool-cases (str_eq (list_key v) key)) [
  | inl same ↦ no_key (rw same at h)
  | inr other ↦
      let is = some_inj (rw other at h) in (ap some is, not_eq (list_key v) key k is other)
]
received-outer_waits key got q k h = no_key h

pub received-inner_leads :
    (key : String) (got : Lists) (q : Pc) → inner_leads (received key got q) ≡ inner_leads q
received-inner_leads key got (waiting v second) = elim (Bool-cases (str_eq (list_key v) key)) [
  | inl same ↦ rw same refl
  | inr other ↦ rw other refl
]
received-inner_leads key got q = refl

pub received-inner_waits :
    (key : String) (got : Lists) (q : Pc) → inner_waits (received key got q) ≡ inner_waits q
received-inner_waits key got (waiting v second) = elim (Bool-cases (str_eq (list_key v) key)) [
  | inl same ↦ rw same refl
  | inr other ↦ rw other refl
]
received-inner_waits key got q = refl

pub received-locks : (key : String) (got : Lists) (q : Pc) → locks (received key got q) ≡ locks q
received-locks key got (waiting v second) = elim (Bool-cases (str_eq (list_key v) key)) [
  | inl same ↦ rw same refl
  | inr other ↦ rw other refl
]
received-locks key got q = refl

module _ (s : Services) (g : Group) where
  -- What the end of a call does to the goroutines that waited for it, as the tables see it.
  pub inner_received-outer_leads :
      (key : String) (got : Reply (Option ApiResourceList)) (q : Pc)
      → outer_leads (inner_received s g key got q) ≡ outer_leads q
  inner_received-outer_leads key got (inner_waiting v second gv) =
      elim (Bool-cases (str_eq gv key)) [ inl same ↦ rw same refl | inr other ↦ rw other refl ]
  inner_received-outer_leads key got q = refl

  pub inner_received-outer_waits :
      (key : String) (got : Reply (Option ApiResourceList)) (q : Pc)
      → outer_waits (inner_received s g key got q) ≡ outer_waits q
  inner_received-outer_waits key got (inner_waiting v second gv) =
      elim (Bool-cases (str_eq gv key)) [ inl same ↦ rw same refl | inr other ↦ rw other refl ]
  inner_received-outer_waits key got q = refl

  pub inner_received-inner_leads :
      (key : String) (got : Reply (Option ApiResourceList)) (q : Pc)
      → inner_leads (inner_received s g key got q) ≡ inner_leads q
  inner_received-inner_leads key got (inner_waiting v second gv) =
      elim (Bool-cases (str_eq gv key)) [ inl same ↦ rw same refl | inr other ↦ rw other refl ]
  inner_received-inner_leads key got q = refl

  pub inner_received-inner_waits :
      (key : String) (got : Reply (Option ApiResourceList)) (q : Pc) (k : String)
      → inner_waits (inner_received s g key got q) ≡ some k
      → (inner_waits q ≡ some k) × (str_eq key k ≡ false)
  inner_received-inner_waits key got (inner_waiting v second gv) k h =
      elim (Bool-cases (str_eq gv key)) [
        | inl same ↦ no_key (rw same at h)
        | inr other ↦ let is = some_inj (rw other at h) in (ap some is, not_eq gv key k is other)
      ]
  inner_received-inner_waits key got q k h = no_key h

  pub inner_received-locks :
      (key : String) (got : Reply (Option ApiResourceList)) (q : Pc)
      → locks (inner_received s g key got q) ≡ locks q
  inner_received-locks key got (inner_waiting v second gv) = elim (Bool-cases (str_eq gv key)) [
    | inl same ↦ rw same refl
    | inr other ↦ rw other refl
  ]
  inner_received-locks key got q = refl
