-- ===== src/Metrics/Names.antt =====
-- Metric names under a prefix.
use kube_client.Prelude.{
  ℕ, zero, Bool, true, false, [], ◌∷◌, ◌++◌, ◌≡◌, refl, ap, ◌∙◌, Text, codes, arith, all, not, ◌&&◌,
  length, ◌-◌, ◌==◌,
}
use kube_client.Api.Fold.{text_eq}
use kube_client.Metrics.{
  replace_prefix, replace_on, starts_with, request_latency_seconds, rate_limiter_latency_seconds,
  placeholder,
}

-- The name of each metric is the prefix and a fixed text.
pub latency_name :
    (prefix : Text)
    → replace_prefix request_latency_seconds prefix
      ≡ prefix ++ codes "kubernetes_client_request_latency_seconds"
unfolding replace_prefix replace_on starts_with
latency_name prefix = refl

pub limiter_name :
    (prefix : Text)
    → replace_prefix rate_limiter_latency_seconds prefix
      ≡ prefix ++ codes "kubernetes_client_rate_limiter_latency_seconds"
unfolding replace_prefix replace_on starts_with
limiter_name prefix = refl

text_eq-append : (p s t : Text) → text_eq (p ++ s) (p ++ t) ≡ text_eq s t
unfolding text_eq
text_eq-append [] s t = refl
text_eq-append (c ∷ p) s t = ground (arith, text_eq-append p s t)

-- The latency of requests and that of the rate limiter have different names.
pub latency_names_differ :
    (prefix : Text)
    → text_eq
        (replace_prefix request_latency_seconds prefix)
        (replace_prefix rate_limiter_latency_seconds prefix)
      ≡ false
unfolding text_eq
latency_names_differ prefix =
    rw (latency_name prefix, limiter_name prefix, text_eq-append prefix _ _) refl

abbrev pub has_no_brace : Text → Bool
has_no_brace s = all (λ c. not (c == b'{')) s

starts_with-other :
    (c : ℕ) (s : Text) → (c == b'{') ≡ false → starts_with placeholder (c ∷ s) ≡ false
unfolding starts_with
starts_with-other c s h = ground arith

has_no_brace-cons :
    (c : ℕ) (s : Text)
    → has_no_brace (c ∷ s) ≡ true
    → ((c == b'{') ≡ false) × (has_no_brace s ≡ true)
has_no_brace-cons c s h = both (c == b'{') (has_no_brace s) h
  where
    both : (a b : Bool) → (not a && b) ≡ true → (a ≡ false) × (b ≡ true)
    both true b e = cc
    both false b e = (refl, e)

replace_on-plain : (prefix s : Text) → has_no_brace s ≡ true → replace_on prefix zero s ≡ s
unfolding replace_on
replace_on-plain prefix [] h = refl
replace_on-plain prefix (c ∷ s) h =
    let (other, later) = has_no_brace-cons c s h in
    ap
      (λ b. elim b [
        | true ↦ prefix ++ replace_on prefix (length placeholder - 1) s
        | false ↦ c ∷ replace_on prefix zero s
      ])
      (starts_with-other c s other)
    ∙ ap (λ t. c ∷ t) (replace_on-plain prefix s later)

-- A template that is the placeholder and a text without opening brace becomes the prefix and that
-- text; a text without opening brace stays.
pub replace_prefix-placeholder :
    (rest prefix : Text)
    → has_no_brace rest ≡ true
    → (replace_prefix (placeholder ++ rest) prefix ≡ prefix ++ rest)
      × (replace_prefix rest prefix ≡ rest)
unfolding replace_prefix replace_on starts_with
replace_prefix-placeholder rest prefix h =
    (ap (λ s. prefix ++ s) (replace_on-plain prefix rest h), replace_on-plain prefix rest h)
