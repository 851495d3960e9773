-- ===== src/Metrics/Labels.antt =====
-- The labels of a registration and of a sample.
use kube_client.Prelude.{
  String, List, [], ◌∷◌, map, if◌then◌else◌, ◌≡◌, refl, ap, ◌∙◌, Entries, put_key, str_eq, arith,
}
use kube_client.Metrics.{put_all, emptied, zero_labels, merge_labels, result_labels}

abbrev pub keys : Entries String → List String
keys es = map (λ e. e.0) es

put_name : List String → String → List String
put_name [] k = k ∷ []
put_name (n ∷ ns) k = if str_eq n k then n ∷ ns else n ∷ put_name ns k

put_names : List String → List String → List String
put_names [] out = out
put_names (k ∷ ks) out = put_names ks (put_name out k)

keys-put_key : (es : Entries String) (k v : String) → keys (put_key es k v) ≡ put_name (keys es) k
unfolding put_key put_name
keys-put_key [] k v = refl
keys-put_key (e ∷ es) k v = ground (arith, keys-put_key es k v)

keys-put_all : (es out : Entries String) → keys (put_all es out) ≡ put_names (keys es) (keys out)
unfolding put_all put_names
keys-put_all [] out = refl
keys-put_all (e ∷ es) out =
    keys-put_all es (put_key out e.0 e.1) ∙ ap (put_names (keys es)) (keys-put_key out e.0 e.1)

keys-emptied : (es : Entries String) → keys (emptied es) ≡ keys es
keys-emptied [] = refl
keys-emptied (e ∷ es) = ap (λ ks. e.0 ∷ ks) (keys-emptied es)

abbrev pub result_keys : List String
result_keys = "code" ∷ "method" ∷ "host" ∷ []

-- A sample of `Increment` has the labels of the registration.
pub keys-result_labels :
    (extra : Entries String) (code method host : String)
    → keys (result_labels extra code method host) ≡ keys (merge_labels extra result_keys)
unfolding result_labels merge_labels put_names
keys-result_labels extra code method host =
    rw
      (
        keys-put_key (put_key (put_key (put_all extra []) "code" code) "method" method) "host" host,
        keys-put_key (put_key (put_all extra []) "code" code) "method" method,
        keys-put_key (put_all extra []) "code" code,
        keys-put_all (zero_labels result_keys) (put_all (emptied extra) []),
        keys-put_all (emptied extra) [],
        keys-put_all extra [],
        keys-emptied extra,
      )
      refl
