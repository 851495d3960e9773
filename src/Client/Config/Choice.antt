-- ===== src/Client/Config/Choice.antt =====
-- Which configuration `Init` takes, and what a second `Init` does.
use kube_client.Prelude.{
  String, Bool, true, false, ◌&&◌, none, some, str_eq, Result, ok, fail, ◌≡◌, ◌≢◌, refl, sym, ap,
  ◌∙◌, eq_iff, Bool-cases, Option-cases, Result-cases, inl, inr,
}
use kube_client.Client.Config.{
  Floats, Environment, Settings, Chosen, Stat, exists, not_exist, other_error, file_exists,
  has_in_cluster_config, get_out_of_cluster_config, choose, configured, kube_token_file_path,
  kube_namespace_file_path,
}

module _ (f : Floats) (env : Environment f) where
  -- What has to be so for the in-cluster configuration to be taken.
  pub record IsInCluster (c : Settings f) : Type 0 where
    pub no_rest_config : c.rest_config ≡ none
    pub no_server : c.server ≡ ""
    pub out_of_cluster_error : String
    pub out_of_cluster :
        get_out_of_cluster_config f env c.context_name c.config_path ≡ fail out_of_cluster_error
    pub token : env.stat kube_token_file_path ≡ exists
    pub namespace_file : env.stat kube_namespace_file_path ≡ exists

  ok_inj : {A : Type 0} (a b : A) → ◌≡◌ {A = Result String A} (ok a) (ok b) → a ≡ b
  ok_inj a b h = cc

  not_in_cluster :
      (word : String) (ch : Chosen f)
      → str_eq word "in-cluster" ≡ false
      → word ≡ ch.config_type
      → ch.config_type ≢ "in-cluster"
  not_in_cluster word ch other is h = cc (sym other ∙ (eq_iff word "in-cluster").1 (is ∙ h))

  file_exists-stat : (path : String) → file_exists f env path ≡ true → env.stat path ≡ exists
  unfolding file_exists
  file_exists-stat path h = by_stat (env.stat path) refl h
    where
      by_stat :
          (st : Stat)
          → env.stat path ≡ st
          → elim st [ exists ↦ true | not_exist ↦ false | other_error ↦ false ] ≡ true
          → env.stat path ≡ exists
      by_stat exists e h = e
      by_stat not_exist e h = cc
      by_stat other_error e h = cc

  get_out_of_cluster_config-type :
      (context path : String) (ch : Chosen f)
      → get_out_of_cluster_config f env context path ≡ ok ch
      → "out-of-cluster" ≡ ch.config_type
  unfolding get_out_of_cluster_config
  get_out_of_cluster_config-type context path ch h =
      elim (Result-cases (env.namespace context path)) [
        | inr (err, failed) ↦ cc (rw failed at h)
        | inl (ns, named) ↦ elim (Result-cases (env.client_config context path)) [
          | inr (err, failed) ↦ cc (rw (named, failed) at h)
          | inl (config, found) ↦ ap (λ ch. ch.config_type) (ok_inj _ ch (rw (named, found) at h))
        ]
      ]

  both : (a b : Bool) → (a && b) ≡ true → (a ≡ true) × (b ≡ true)
  both true b e = (refl, e)
  both false b e = cc

  -- `Init` takes the in-cluster configuration only for a client without rest config and server, when
  -- there is no usable kubeconfig and the files of a service account are there.
  pub choose-IsInCluster :
      (c : Settings f) (ch : Chosen f)
      → choose f env c ≡ ok ch
      → ch.config_type ≡ "in-cluster"
      → IsInCluster c
  unfolding choose has_in_cluster_config
  choose-IsInCluster c ch h is = elim (Option-cases c.rest_config) [
    | inr (config, given) ↦ elim (Bool-cases (str_eq config.host "")) [
      | inl empty ↦ cc (rw (given, empty) at h)
      | inr named ↦ absurd (
          not_in_cluster "rest-config" ch refl
            (ap (λ ch. ch.config_type) (ok_inj _ ch (rw (given, named) at h))) is)
    ]
    | inl no_rest ↦ elim (Bool-cases (str_eq c.server "")) [
      | inr named ↦ absurd (
          not_in_cluster "server" ch refl
            (ap (λ ch. ch.config_type) (ok_inj _ ch (rw (no_rest, named) at h))) is)
      | inl no_server ↦
          elim (Result-cases (get_out_of_cluster_config f env c.context_name c.config_path)) [
            | inl (out, found) ↦ absurd (
                not_in_cluster "out-of-cluster" ch refl
                  (get_out_of_cluster_config-type c.context_name c.config_path ch
                    (found ∙ (rw (no_rest, no_server, found) at h)))
                  is)
            | inr (err, failed) ↦ elim (Bool-cases (has_in_cluster_config f env)) [
              | inr absent ↦ cc (rw (no_rest, no_server, failed, absent) at h)
              | inl present ↦
                  let (token, namespace) = both _ _ present in
                  record {
                    no_rest_config = no_rest;
                    no_server = (eq_iff c.server "").0 no_server;
                    out_of_cluster_error = err;
                    out_of_cluster = failed;
                    token = file_exists-stat kube_token_file_path token;
                    namespace_file = file_exists-stat kube_namespace_file_path namespace;
                  }
            ]
          ]
    ]
  ]

  -- The client after an `Init` that succeeded.
  abbrev after : Settings f → Chosen f → Settings f
  after c ch = record c {
    default_namespace = ch.default_ns;
    rest_config = some (configured f env c ch.config);
  }
