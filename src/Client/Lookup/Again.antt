-- ===== src/Client/Lookup/Again.antt =====
-- The second lookup of `APIResource`, and the errors that it returns.
use kube_client.Prelude.{
  String, Bool, true, false, ◌≡◌, ◌≢◌, refl, sym, ap, ◌∙◌, if◌then◌else◌, Result, ok, fail,
}
use kube_client.Api.{ApiResource}
use kube_client.Client.Backend.{Error, Services}
use kube_client.Client.Discovery.{Client, wrap}
use kube_client.Client.Lookup.{
  unsupported, again, or_unsupported, invalidate_discovery, api_resource_once, api_resource,
}

module _ (s : Services) where
  unsupported_of :
      (v kind : String) (e : Error) (r : Result Error ApiResource)
      → or_unsupported s v kind r ≡ fail e
      → (e' : Error) × (r ≡ fail e') × (e ≡ wrap (unsupported v kind) e')
  unsupported_of v kind e (ok r) h = cc
  unsupported_of v kind e (fail e') h = (e', refl, cc)

  said : Result Error ApiResource → Bool
  said (fail e) = e.is_not_found
  said (ok r) = false

  abbrev unsupported_by : String → Error → Result Error ApiResource
  unsupported_by message e = fail (wrap message e)

  is_not_said :
      (message : String) (e1 e : Error)
      → e1.is_not_found ≡ false
      → unsupported_by message e1 ≡ fail e
      → e.is_not_found ≢ true
  unfolding said wrap
  is_not_said message e1 e is same nf = true_is_not (sym nf ∙ sym (ap said same) ∙ is)
    where
      true_is_not : true ≢ false
      true_is_not e = cc

  -- An error of `APIResource` for which `IsNotFound` holds wraps the error of a second lookup, made
  -- after the discovery cache was invalidated.
  pub api_resource-asks_again :
      (v kind : String) (c : Client s) (e : Error)
      → (api_resource s v kind c).0 ≡ fail e
      → e.is_not_found ≡ true
      → (e' : Error) × ((api_resource_once s v kind
            (invalidate_discovery s (api_resource_once s v kind c).1)).0
          ≡ fail e')
        × (e ≡ wrap (unsupported v kind) e')
  unfolding api_resource
  api_resource-asks_again v kind c e h nf =
      second (api_resource_once s v kind c).0 (api_resource_once s v kind c).1 h
    where
      second :
          (r : Result Error ApiResource) (c' : Client s)
          → (again s v kind r c').0 ≡ fail e
          → (e' : Error) × ((api_resource_once s v kind (invalidate_discovery s c')).0 ≡ fail e')
            × (e ≡ wrap (unsupported v kind) e')
      second (ok r) c' h = cc
      second (fail e1) c' h = by_kind e1.is_not_found refl h
        where
          by_kind :
              (b : Bool)
              → e1.is_not_found ≡ b
              → (if◌then◌else◌ {A = Result Error ApiResource × Client s} b
                  (
                    or_unsupported s v kind
                        (api_resource_once s v kind (invalidate_discovery s c')).0,
                    (api_resource_once s v kind (invalidate_discovery s c')).1,
                  )
                  (fail (wrap (unsupported v kind) e1), c')).0
                ≡ fail e
              → (e' : Error) × ((api_resource_once s v kind (invalidate_discovery s c')).0
                  ≡ fail e')
                × (e ≡ wrap (unsupported v kind) e')
          by_kind true is h = unsupported_of v kind e _ h
          by_kind false is h = absurd (is_not_said (unsupported v kind) e1 e is h nf)
