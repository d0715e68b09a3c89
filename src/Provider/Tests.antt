-- ===== src/Provider/Tests.antt =====
-- Routing between two providers, src/provider/router.rs.
use rtp_sip_module.Prelude.{
  ℕ, ◌≤◌, ◌≡◌, refl, ◌↔◌, ◌⊎◌, inl, true, false, none, some, List, [], ◌∷◌,
}
use rtp_sip_module.Provider.Config.{
  ProviderConfig, ProviderStats, with_prefixes, sip_uri, with_transport, Transport, matches,
}
use rtp_sip_module.Prelude.Text.{same_text, strip_prefix}
use rtp_sip_module.Provider.Router.{
  ProviderRouter, add_provider, all_providers, get_stats, route, route_with_fallback, call_started,
  is_available, candidates, put,
}
use rtp_sip_module.Provider.Router.Order.{
  IsIn, IsCandidate, IsPreferred, IsSorted, route-IsPreferred, route_with_fallback-IsSorted,
}
use rtp_sip_module.Provider.Router.Calls.{route-call_started}

-- a provider with one call at a time
abbrev provider : List ℕ → List (List ℕ) → ProviderConfig
provider id prefixes = record (rtp_sip_module.Provider.Config.new id (104 ∷ []) [] []) {
  prefixes = prefixes;
  max_concurrent = some 1;
}

-- "a" for all numbers, and "b" for those with +4
abbrev router : ProviderRouter
router =
    add_provider (add_provider rtp_sip_module.Provider.Router.new (provider (97 ∷ []) []))
      (provider (98 ∷ []) ((43 ∷ 52 ∷ []) ∷ []))

abbrev destination : List ℕ
destination = 43 ∷ 52 ∷ 49 ∷ []

route-IsPreferred_example :
    (p : ProviderConfig) × ((route router destination ≡ some p)
      × (IsIn p (all_providers router)
          × (IsCandidate router destination p
              × ((provider (97 ∷ []) [] ≡ p) ⊎ IsPreferred destination p (provider (97 ∷ []) [])))))
unfolding add_provider all_providers get_stats is_available rtp_sip_module.Provider.Router.new
    same_text rtp_sip_module.Provider.Config.new matches
route-IsPreferred_example =
    route-IsPreferred router destination (provider (97 ∷ []) []) (inl refl) (refl, refl)

route_with_fallback-IsSorted_example :
    IsSorted destination (route_with_fallback router destination)
    × (IsIn (provider (97 ∷ []) []) (route_with_fallback router destination) ↔ (
        IsIn (provider (97 ∷ []) []) (all_providers router)
        × IsCandidate router destination (provider (97 ∷ []) [])))
route_with_fallback-IsSorted_example =
    route_with_fallback-IsSorted router destination (provider (97 ∷ []) [])

route-call_started_example :
    (s' : ProviderStats) × ((get_stats (call_started router (98 ∷ [])) (98 ∷ []) ≡ some s')
      × ((s'.active_calls ≤ 1) × ((false ≡ false) ⊎ (s'.registered ≡ true))))
unfolding route add_provider get_stats rtp_sip_module.Provider.Router.new same_text
    rtp_sip_module.Provider.Config.new matches strip_prefix
route-call_started_example =
    route-call_started router destination (provider (98 ∷ []) ((43 ∷ 52 ∷ []) ∷ []))
      (record {
        active_calls = 0;
        total_calls = 0;
        failed_calls = 0;
        registered = false;
        last_error = none;
      })
      1 refl refl refl

-- While "b" has its one call, the next one goes to "a".
next_choice : route (call_started router (98 ∷ [])) destination ≡ some (provider (97 ∷ []) [])
unfolding route call_started add_provider rtp_sip_module.Provider.Router.new same_text
    rtp_sip_module.Provider.Config.new matches strip_prefix
next_choice = refl
