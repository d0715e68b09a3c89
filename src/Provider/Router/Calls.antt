-- ===== src/Provider/Router/Calls.antt =====
-- The call limit of a provider, src/provider/router.rs.
use rtp_sip_module.Prelude.{
  ℕ, ◌+◌, ◌≤◌, ◌≡◌, sym, ◌⊎◌, inl, inr, true, false, some, List, [], ◌∷◌, arith, Bool-cases,
}
use rtp_sip_module.Prelude.Text.{same_text}
use rtp_sip_module.Provider.Config.{ProviderConfig, ProviderStats}
use rtp_sip_module.Provider.Router.{
  ProviderRouter, get, change, get_stats, is_available, route, call_started,
}
use rtp_sip_module.Provider.Router.Order.{route-IsCandidate}

module _ {V : Type 0} where
  get-change_self :
      (entries : List (List ℕ × V)) (id : List ℕ) (f : V → V) (v : V)
      → get entries id ≡ some v
      → get (change entries id f) id ≡ some (f v)
  unfolding get change
  get-change_self [] id f v e = absurd (ground arith)
  get-change_self ((k, w) ∷ entries) id f v e = elim (Bool-cases (same_text k id)) [
    | inl t ↦ ground arith
    | inr t ↦ ground (arith, get-change_self entries id f v)
  ]

limit-started :
    (s : ProviderStats) (p : ProviderConfig) (most : ℕ)
    → p.max_concurrent ≡ some most
    → is_available (some s) p ≡ true
    → (s.active_calls + 1 ≤ most) × ((p.register ≡ false) ⊎ (s.registered ≡ true))
unfolding is_available
limit-started s p most m h = ground arith

-- A call that is started with the provider that `route` has just returned keeps within the provider's
-- limit of concurrent calls, and the provider is registered if it has to be.
pub route-call_started :
    (r : ProviderRouter) (destination : List ℕ) (p : ProviderConfig) (s : ProviderStats) (most : ℕ)
    → route r destination ≡ some p
    → get_stats r p.id ≡ some s
    → p.max_concurrent ≡ some most
    → (s' : ProviderStats) × ((get_stats (call_started r p.id) p.id ≡ some s')
        × ((s'.active_calls ≤ most) × ((p.register ≡ false) ⊎ (s'.registered ≡ true))))
unfolding get_stats call_started
route-call_started r destination p s most e g m =
    let (i, c) = route-IsCandidate r destination p e in
    (
      record s { active_calls = s.active_calls + 1; total_calls = s.total_calls + 1 },
      (
        get-change_self r.stats p.id
            (λ s. record s { active_calls = s.active_calls + 1; total_calls = s.total_calls + 1 }) s
            g,
        limit-started s p most m (rw (sym g) c.1),
      ),
    )
