-- ===== src/Provider/Router.antt =====
-- `ProviderRouter` of src/provider/router.rs. A hash map is a list of its entries in the order in which it
-- lists them, which the theorems leave open; each method holds its locks to its end.
pub mod Order
pub mod Calls
use rtp_sip_module.Prelude.{
  ℕ, ◌+◌, ◌-◌, Bool, true, false, not, ◌&&◌, ◌||◌, Option, none, some, List, [], ◌∷◌, if◌then◌else◌,
  ltb, leb, ◌==◌,
}
use rtp_sip_module.Prelude.Text.{same_text}
use rtp_sip_module.Provider.Config.{
  ProviderConfig, ProviderStats, default_stats, matches, match_length,
}

-- the map's `get`, `insert` and `remove`; a key stands in it once
module _ {V : Type 0} where
  unfoldable pub get : List (List ℕ × V) → List ℕ → Option V
  get [] id = none
  get ((k, v) ∷ entries) id = if same_text k id then some v else get entries id

  unfoldable pub put : List (List ℕ × V) → List ℕ → V → List (List ℕ × V)
  put [] id w = (id, w) ∷ []
  put ((k, v) ∷ entries) id w =
      let rest = put entries id w in if same_text k id then (k, w) ∷ entries else (k, v) ∷ rest

  unfoldable pub remove : List (List ℕ × V) → List ℕ → List (List ℕ × V)
  remove [] id = []
  remove ((k, v) ∷ entries) id =
      let rest = remove entries id in if same_text k id then rest else (k, v) ∷ rest

  -- `get_mut` and a change of what it finds
  unfoldable pub change : List (List ℕ × V) → List ℕ → (V → V) → List (List ℕ × V)
  change [] id f = []
  change ((k, v) ∷ entries) id f =
      let rest = change entries id f in if same_text k id then (k, f v) ∷ entries else (k, v) ∷ rest

  unfoldable pub values : List (List ℕ × V) → List V
  values [] = []
  values ((k, v) ∷ entries) = v ∷ values entries

-- `ProviderRouter`
pub record ProviderRouter : Type 0 where
  pub providers : List (List ℕ × ProviderConfig)
  pub stats : List (List ℕ × ProviderStats)

-- `new`
unfoldable pub new : ProviderRouter
new = record { providers = []; stats = [] }

-- `add_provider` and `remove_provider`
unfoldable pub add_provider : ProviderRouter → ProviderConfig → ProviderRouter
unfolding put default_stats
add_provider r config = record {
  providers = put r.providers config.id config;
  stats = put r.stats config.id default_stats;
}

unfoldable pub remove_provider : ProviderRouter → List ℕ → ProviderRouter × Option ProviderConfig
unfolding remove get
remove_provider r id =
    (record { providers = remove r.providers id; stats = remove r.stats id }, get r.providers id)

-- `get_provider`, `all_providers` and `get_stats`
unfoldable pub get_provider : ProviderRouter → List ℕ → Option ProviderConfig
unfolding get
get_provider r id = get r.providers id

unfoldable pub all_providers : ProviderRouter → List ProviderConfig
unfolding values
all_providers r = values r.providers

unfoldable pub get_stats : ProviderRouter → List ℕ → Option ProviderStats
unfolding get
get_stats r id = get r.stats id

-- the second filter of `route`: the call limit, and the registration
unfoldable pub is_available : Option ProviderStats → ProviderConfig → Bool
is_available none p = true
is_available (some s) p =
    not (elim p.max_concurrent [ none ↦ false | some most ↦ leb most s.active_calls ])
    && not (p.register && not s.registered)

unfoldable pub candidates : ProviderRouter → List ℕ → List ProviderConfig → List ProviderConfig
unfolding get_stats is_available
candidates r destination [] = []
candidates r destination (p ∷ ps) =
    let rest = candidates r destination ps in
    if matches p destination && is_available (get_stats r p.id) p then p ∷ rest else rest

-- the order of `sort_by`: the longer match, then the smaller priority; not `Greater`
unfoldable pub not_after : List ℕ → ProviderConfig → ProviderConfig → Bool
unfolding match_length
not_after destination a b =
    let a_len = match_length a destination in
    let b_len = match_length b destination in
    if a_len == b_len then leb a.priority b.priority else ltb b_len a_len

-- the stable sort
unfoldable pub place : List ℕ → ProviderConfig → List ProviderConfig → List ProviderConfig
unfolding not_after
place destination p [] = p ∷ []
place destination p (q ∷ qs) =
    let rest = place destination p qs in if not_after destination p q then p ∷ q ∷ qs else q ∷ rest

unfoldable pub sort : List ℕ → List ProviderConfig → List ProviderConfig
unfolding place
sort destination [] = []
sort destination (p ∷ ps) = place destination p (sort destination ps)

-- `route_with_fallback`
unfoldable pub route_with_fallback : ProviderRouter → List ℕ → List ProviderConfig
unfolding candidates sort all_providers
route_with_fallback r destination = sort destination (candidates r destination (all_providers r))

-- `into_iter().next()`
unfoldable pub first : List ProviderConfig → Option ProviderConfig
first [] = none
first (p ∷ ps) = some p

-- `route`
unfoldable pub route : ProviderRouter → List ℕ → Option ProviderConfig
unfolding candidates sort all_providers first
route r destination = first (sort destination (candidates r destination (all_providers r)))

-- `call_started`, `call_ended`, `call_failed` and `set_registered`
unfoldable pub call_started : ProviderRouter → List ℕ → ProviderRouter
unfolding change
call_started r provider_id = record r {
  stats =
      change r.stats provider_id
        (λ s. record s { active_calls = s.active_calls + 1; total_calls = s.total_calls + 1 });
}

unfoldable pub call_ended : ProviderRouter → List ℕ → ProviderRouter
unfolding change
call_ended r provider_id = record r {
  stats = change r.stats provider_id (λ s. record s { active_calls = s.active_calls - 1 });
}

unfoldable pub call_failed : ProviderRouter → List ℕ → List ℕ → ProviderRouter
unfolding change
call_failed r provider_id error = record r {
  stats = change r.stats provider_id (λ s. record s {
    failed_calls = s.failed_calls + 1;
    active_calls = s.active_calls - 1;
    last_error = some error;
  });
}

unfoldable pub set_registered : ProviderRouter → List ℕ → Bool → ProviderRouter
unfolding change
set_registered r provider_id registered = record r {
  stats = change r.stats provider_id (λ s. record s { registered = registered });
}
