-- ===== src/Provider/Router/Order.antt =====
-- Which provider a destination gets, src/provider/router.rs.
use rtp_sip_module.Prelude.{
  ℕ, ◌<◌, ◌≤◌, ◌≡◌, refl, sym, ◌⊎◌, inl, inr, ◌↔◌, true, false, ◌&&◌, some, List, [], ◌∷◌, arith,
  Bool-cases,
}
use rtp_sip_module.Provider.Config.{ProviderConfig, matches, match_length}
use rtp_sip_module.Provider.Router.{
  ProviderRouter, all_providers, get_stats, is_available, candidates, not_after, place, sort,
  route_with_fallback, first, route,
}

-- The provider stands in the list.
abbrev pub IsIn : ProviderConfig → List ProviderConfig → Type 0
IsIn p [] = ⊥
IsIn p (q ∷ qs) = (p ≡ q) ⊎ IsIn p qs

-- The first provider is no worse a choice than the second one: it has a longer match, or one as long and
-- a priority that is not larger.
abbrev pub IsPreferred : List ℕ → ProviderConfig → ProviderConfig → Type 0
IsPreferred destination p q =
    (match_length q destination < match_length p destination)
    ⊎ ((match_length q destination ≡ match_length p destination) × (p.priority ≤ q.priority))

-- The provider matches and is available.
abbrev pub IsCandidate : ProviderRouter → List ℕ → ProviderConfig → Type 0
IsCandidate r destination p =
    (matches p destination ≡ true) × (is_available (get_stats r p.id) p ≡ true)

-- The provider is preferred to all in a list; each provider is preferred to all after it.
abbrev pub IsPreferredTo : List ℕ → ProviderConfig → List ProviderConfig → Type 0
IsPreferredTo destination p [] = Unit
IsPreferredTo destination p (q ∷ qs) = IsPreferred destination p q × IsPreferredTo destination p qs

abbrev pub IsSorted : List ℕ → List ProviderConfig → Type 0
IsSorted destination [] = Unit
IsSorted destination (p ∷ ps) = IsPreferredTo destination p ps × IsSorted destination ps

not_after-IsPreferred :
    (destination : List ℕ) (p q : ProviderConfig)
    → not_after destination p q ≡ true
    → IsPreferred destination p q
unfolding not_after
not_after-IsPreferred destination p q h = ground arith

after-IsPreferred :
    (destination : List ℕ) (p q : ProviderConfig)
    → not_after destination p q ≡ false
    → IsPreferred destination q p
unfolding not_after
after-IsPreferred destination p q h = ground arith

IsPreferred-trans :
    (destination : List ℕ) (p q s : ProviderConfig)
    → IsPreferred destination p q
    → IsPreferred destination q s
    → IsPreferred destination p s
IsPreferred-trans destination p q s h k = ground arith

IsIn-place :
    (destination : List ℕ) (p q : ProviderConfig) (ps : List ProviderConfig)
    → IsIn q (place destination p ps)
    → (q ≡ p) ⊎ IsIn q ps
unfolding place
IsIn-place destination p q [] (inl e) = inl e
IsIn-place destination p q [] (inr h) = elim h [ ]
IsIn-place destination p q (s ∷ ps) h = elim (Bool-cases (not_after destination p s)) [
  | inl e ↦ ground arith
  | inr e ↦ ground (arith, IsIn-place destination p q ps)
]

place-IsIn :
    (destination : List ℕ) (p q : ProviderConfig) (ps : List ProviderConfig)
    → (q ≡ p) ⊎ IsIn q ps
    → IsIn q (place destination p ps)
unfolding place
place-IsIn destination p q [] h = h
place-IsIn destination p q (s ∷ ps) h = elim (Bool-cases (not_after destination p s)) [
  | inl e ↦ ground arith
  | inr e ↦ ground (arith, place-IsIn destination p q ps)
]

IsIn-sort :
    (destination : List ℕ) (q : ProviderConfig) (ps : List ProviderConfig)
    → IsIn q (sort destination ps) ↔ IsIn q ps
unfolding sort
IsIn-sort destination q [] = (λ h. h, λ h. h)
IsIn-sort destination q (p ∷ ps) =
    let (there, back) = IsIn-sort destination q ps in
    (
      λ h. elim (IsIn-place destination p q (sort destination ps) h) [
        | inl e ↦ inl e
        | inr k ↦ inr (there k)
      ],
      λ h.
          place-IsIn destination p q (sort destination ps)
            (elim h [ inl e ↦ inl e | inr k ↦ inr (back k) ]),
    )

IsPreferredTo-trans :
    (destination : List ℕ) (p q : ProviderConfig) (ps : List ProviderConfig)
    → IsPreferred destination p q
    → IsPreferredTo destination q ps
    → IsPreferredTo destination p ps
IsPreferredTo-trans destination p q [] h k = tt
IsPreferredTo-trans destination p q (s ∷ ps) h (k, m) =
    (IsPreferred-trans destination p q s h k, IsPreferredTo-trans destination p q ps h m)

place-IsPreferredTo :
    (destination : List ℕ) (s p : ProviderConfig) (ps : List ProviderConfig)
    → IsPreferred destination s p
    → IsPreferredTo destination s ps
    → IsPreferredTo destination s (place destination p ps)
unfolding place
place-IsPreferredTo destination s p [] h k = (h, tt)
place-IsPreferredTo destination s p (q ∷ ps) h (k, m) =
    elim (Bool-cases (not_after destination p q)) [
      | inl e ↦ rw (e) (h, (k, m))
      | inr e ↦ rw (e) (k, place-IsPreferredTo destination s p ps h m)
    ]

place-IsSorted :
    (destination : List ℕ) (p : ProviderConfig) (ps : List ProviderConfig)
    → IsSorted destination ps
    → IsSorted destination (place destination p ps)
unfolding place
place-IsSorted destination p [] h = (tt, tt)
place-IsSorted destination p (q ∷ ps) (h, k) = elim (Bool-cases (not_after destination p q)) [
  | inl e ↦
      let better = not_after-IsPreferred destination p q e in
      rw (e) ((better, IsPreferredTo-trans destination p q ps better h), (h, k))
  | inr e ↦ rw (e) (
    place-IsPreferredTo destination q p ps (after-IsPreferred destination p q e) h,
    place-IsSorted destination p ps k,
  )
]

sort-IsSorted :
    (destination : List ℕ) (ps : List ProviderConfig) → IsSorted destination (sort destination ps)
unfolding sort
sort-IsSorted destination [] = tt
sort-IsSorted destination (p ∷ ps) =
    place-IsSorted destination p (sort destination ps) (sort-IsSorted destination ps)

IsIn-candidates :
    (r : ProviderRouter) (destination : List ℕ) (q : ProviderConfig) (ps : List ProviderConfig)
    → IsIn q (candidates r destination ps)
    → IsIn q ps × IsCandidate r destination q
unfolding candidates
IsIn-candidates r destination q [] h = elim h [ ]
IsIn-candidates r destination q (p ∷ ps) h =
    elim (Bool-cases (matches p destination && is_available (get_stats r p.id) p)) [
      | inl e ↦
          (let chosen : IsCandidate r destination p = ground arith in
            let h' : IsIn q (p ∷ candidates r destination ps) = ground arith in
            elim h' [
              | inl same ↦ (inl same, rw (same) chosen)
              | inr k ↦ let (there, c) = IsIn-candidates r destination q ps k in (inr there, c)
            ])
      | inr e ↦ ground (arith, IsIn-candidates r destination q ps)
    ]

candidates-IsIn :
    (r : ProviderRouter) (destination : List ℕ) (q : ProviderConfig) (ps : List ProviderConfig)
    → IsIn q ps
    → IsCandidate r destination q
    → IsIn q (candidates r destination ps)
unfolding candidates
candidates-IsIn r destination q [] h c = elim h [ ]
candidates-IsIn r destination q (p ∷ ps) (inl same) c =
    let c' : IsCandidate r destination p = rw (sym same) c in ground arith
candidates-IsIn r destination q (p ∷ ps) (inr h) c =
    ground (arith, candidates-IsIn r destination q ps h c)

IsIn-IsPreferred :
    (destination : List ℕ) (p q : ProviderConfig) (ps : List ProviderConfig)
    → IsPreferredTo destination p ps
    → IsIn q ps
    → IsPreferred destination p q
IsIn-IsPreferred destination p q [] h i = elim i [ ]
IsIn-IsPreferred destination p q (s ∷ ps) (h, k) (inl same) = rw (same) h
IsIn-IsPreferred destination p q (s ∷ ps) (h, k) (inr i) = IsIn-IsPreferred destination p q ps k i

-- The providers that `route_with_fallback` lists are those that match the destination and are available,
-- each preferred to all after it: by the length of its match, then by its priority.
pub route_with_fallback-IsSorted :
    (r : ProviderRouter) (destination : List ℕ) (q : ProviderConfig)
    → IsSorted destination (route_with_fallback r destination)
      × (IsIn q (route_with_fallback r destination)
          ↔ (IsIn q (all_providers r) × IsCandidate r destination q))
unfolding route_with_fallback
route_with_fallback-IsSorted r destination q =
    let found = candidates r destination (all_providers r) in
    let (there, back) = IsIn-sort destination q found in
    (
      sort-IsSorted destination found,
      (
        λ h. IsIn-candidates r destination q (all_providers r) (there h),
        λ h. back (candidates-IsIn r destination q (all_providers r) h.0 h.1),
      ),
    )

first-IsIn : (p : ProviderConfig) (ps : List ProviderConfig) → first ps ≡ some p → IsIn p ps
unfolding first
first-IsIn p [] e = absurd (ground arith)
first-IsIn p (s ∷ ps) e = inl (ground arith)

first-IsPreferred :
    (destination : List ℕ) (q : ProviderConfig) (ps : List ProviderConfig)
    → IsSorted destination ps
    → IsIn q ps
    → (p : ProviderConfig) × ((first ps ≡ some p)
        × (IsIn p ps × ((q ≡ p) ⊎ IsPreferred destination p q)))
unfolding first
first-IsPreferred destination q [] h i = elim i [ ]
first-IsPreferred destination q (p ∷ ps) (h, k) (inl same) = (p, (refl, (inl refl, inl same)))
first-IsPreferred destination q (p ∷ ps) (h, k) (inr i) =
    (p, (refl, (inl refl, inr (IsIn-IsPreferred destination p q ps h i))))

-- A provider that `route` returns is one of the router's that matches and is available.
pub route-IsCandidate :
    (r : ProviderRouter) (destination : List ℕ) (p : ProviderConfig)
    → route r destination ≡ some p
    → IsIn p (all_providers r) × IsCandidate r destination p
unfolding route
route-IsCandidate r destination p e =
    let found = candidates r destination (all_providers r) in
    IsIn-candidates r destination p (all_providers r)
      ((IsIn-sort destination p found).0 (first-IsIn p (sort destination found) e))

-- Where any provider matches the destination and is available, `route` returns one, which does both and
-- is that provider or preferred to it.
pub route-IsPreferred :
    (r : ProviderRouter) (destination : List ℕ) (q : ProviderConfig)
    → IsIn q (all_providers r)
    → IsCandidate r destination q
    → (p : ProviderConfig) × ((route r destination ≡ some p)
        × (IsIn p (all_providers r)
            × (IsCandidate r destination p × ((q ≡ p) ⊎ IsPreferred destination p q))))
unfolding route
route-IsPreferred r destination q h c =
    let found = candidates r destination (all_providers r) in
    let (p, (e, (i, better))) =
      first-IsPreferred destination q (sort destination found) (sort-IsSorted destination found) (
        (IsIn-sort destination q found).1
          (candidates-IsIn r destination q (all_providers r) h c)) in
    let (there, c') = route-IsCandidate r destination p e in (p, (e, (there, (c', better))))
