-- ===== src/Profile/Catalog/Names.antt =====
-- `ProfileCatalog::resolve` of src/profile.rs: the profile that a selector names.
use ratash.Common.{
  ℕ, ◌≡◌, refl, sym, ap, ◌∙◌, true, Option, none, some, List, [], ◌∷◌, Bool-cases, inl, inr, ◌⊎◌,
  arith,
}
use ratash.Common.Map
use ratash.Common.Map.{Map}
use ratash.Common.Result.{ok}
use ratash.Common.Text.{Text, same_text}
use ratash.Profile.Catalog.{Profile, ProfileCatalog, candidates, resolve_parsed, resolve}
use ratash.Profile.Catalog.Outcomes.{only_candidate-ok}

module _ {Url : Type 0} where
  -- A profile is stored under its own identifier.
  unfoldable pub IsKeyed : Map (Profile Url) → Type 0
  IsKeyed m = (k : ℕ) (p : Profile Url) → Map.get k m ≡ some p → p.id ≡ k

  -- The profile of a name, and there is no other.
  pub record Named (selector : Text) (m : Map (Profile Url)) (id : ℕ) : Type 0 where
    pub profile : Profile Url
    pub found : Map.get id m ≡ some profile
    pub name_is : same_text profile.name selector ≡ true
    pub only :
        (k : ℕ) (other : Profile Url)
        → Map.get k m ≡ some other
        → same_text other.name selector ≡ true
        → other.id ≡ id

  tail_Keyed :
      (j : ℕ) (p : Profile Url) (m : Map (Profile Url))
      → Map.Above j m
      → IsKeyed ((j, p) ∷ m)
      → IsKeyed m
  unfolding IsKeyed
  tail_Keyed j p m a keyed k q h = keyed k q (Map.get-later j k p q m a h)

  pub keyed_at :
      (m : Map (Profile Url)) (k : ℕ) (p : Profile Url)
      → IsKeyed m
      → Map.get k m ≡ some p
      → p.id ≡ k
  unfolding IsKeyed
  keyed_at m k p keyed h = keyed k p h

  some_candidate :
      (selector : Text) (m : Map (Profile Url)) (k : ℕ) (p : Profile Url)
      → Map.get k m ≡ some p
      → same_text p.name selector ≡ true
      → candidates selector m ≡ []
      → ⊥
  unfolding Map.get candidates
  some_candidate selector [] k p h e none_left = cc (h)
  some_candidate selector ((j, q) ∷ m) k p h e none_left =
      ground (arith, h, e, none_left, some_candidate selector m k p)

  only_candidate_is :
      (selector : Text) (m : Map (Profile Url)) (id k : ℕ) (p : Profile Url)
      → Map.get k m ≡ some p
      → same_text p.name selector ≡ true
      → candidates selector m ≡ id ∷ []
      → p.id ≡ id
  unfolding Map.get candidates
  only_candidate_is selector [] id k p h e one = cc (h)
  only_candidate_is selector ((j, q) ∷ m) id k p h e one =
      ground (arith, h, e, one, only_candidate_is selector m id k p, some_candidate selector m k p)

  first_candidate :
      (selector : Text) (m : Map (Profile Url)) (id : ℕ) (rest : List ℕ)
      → Map.IsSorted m
      → IsKeyed m
      → candidates selector m ≡ id ∷ rest
      → (p : Profile Url) × ((Map.get id m ≡ some p) × (same_text p.name selector ≡ true))
  unfolding candidates
  first_candidate selector [] id rest a keyed h = cc (h)
  first_candidate selector ((j, q) ∷ m) id rest a keyed h =
      elim (Bool-cases (same_text q.name selector)) [
        | inl e ↦
            let id_is : q.id ≡ id = cc (rw e at h) in
            let key_is : q.id ≡ j = keyed_at ((j, q) ∷ m) j q keyed (Map.get-head j q m) in
            let same : j ≡ id = sym key_is ∙ id_is in (q, (rw (← same) (Map.get-head j q m), e))
        | inr e ↦
            let (p, (found, named)) =
              first_candidate selector m id rest (Map.Above-IsSorted j m a)
                (tail_Keyed j q m a keyed) (rw e at h) in
            (p, (Map.get-later j id q p m a found, named))
      ]

  candidates-Named :
      (selector : Text) (m : Map (Profile Url)) (id : ℕ)
      → Map.IsSorted m
      → IsKeyed m
      → candidates selector m ≡ id ∷ []
      → Named selector m id
  candidates-Named selector m id a keyed h =
      let (p, (found, named)) = first_candidate selector m id [] a keyed h in
      record {
        profile = p;
        found = found;
        name_is = named;
        only = λ k other here same. only_candidate_is selector m id k other here same h;
      }

  -- What a selector was resolved to: a profile by its identifier, or the only profile of a name.
  abbrev pub Resolved : Option ℕ → Text → Map (Profile Url) → ℕ → Type 0
  Resolved parsed selector m id =
      ((parsed ≡ some id) × (Map.contains id m ≡ true)) ⊎ ((parsed ≡ none) × Named selector m id)

  resolve_parsed-Resolved :
      (parsed : Option ℕ) (selector : Text) (s : ProfileCatalog Url) (id : ℕ)
      → Map.IsSorted s.profiles
      → IsKeyed s.profiles
      → resolve_parsed parsed selector s ≡ ok id
      → Resolved parsed selector s.profiles id
  unfolding resolve_parsed
  resolve_parsed-Resolved (some i) selector s id a keyed h =
      elim (Bool-cases (Map.contains i s.profiles)) [
        | inl e ↦ let same : i ≡ id = cc (rw e at h) in inl (ap some same, rw (← same) e)
        | inr e ↦ cc (rw e at h)
      ]
  resolve_parsed-Resolved none selector s id a keyed h = inr (
    refl,
    candidates-Named selector s.profiles id a keyed
        (only_candidate-ok (candidates selector s.profiles) h),
  )

  -- A selector that `resolve` accepts names a profile of the catalog: if it is the text of an
  -- identifier, the profile of that identifier, and otherwise the profile of that name, and no
  -- other profile has the name. The map is sorted and stores profiles under their identifiers.
  pub resolve-Resolved :
      (parse_id : Text → Option ℕ) (selector : Text) (s : ProfileCatalog Url) (id : ℕ)
      → Map.IsSorted s.profiles
      → IsKeyed s.profiles
      → resolve parse_id selector s ≡ ok id
      → Resolved (parse_id selector) selector s.profiles id
  unfolding resolve
  resolve-Resolved parse_id selector s id a keyed h =
      resolve_parsed-Resolved (parse_id selector) selector s id a keyed h
