-- ===== src/Profile/Catalog/Histories.antt =====
-- Histories of changes of `ProfileCatalog` of src/profile.rs. A change that is refused leaves the
-- catalog as it was.
use ratash.Common.{
  ℕ, ◌≤◌, ◌≡◌, refl, true, false, Option, some, List, [], ◌∷◌, Bool-cases, inl, inr, ◌⊎◌, arith,
  same_option, ◌==◌, ◌||◌, ltb, length,
}
use ratash.Common.Map
use ratash.Common.Map.{Map}
use ratash.Common.Result.{Result, ok, err, bind-ok, Result-cases}
use ratash.Common.Text.{Text}
use ratash.Constants.{profile_count_max}
use ratash.Profile.Snapshot.{ProfileSnapshot}
use ratash.Profile.Catalog.{
  Profile, ProfileCatalog, RefreshContext, new, insert, insert_all, restore, checked_active,
  activate, activate_id, remove, remove_id, resolve, commit_refresh, with_error,
  duplicate_profile_id,
}
use ratash.Profile.Catalog.Outcomes.{
  with_error-ok, insert-ok, activate_id-ok, remove_id-ok, commit_refresh-ok, refreshed,
}
use ratash.Profile.Catalog.Names.{IsKeyed, keyed_at, Resolved, resolve-Resolved}

pub data Change (Url : Type 0) : Type 0 where
  adding : Profile Url → Change Url
  activating : Text → Change Url
  removing : Text → Change Url
  refreshing : ℕ → RefreshContext → ProfileSnapshot → ℕ → ℕ → Change Url

module _ {Url : Type 0} where
  abbrev pub inserted_or :
      {E : Type 0} → ProfileCatalog Url → Result E (ProfileCatalog Url) → ProfileCatalog Url
  inserted_or s (ok t) = t
  inserted_or s (err _) = s

  abbrev pub kept_or :
      {E A : Type 0} → ProfileCatalog Url → Result E (A × ProfileCatalog Url) → ProfileCatalog Url
  kept_or s (ok r) = r.1
  kept_or s (err _) = s

  unfoldable pub make : (Text → Option ℕ) → Change Url → ProfileCatalog Url → ProfileCatalog Url
  make parse_id (adding profile) s = inserted_or s (insert profile s)
  make parse_id (activating selector) s = kept_or s (activate parse_id selector s)
  make parse_id (removing selector) s = kept_or s (remove parse_id selector s)
  make parse_id (refreshing id context snapshot success next) s =
      kept_or s (commit_refresh id context snapshot success next s)

  unfoldable pub make_all :
      (Text → Option ℕ) → List (Change Url) → ProfileCatalog Url → ProfileCatalog Url
  make_all parse_id [] s = s
  make_all parse_id (change ∷ changes) s = make_all parse_id changes (make parse_id change s)

  -- The map is sorted, stores each profile under its identifier, and the active profile is in it
  -- and has a revision.
  pub record IsSound (s : ProfileCatalog Url) : Type 0 where
    pub sorted : Map.IsSorted s.profiles
    pub keyed : IsKeyed s.profiles
    pub present : (id : ℕ) → s.active_profile_id ≡ some id → Map.contains id s.profiles ≡ true
    pub numbered : (id : ℕ) → s.active_profile_id ≡ some id → 1 ≤ s.active_revision

  inserted_Keyed :
      (p : Profile Url) (id : ℕ) (m : Map (Profile Url))
      → p.id ≡ id
      → IsKeyed m
      → IsKeyed (Map.insert id p m)
  unfolding IsKeyed
  inserted_Keyed p id m own keyed k q h =
      let seen = rw Map.get-insert at h in ground (arith, seen, own, keyed k q)

  removed_Keyed : (id : ℕ) (m : Map (Profile Url)) → IsKeyed m → IsKeyed (Map.remove id m)
  unfolding IsKeyed
  removed_Keyed id m keyed k q h =
      let seen = rw Map.get-remove at h in ground (arith, seen, keyed k q)

  inserted_contains :
      (p : Profile Url) (id k : ℕ) (m : Map (Profile Url))
      → Map.contains k m ≡ true
      → Map.contains k (Map.insert id p m) ≡ true
  inserted_contains p id k m h = rw Map.get-insert (ground (arith, h))

  removed_contains :
      (id k : ℕ) (o : Option ℕ) (m : Map (Profile Url))
      → same_option o (some id) ≡ false
      → o ≡ some k
      → Map.contains k m ≡ true
      → Map.contains k (Map.remove id m) ≡ true
  removed_contains id k o m other now h =
      let ne = rw now at other in rw Map.get-remove (ground (arith, h, ne))

  -- A profile that is put under its identifier keeps the catalog sound.
  put_IsSound :
      (p : Profile Url) (id : ℕ) (s t : ProfileCatalog Url)
      → p.id ≡ id
      → t ≡ record s { profiles = Map.insert id p s.profiles }
      → IsSound s
      → IsSound t
  put_IsSound p id s t own t_is v = rw t_is (record {
    sorted = Map.insert-IsSorted id p s.profiles v.sorted;
    keyed = inserted_Keyed p id s.profiles own v.keyed;
    present = λ k now. inserted_contains p id k s.profiles (v.present k now);
    numbered = v.numbered;
  })

  Resolved-present :
      (parsed : Option ℕ) (selector : Text) (m : Map (Profile Url)) (id : ℕ)
      → Resolved parsed selector m id
      → Map.contains id m ≡ true
  Resolved-present parsed selector m id (inl (same, here)) = here
  Resolved-present parsed selector m id (inr (same, named)) = rw named.found refl

  activated_IsSound :
      (id : ℕ) (s t : ProfileCatalog Url) {i : ℕ}
      → Map.contains id s.profiles ≡ true
      → activate_id id s ≡ ok (i, t)
      → IsSound s
      → IsSound t
  activated_IsSound id s t here h v = elim ((activate_id-ok id s h).1) [
    | inl (now, same) ↦ rw same v
    | inr same ↦ rw same (record {
      sorted = v.sorted;
      keyed = v.keyed;
      present = λ k now. (let e : id ≡ k = cc (now) in rw (← e) here);
      numbered = λ k now. omega arith;
    })
  ]

  removed_IsSound :
      (id : ℕ) (s t : ProfileCatalog Url) {p : Profile Url}
      → remove_id id s ≡ ok (p, t)
      → IsSound s
      → IsSound t
  removed_IsSound id s t h v =
      let (other, (found, same)) = remove_id-ok id s h in
      rw same (record {
        sorted = Map.remove-IsSorted id s.profiles v.sorted;
        keyed = removed_Keyed id s.profiles v.keyed;
        present = λ k now.
            removed_contains id k s.active_profile_id s.profiles other now (v.present k now);
        numbered = v.numbered;
      })

  make-IsSound :
      (parse_id : Text → Option ℕ) (change : Change Url) (s : ProfileCatalog Url)
      → IsSound s
      → IsSound (make parse_id change s)
  unfolding make activate remove
  make-IsSound parse_id (adding profile) s v = elim (Result-cases (insert profile s)) [
    | inl (t, e) ↦ rw e (put_IsSound profile profile.id s t refl ((insert-ok profile s e).1) v)
    | inr (_, e) ↦ rw e v
  ]
  make-IsSound parse_id (activating selector) s v =
      elim (Result-cases (resolve parse_id selector s)) [
        | inl (id, e) ↦ elim (Result-cases (activate_id id s)) [
          | inl ((i, t), f) ↦ rw e (
              rw f (
                activated_IsSound id s t
                  (Resolved-present (parse_id selector) selector s.profiles id
                    (resolve-Resolved parse_id selector s id v.sorted v.keyed e))
                  f v))
          | inr (_, f) ↦ rw e (rw f v)
        ]
        | inr (_, e) ↦ rw e v
      ]
  make-IsSound parse_id (removing selector) s v =
      elim (Result-cases (resolve parse_id selector s)) [
        | inl (id, e) ↦ elim (Result-cases (remove_id id s)) [
          | inl ((p, t), f) ↦ rw e (rw f (removed_IsSound id s t f v))
          | inr (_, f) ↦ rw e (rw f v)
        ]
        | inr (_, e) ↦ rw e v
      ]
  make-IsSound parse_id (refreshing id context snapshot success next) s v =
      elim (Result-cases (commit_refresh id context snapshot success next s)) [
        | inl ((revision, t), e) ↦
            let c = commit_refresh-ok id context snapshot success next s e in
            rw e (
              put_IsSound (refreshed c.profile snapshot revision success next) id s t
                (keyed_at s.profiles id c.profile v.keyed c.found) c.result_is v)
        | inr (_, e) ↦ rw e v
      ]

  new-IsSound : IsSound (new {Url = Url})
  unfolding new IsKeyed
  new-IsSound = record {
    sorted = tt;
    keyed = λ k p h. cc (rw Map.get-nil at h);
    present = λ id now. cc (now);
    numbered = λ id now. cc (now);
  }

  insert_all-IsSound :
      (profiles : List (Profile Url)) (s t : ProfileCatalog Url)
      → insert_all profiles s ≡ ok t
      → IsSound s
      → IsSound t
  unfolding insert_all
  insert_all-IsSound [] s t h v = (let e : s ≡ t = cc (h) in rw (← e) v)
  insert_all-IsSound (profile ∷ profiles) s t h v =
      let (u, (first, rest)) = bind-ok (with_error duplicate_profile_id (insert profile s)) _ h in
      let inserted = with_error-ok duplicate_profile_id (insert profile s) first in
      insert_all-IsSound profiles u t rest
        (put_IsSound profile profile.id s u refl ((insert-ok profile s inserted).1) v)

  -- A catalog as the program begins with it: empty, or restored.
  abbrev pub Started : ProfileCatalog Url → Type 0
  Started s =
      (s ≡ new)
      ⊎ ((profiles : List (Profile Url)) × (active : ℕ) × (revision : ℕ) × (restore profiles active
              revision
            ≡ ok s))

  checked-IsSound :
      (active revision : ℕ) (s t : ProfileCatalog Url)
      → (revision == 0) ≡ false
      → checked_active active revision s ≡ ok t
      → IsSound s
      → IsSound t
  unfolding checked_active
  checked-IsSound active revision s t some_revision h v =
      elim (Bool-cases (Map.contains active s.profiles)) [
        | inl e ↦
            let same : record s { active_profile_id = some active; active_revision = revision }
                ≡ t =
              cc (rw e at h) in
            rw (← same) (record {
              sorted = v.sorted;
              keyed = v.keyed;
              present = λ k now. (let id_is : active ≡ k = cc (now) in rw (← id_is) e);
              numbered = λ k now. ground (arith, some_revision);
            })
        | inr e ↦ cc (rw e at h)
      ]

  restore-IsSound :
      (profiles : List (Profile Url)) (active revision : ℕ) (s : ProfileCatalog Url)
      → restore profiles active revision ≡ ok s
      → IsSound s
  unfolding restore
  restore-IsSound profiles active revision s h =
      elim (Bool-cases (length profiles == 0 || ltb profile_count_max (length profiles))) [
        | inl e ↦ cc (rw e at h)
        | inr e ↦ elim (Bool-cases (revision == 0)) [
          | inl f ↦ cc (rw f at (rw e at h))
          | inr f ↦
              let (t, (inserted, rest)) =
                bind-ok (insert_all profiles new) _ (rw f at (rw e at h)) in
              checked-IsSound active revision t s f rest
                (insert_all-IsSound profiles new t inserted new-IsSound)
        ]
      ]

  make_all_keeps :
      (parse_id : Text → Option ℕ) (changes : List (Change Url)) (s : ProfileCatalog Url)
      → IsSound s
      → IsSound (make_all parse_id changes s)
  unfolding make_all
  make_all_keeps parse_id [] s v = v
  make_all_keeps parse_id (change ∷ changes) s v =
      make_all_keeps parse_id changes (make parse_id change s) (make-IsSound parse_id change s v)

  -- After every history of additions, activations, removals and committed refreshes of a catalog
  -- that began empty or was restored, the map is sorted and stores each profile under its own
  -- identifier, the active profile is in the map, and while there is one the active revision is
  -- not 0. A change that is refused counts as one that changes nothing.
  pub make_all-IsSound :
      (parse_id : Text → Option ℕ) (changes : List (Change Url)) (s : ProfileCatalog Url)
      → Started s
      → IsSound (make_all parse_id changes s)
  make_all-IsSound parse_id changes s (inl same) =
      make_all_keeps parse_id changes s (rw same new-IsSound)
  make_all-IsSound parse_id changes s (inr (profiles, active, revision, h)) =
      make_all_keeps parse_id changes s (restore-IsSound profiles active revision s h)
