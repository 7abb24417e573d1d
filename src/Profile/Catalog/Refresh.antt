-- ===== src/Profile/Catalog/Refresh.antt =====
-- `refresh_context` and `commit_refresh` of src/profile.rs: a refresh is downloaded while other
-- changes are made, and is committed after them.
use ratash.Common.{
  ℕ, ◌+◌, ◌<◌, ◌≡◌, refl, sym, ap, ◌∙◌, Option, none, some, List, [], ◌∷◌, if◌then◌else◌,
  Bool-cases, inl, inr, ◌⊎◌, arith, same_option, same_option-eq, ◌==◌, All,
}
use ratash.Common.Map
use ratash.Common.Map.{Map}
use ratash.Common.Result.{Result, ok, bind-ok, ok-injective, Result-cases}
use ratash.Common.Text.{Text}
use ratash.Profile.Snapshot.{ProfileSnapshot}
use ratash.Profile.Catalog.{
  Profile, ProfileCatalog, RefreshContext, RefreshCommitError, activate, activate_id, remove,
  remove_id, resolve, refresh_context, commit_refresh, or_error, profile_removed,
}
use ratash.Profile.Catalog.Outcomes.{
  or_error-ok, activate_id-ok, remove_id-ok, commit_refresh-ok, Committed, refreshed,
}
use ratash.Profile.Catalog.Histories.{
  Change, adding, activating, removing, refreshing, make, make_all,
}

module _ {Url : Type 0} where
  -- What a profile can become while it stays in the catalog: a later revision, or itself.
  Since : Profile Url → Profile Url → Type 0
  Since p q = (p ≡ q) ⊎ (p.revision < q.revision)

  -- What the catalog can become for one profile, and for the active revision.
  record Later (id : ℕ) (s t : ProfileCatalog Url) : Type 0 where
    profile_since :
        (q : Profile Url)
        → Map.get id t.profiles ≡ some q
        → (p : Profile Url) × ((Map.get id s.profiles ≡ some p) × Since p q)
    active_since :
        ((t.active_profile_id ≡ s.active_profile_id) × (t.active_revision ≡ s.active_revision))
        ⊎ (s.active_revision < t.active_revision)

  Later-refl : (id : ℕ) (s : ProfileCatalog Url) → Later id s s
  unfolding Since
  Later-refl id s = record {
    profile_since = λ q h. (q, (h, inl refl));
    active_since = inl (refl, refl);
  }

  Since-trans : (p q r : Profile Url) → Since p q → Since q r → Since p r
  unfolding Since
  Since-trans p q r (inl same) k = rw same k
  Since-trans p q r (inr h) (inl same) = inr (rw (← same) h)
  Since-trans p q r (inr h) (inr k) = inr (omega (arith, h, k))

  Later-trans : (id : ℕ) (s t u : ProfileCatalog Url) → Later id s t → Later id t u → Later id s u
  Later-trans id s t u h k = record {
    profile_since = λ q here.
        (let (p, (there, close)) = k.profile_since q here in
          let (o, (found, far)) = h.profile_since p there in
          (o, (found, Since-trans o p q far close)));
    active_since = active_trans h.active_since k.active_since;
  }
    where
      active_trans :
          {a b d : Option ℕ} {l m n : ℕ}
          → ((b ≡ a) × (m ≡ l)) ⊎ (l < m)
          → ((d ≡ b) × (n ≡ m)) ⊎ (m < n)
          → ((d ≡ a) × (n ≡ l)) ⊎ (l < n)
      active_trans (inl (e, f)) (inl (g, h)) = inl (g ∙ e, h ∙ f)
      active_trans (inl (e, f)) (inr g) = inr (omega (arith, f, g))
      active_trans (inr e) (inl (g, h)) = inr (omega (arith, e, h))
      active_trans (inr e) (inr g) = inr (omega (arith, e, g))

  -- The change adds no profile. An identifier is never used again, so that a later profile of the
  -- same identifier is a state that the program does not reach.
  abbrev pub IsUpdate : Change Url → Type 0
  IsUpdate (adding _) = ⊥
  IsUpdate _ = Unit {0}

  same_profiles :
      (id : ℕ) (s t : ProfileCatalog Url)
      → t.profiles ≡ s.profiles
      → (q : Profile Url) → Map.get id t.profiles ≡ some q
      → (p : Profile Url) × ((Map.get id s.profiles ≡ some p) × Since p q)
  unfolding Since
  same_profiles id s t same q h = (q, (rw (← same) h, inl refl))

  activated_Later :
      (id i : ℕ) (s t : ProfileCatalog Url) {j : ℕ} → activate_id i s ≡ ok (j, t) → Later id s t
  activated_Later id i s t h = elim ((activate_id-ok i s h).1) [
    | inl (_, same) ↦ rw same (Later-refl id s)
    | inr same ↦ rw same (record {
      profile_since =
          same_profiles id s
            (record s { active_revision = s.active_revision + 1; active_profile_id = some i }) refl;
      active_since = inr (omega arith);
    })
  ]

  removed-Since :
      (id i : ℕ) (m : Map (Profile Url)) (q : Profile Url)
      → Map.get id (Map.remove i m) ≡ some q
      → (p : Profile Url) × ((Map.get id m ≡ some p) × Since p q)
  unfolding Since
  removed-Since id i m q h =
      let seen = rw Map.get-remove at h in (q, (ground (arith, seen), inl refl))

  removed_Later :
      (id i : ℕ) (s t : ProfileCatalog Url) {p : Profile Url}
      → remove_id i s ≡ ok (p, t)
      → Later id s t
  removed_Later id i s t h =
      rw ((remove_id-ok i s h).1.1)
        (record { profile_since = removed-Since id i s.profiles; active_since = inl (refl, refl) })

  put-Since :
      (id i : ℕ) (m : Map (Profile Url)) (p r q : Profile Url)
      → Map.get i m ≡ some p
      → p.revision < r.revision
      → Map.get id (Map.insert i r m) ≡ some q
      → (o : Profile Url) × ((Map.get id m ≡ some o) × Since o q)
  unfolding Since
  put-Since id i m p r q found up h =
      let seen = rw Map.get-insert at h in
      elim (Bool-cases (i == id)) [
        | inl e ↦
            let same : i ≡ id = ground (arith, e) in
            let r_is : r ≡ q = cc (rw e at seen) in (p, (rw (← same) found, inr (rw (← r_is) up)))
        | inr e ↦ (q, (rw e at seen, inl refl))
      ]

  refreshed_Later :
      (id i : ℕ) (context : RefreshContext) (snapshot : ProfileSnapshot) (success next : ℕ)
      (s t : ProfileCatalog Url) {revision : ℕ}
      → Committed i context snapshot success next s revision t
      → Later id s t
  refreshed_Later id i context snapshot success next s t {revision} c = rw c.result_is (record {
    profile_since = λ q.
        put-Since id i s.profiles c.profile (refreshed c.profile snapshot revision success next) q
          c.found (omega (arith, c.revision_is));
    active_since = inl (refl, refl);
  })

  make-Later :
      (parse_id : Text → Option ℕ) (id : ℕ) (change : Change Url) (s : ProfileCatalog Url)
      → IsUpdate change
      → Later id s (make parse_id change s)
  unfolding make activate remove
  make-Later parse_id id (adding _) s u = elim u [ ]
  make-Later parse_id id (activating selector) s u =
      elim (Result-cases (resolve parse_id selector s)) [
        | inl (i, e) ↦ elim (Result-cases (activate_id i s)) [
          | inl ((j, t), f) ↦ rw e (rw f (activated_Later id i s t f))
          | inr (_, f) ↦ rw e (rw f (Later-refl id s))
        ]
        | inr (_, e) ↦ rw e (Later-refl id s)
      ]
  make-Later parse_id id (removing selector) s u =
      elim (Result-cases (resolve parse_id selector s)) [
        | inl (i, e) ↦ elim (Result-cases (remove_id i s)) [
          | inl ((p, t), f) ↦ rw e (rw f (removed_Later id i s t f))
          | inr (_, f) ↦ rw e (rw f (Later-refl id s))
        ]
        | inr (_, e) ↦ rw e (Later-refl id s)
      ]
  make-Later parse_id id (refreshing i context snapshot success next) s u =
      elim (Result-cases (commit_refresh i context snapshot success next s)) [
        | inl ((revision, t), e) ↦ rw e (
            refreshed_Later id i context snapshot success next s t
              (commit_refresh-ok i context snapshot success next s e))
        | inr (_, e) ↦ rw e (Later-refl id s)
      ]

  make_all-Later :
      (parse_id : Text → Option ℕ) (id : ℕ) (changes : List (Change Url)) (s : ProfileCatalog Url)
      → All IsUpdate changes
      → Later id s (make_all parse_id changes s)
  unfolding make_all
  make_all-Later parse_id id [] s u = Later-refl id s
  make_all-Later parse_id id (change ∷ changes) s u =
      Later-trans id s (make parse_id change s) (make_all parse_id changes (make parse_id change s))
        (make-Later parse_id id change s u.0)
        (make_all-Later parse_id id changes (make parse_id change s) u.1)

  -- What a context says of the catalog that it was taken from.
  record Taken (id : ℕ) (s : ProfileCatalog Url) (context : RefreshContext) : Type 0 where
    profile : Profile Url
    found : Map.get id s.profiles ≡ some profile
    revision_is : context.profile_revision ≡ profile.revision
    active_is :
        (revision : ℕ)
        → context.active_revision ≡ some revision
        → (s.active_profile_id ≡ some id) × (s.active_revision ≡ revision)

  taken_active :
      (id : ℕ) (s : ProfileCatalog Url) (revision : ℕ)
      → (if same_option s.active_profile_id (some id) then some s.active_revision else none)
        ≡ some revision
      → (s.active_profile_id ≡ some id) × (s.active_revision ≡ revision)
  taken_active id s revision h = elim (Bool-cases (same_option s.active_profile_id (some id))) [
    | inl e ↦ (same_option-eq s.active_profile_id (some id) e, cc (rw e at h))
    | inr e ↦ cc (rw e at h)
  ]

  refresh_context-Taken :
      (id : ℕ) (s : ProfileCatalog Url) (context : RefreshContext)
      → refresh_context id s ≡ ok context
      → Taken id s context
  unfolding refresh_context
  refresh_context-Taken id s context h =
      let (profile, (same, rest)) =
        bind-ok (or_error (Map.get id s.profiles) profile_removed) _ h in
      taken_of profile (or_error-ok (Map.get id s.profiles) profile_removed same) rest
    where
      taken_of :
          (profile : Profile Url)
          → Map.get id s.profiles ≡ some profile
          → ◌≡◌ {A = Result RefreshCommitError RefreshContext}
              (ok (record {
                profile_revision = profile.revision;
                active_revision =
                    if same_option s.active_profile_id (some id)
                    then some s.active_revision
                    else none;
              }))
              (ok context)
          → Taken id s context
      taken_of profile found rest =
          let same = ok-injective rest in
          rw (← same) (record {
            profile = profile;
            found = found;
            revision_is = refl;
            active_is = λ revision h. taken_active id s revision h;
          })

  unchanged :
      (id : ℕ) (context : RefreshContext) (s t : ProfileCatalog Url) (q : Profile Url)
      → Taken id s context
      → Later id s t
      → Map.get id t.profiles ≡ some q
      → q.revision ≡ context.profile_revision
      → Map.get id t.profiles ≡ Map.get id s.profiles
  unfolding Since
  unchanged id context s t q taken later here same =
      let (p, (found, since)) = later.profile_since q here in
      let known : p ≡ taken.profile = cc (found, taken.found) in
      let r : p.revision ≡ q.revision =
        ap (λ x. x.revision) known ∙ (sym taken.revision_is ∙ sym same) in
      elim since [
        | inl e ↦ here ∙ (ap some (sym e) ∙ sym found)
        | inr up ↦ absurd (omega (arith, up, r))
      ]

  -- A refresh that is committed replaces the very profile that its context was taken from: over
  -- every history of activations, removals and other refreshes between the two calls, a commit
  -- succeeds only if the profile is unchanged since `refresh_context`, and, if the profile is
  -- active at the commit, it was active then, of the same active revision.
  pub commit_refresh-unchanged :
      (parse_id : Text → Option ℕ) (id : ℕ) (context : RefreshContext) (changes : List (Change Url))
      (snapshot : ProfileSnapshot) (success next revision : ℕ) (s t : ProfileCatalog Url)
      → refresh_context id s ≡ ok context
      → All IsUpdate changes
      → commit_refresh id context snapshot success next (make_all parse_id changes s)
        ≡ ok (revision, t)
      → (Map.get id (make_all parse_id changes s).profiles ≡ Map.get id s.profiles)
        × ((make_all parse_id changes s).active_profile_id ≡ some id
            → (s.active_profile_id ≡ some id)
              × (s.active_revision ≡ (make_all parse_id changes s).active_revision))
  commit_refresh-unchanged parse_id id context changes snapshot success next revision s t took
        updates h =
      let taken = refresh_context-Taken id s context took in
      let c = commit_refresh-ok id context snapshot success next (make_all parse_id changes s) h in
      (
        unchanged id context s (make_all parse_id changes s) c.profile taken
            (make_all-Later parse_id id changes s updates) c.found c.same_revision,
        λ now. taken.active_is ((make_all parse_id changes s).active_revision) (c.same_active now),
      )
