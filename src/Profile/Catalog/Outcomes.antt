-- ===== src/Profile/Catalog/Outcomes.antt =====
-- `ProfileCatalog` of src/profile.rs: what a success of each operation says.
use ratash.Common.{
  ℕ, ◌+◌, ◌≡◌, ap, ◌∙◌, false, not, ◌&&◌, Option, none, some, List, [], ◌∷◌, ◌==◌, Bool-cases, ◌⊎◌,
  inl, inr, same_option, same_option-eq, checked_add, arith,
}
use ratash.Common.Map
use ratash.Common.Map.{Map}
use ratash.Common.Result.{Result, ok, err, bind-ok}
use ratash.Profile.Snapshot.{ProfileSnapshot}
use ratash.Profile.Catalog.{
  RefreshContext, Profile, ProfileCatalog, ProfileSelectorError, or_error, with_error,
  only_candidate, insert, activate_id, remove_id, refresh_profile, commit_refresh,
  active_revision_exhausted, profile_removed, revision_exhausted,
}

pub or_error-ok : {E A : Type 0} (o : Option A) (e : E) {a : A} → or_error o e ≡ ok a → o ≡ some a
unfolding or_error
or_error-ok (some b) e h = cc (h)
or_error-ok none e h = cc (h)

pub with_error-ok :
    {E F A : Type 0} (e : F) (r : Result E A) {a : A} → with_error e r ≡ ok a → r ≡ ok a
unfolding with_error
with_error-ok e (ok b) h = cc (h)
with_error-ok e (err _) h = cc (h)

pub only_candidate-ok : (ids : List ℕ) {id : ℕ} → only_candidate ids ≡ ok id → ids ≡ id ∷ []
unfolding only_candidate
only_candidate-ok (i ∷ []) h = cc (h)
only_candidate-ok [] h = cc (h)
only_candidate-ok (i ∷ j ∷ ids) h = cc (h)

pub checked_add-ok : (a b : ℕ) {c : ℕ} → checked_add a b ≡ some c → c ≡ a + b
checked_add-ok a b h = ground (arith, h)

fresh :
    (o p : Option ℕ) (a id : ℕ)
    → (same_option o (some id) && not (same_option p (some a))) ≡ false
    → o ≡ some id
    → p ≡ some a
fresh o p a id h e = elim (Bool-cases (same_option p (some a))) [
  | inl same ↦ same_option-eq p (some a) same
  | inr other ↦ ground (arith, rw other at h, rw e at h)
]

equal_of : (a b : ℕ) → not (a == b) ≡ false → a ≡ b
equal_of a b h = ground (arith, h)

module _ {Url : Type 0} where
  pub insert-ok :
      (profile : Profile Url) (s : ProfileCatalog Url) {t : ProfileCatalog Url}
      → insert profile s ≡ ok t
      → (Map.contains profile.id s.profiles ≡ false)
        × (t ≡ record s { profiles = Map.insert profile.id profile s.profiles })
  unfolding insert
  insert-ok profile s h = elim (Bool-cases (Map.contains profile.id s.profiles)) [
    | inl e ↦ cc (rw e at h)
    | inr e ↦ (e, cc (rw e at h))
  ]

  raised_is :
      (id revision : ℕ) (s : ProfileCatalog Url) {i : ℕ} {t : ProfileCatalog Url}
      → revision ≡ s.active_revision + 1
      → ◌≡◌ {A = Result ProfileSelectorError (ℕ × ProfileCatalog Url)}
          (ok (id, record s { active_revision = revision; active_profile_id = some id }))
          (ok (i, t))
      → t ≡ record s { active_revision = s.active_revision + 1; active_profile_id = some id }
  raised_is id revision s up rest = cc (up, rest)

  -- An activation either finds the profile active, or raises the revision by one.
  pub activate_id-ok :
      (id : ℕ) (s : ProfileCatalog Url) {i : ℕ} {t : ProfileCatalog Url}
      → activate_id id s ≡ ok (i, t)
      → (i ≡ id)
        × (((s.active_profile_id ≡ some id) × (t ≡ s))
            ⊎ (t ≡ record s {
              active_revision = s.active_revision + 1;
              active_profile_id = some id;
            }))
  unfolding activate_id
  activate_id-ok id s h = elim (Bool-cases (same_option s.active_profile_id (some id))) [
    | inl e ↦
        let h' = rw e at h in
        (cc (h'), inl (same_option-eq s.active_profile_id (some id) e, cc (h')))
    | inr e ↦
        let (revision, (same, rest)) =
          bind-ok (or_error (checked_add s.active_revision 1) active_revision_exhausted) _
            (rw e at h) in
        let raised : revision ≡ s.active_revision + 1 =
          checked_add-ok s.active_revision 1
            (or_error-ok (checked_add s.active_revision 1) active_revision_exhausted same) in
        (cc (rest), inr (raised_is id revision s raised rest))
  ]

  pub remove_id-ok :
      (id : ℕ) (s : ProfileCatalog Url) {profile : Profile Url} {t : ProfileCatalog Url}
      → remove_id id s ≡ ok (profile, t)
      → (same_option s.active_profile_id (some id) ≡ false)
        × ((Map.get id s.profiles ≡ some profile)
            × (t ≡ record s { profiles = Map.remove id s.profiles }))
  unfolding remove_id
  remove_id-ok id s h = elim (Bool-cases (same_option s.active_profile_id (some id))) [
    | inl e ↦ cc (rw e at h)
    | inr e ↦
        let (found, (same, rest)) =
          bind-ok (or_error (Map.get id s.profiles) ProfileSelectorError.not_found) _ (rw e at h) in
        let here = or_error-ok (Map.get id s.profiles) ProfileSelectorError.not_found same in
        (e, (here ∙ ap some (cc (rest)), cc (rest)))
  ]

  -- The profile after a refresh that was committed.
  abbrev pub refreshed : Profile Url → ProfileSnapshot → ℕ → ℕ → ℕ → Profile Url
  refreshed profile snapshot revision success_at_unix_ms next_refresh_at_unix_ms = record profile {
    snapshot = snapshot;
    revision = revision;
    last_success_at_unix_ms = success_at_unix_ms;
    last_error = none;
    next_refresh_at_unix_ms = next_refresh_at_unix_ms;
  }

  -- What a committed refresh says: the context was current, and only this profile changes.
  pub record Committed (id : ℕ) (context : RefreshContext) (snapshot : ProfileSnapshot)
      (success next : ℕ) (s : ProfileCatalog Url) (revision : ℕ) (t : ProfileCatalog Url)
      : Type 0 where
    pub profile : Profile Url
    pub found : Map.get id s.profiles ≡ some profile
    pub same_revision : profile.revision ≡ context.profile_revision
    pub same_active :
        s.active_profile_id ≡ some id → context.active_revision ≡ some s.active_revision
    pub revision_is : revision ≡ profile.revision + 1
    pub result_is : t ≡ record s {
      profiles = Map.insert id (refreshed profile snapshot revision success next) s.profiles;
    }

  refresh_profile-ok :
      (id : ℕ) (context : RefreshContext) (snapshot : ProfileSnapshot) (success next : ℕ)
      (s : ProfileCatalog Url) (profile : Profile Url) {revision : ℕ} {t : ProfileCatalog Url}
      → Map.get id s.profiles ≡ some profile
      → refresh_profile id context snapshot success next s profile ≡ ok (revision, t)
      → Committed id context snapshot success next s revision t
  unfolding refresh_profile
  refresh_profile-ok id context snapshot success next s profile found h =
      elim (Bool-cases (not (profile.revision == context.profile_revision))) [
        | inl e ↦ cc (rw e at h)
        | inr e ↦
            elim (Bool-cases (
              same_option s.active_profile_id (some id)
              && not (same_option context.active_revision (some s.active_revision)))) [
                | inl f ↦ cc (rw f at (rw e at h))
                | inr f ↦
                    let (up, (same, rest)) =
                      bind-ok (or_error (checked_add profile.revision 1) revision_exhausted) _
                        (rw f at (rw e at h)) in
                    record {
                      profile = profile;
                      found = found;
                      same_revision = equal_of profile.revision context.profile_revision e;
                      same_active =
                          fresh s.active_profile_id context.active_revision s.active_revision id f;
                      revision_is = cc (
                        rest,
                        checked_add-ok profile.revision 1
                            (or_error-ok (checked_add profile.revision 1) revision_exhausted same),
                      );
                      result_is = cc (rest);
                    }
              ]
      ]

  pub commit_refresh-ok :
      (id : ℕ) (context : RefreshContext) (snapshot : ProfileSnapshot) (success next : ℕ)
      (s : ProfileCatalog Url) {revision : ℕ} {t : ProfileCatalog Url}
      → commit_refresh id context snapshot success next s ≡ ok (revision, t)
      → Committed id context snapshot success next s revision t
  unfolding commit_refresh
  commit_refresh-ok id context snapshot success next s h =
      let (profile, (same, rest)) =
        bind-ok (or_error (Map.get id s.profiles) profile_removed) _ h in
      refresh_profile-ok id context snapshot success next s profile
        (or_error-ok (Map.get id s.profiles) profile_removed same) rest
