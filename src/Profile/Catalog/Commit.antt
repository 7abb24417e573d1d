-- ===== src/Profile/Catalog/Commit.antt =====
-- `commit_refresh` of src/profile.rs right after `refresh_context`, and again.
use ratash.Common.{
  ℕ, ◌+◌, ◌<◌, ◌≡◌, refl, true, false, not, ◌&&◌, Option, some, Bool-cases, inl, inr, arith,
  same_option, same_option-eq, ◌==◌, u64_max, checked_add,
}
use ratash.Common.Map
use ratash.Common.Result.{ok, err, bind-ok}
use ratash.Profile.Snapshot.{ProfileSnapshot}
use ratash.Profile.Catalog.{
  Profile, ProfileCatalog, RefreshContext, refresh_context, refresh_profile, commit_refresh,
  or_error, profile_removed, stale_revision,
}
use ratash.Profile.Catalog.Outcomes.{or_error-ok, refreshed}

allowed :
    (o p : Option ℕ) (a id : ℕ)
    → (o ≡ some id → p ≡ some a)
    → (same_option o (some id) && not (same_option p (some a))) ≡ false
allowed o p a id h = elim (Bool-cases (same_option o (some id))) [
  | inl e ↦ rw (h (same_option-eq o (some id) e)) (ground arith)
  | inr e ↦ rw e refl
]

module _ {Url : Type 0} where
  -- The context of a profile that is in the catalog.
  record Context (id : ℕ) (s : ProfileCatalog Url) (context : RefreshContext) : Type 0 where
    profile : Profile Url
    found : Map.get id s.profiles ≡ some profile
    revision_is : profile.revision ≡ context.profile_revision
    active_is : s.active_profile_id ≡ some id → context.active_revision ≡ some s.active_revision

  Context-is :
      (id : ℕ) (s : ProfileCatalog Url) (context : RefreshContext)
      → refresh_context id s ≡ ok context
      → Context id s context
  unfolding refresh_context
  Context-is id s context h =
      let (profile, (same, rest)) =
        bind-ok (or_error (Map.get id s.profiles) profile_removed) _ h in
      record {
        profile = profile;
        found = or_error-ok (Map.get id s.profiles) profile_removed same;
        revision_is = cc (rest);
        active_is = λ now. ground (arith, rest, now);
      }

  first_commit :
      (id : ℕ) (context : RefreshContext) (snapshot : ProfileSnapshot) (success next : ℕ)
      (s : ProfileCatalog Url) (p : Profile Url)
      → Map.get id s.profiles ≡ some p
      → p.revision ≡ context.profile_revision
      → (s.active_profile_id ≡ some id → context.active_revision ≡ some s.active_revision)
      → p.revision < u64_max
      → commit_refresh id context snapshot success next s
        ≡ ok (
          p.revision + 1,
          record s {
            profiles =
                Map.insert id (refreshed p snapshot (p.revision + 1) success next) s.profiles;
          },
        )
  unfolding commit_refresh refresh_profile or_error
  first_commit id context snapshot success next s p found same active room =
      let raised : checked_add p.revision 1 ≡ some (p.revision + 1) = ground (arith, room) in
      let current : not (p.revision == context.profile_revision) ≡ false = ground (arith, same) in
      rw found (
        rw current (
          rw (allowed s.active_profile_id context.active_revision s.active_revision id active)
            (rw raised refl)))

  stale_commit :
      (id : ℕ) (context : RefreshContext) (snapshot : ProfileSnapshot) (success next : ℕ)
      (t : ProfileCatalog Url) (q : Profile Url)
      → Map.get id t.profiles ≡ some q
      → q.revision ≡ context.profile_revision + 1
      → commit_refresh id context snapshot success next t
        ≡ err (stale_revision context.profile_revision (context.profile_revision + 1))
  unfolding commit_refresh refresh_profile or_error
  stale_commit id context snapshot success next t q found up =
      let stale : not (q.revision == context.profile_revision) ≡ true = ground (arith, up) in
      rw found (rw stale (rw up refl))

  -- A refresh of a profile of the catalog, whose revision is not the largest `u64`, is committed if
  -- nothing else has changed since `refresh_context`: the profile holds the new snapshot under the
  -- next revision and no error. A second commit with the same context is refused as stale.
  pub commit_refresh_once :
      (id : ℕ) (context : RefreshContext) (snapshot again : ProfileSnapshot) (success next : ℕ)
      (s : ProfileCatalog Url)
      → refresh_context id s ≡ ok context
      → context.profile_revision < u64_max
      → (t : ProfileCatalog Url) × (p : Profile Url) × ((commit_refresh id context snapshot success
              next s
            ≡ ok (context.profile_revision + 1, t))
          × ((Map.get id t.profiles
                ≡ some (refreshed p snapshot (context.profile_revision + 1) success next))
              × (commit_refresh id context again success next t
                  ≡ err (stale_revision context.profile_revision (context.profile_revision + 1)))))
  commit_refresh_once id context snapshot again success next s took room =
      let c = Context-is id s context took in
      committed_at id context snapshot again success next s c.profile c.found c.revision_is
        c.active_is room
    where
      committed_at :
          (id : ℕ) (context : RefreshContext) (snapshot again : ProfileSnapshot) (success next : ℕ)
          (s : ProfileCatalog Url) (p : Profile Url)
          → Map.get id s.profiles ≡ some p
          → p.revision ≡ context.profile_revision
          → (s.active_profile_id ≡ some id → context.active_revision ≡ some s.active_revision)
          → context.profile_revision < u64_max
          → (t : ProfileCatalog Url) × (p : Profile Url) × ((commit_refresh id context snapshot
                  success next s
                ≡ ok (context.profile_revision + 1, t))
              × ((Map.get id t.profiles
                    ≡ some (refreshed p snapshot (context.profile_revision + 1) success next))
                  × (commit_refresh id context again success next t
                      ≡ err (
                          stale_revision context.profile_revision (context.profile_revision + 1)))))
      committed_at id context snapshot again success next s p found same active room =
          let up : p.revision + 1 ≡ context.profile_revision + 1 = omega (arith, same) in
          let r = refreshed p snapshot (context.profile_revision + 1) success next in
          let t = record s { profiles = Map.insert id r s.profiles } in
          (
            t,
            p,
            (
              rw up at (
                  first_commit id context snapshot success next s p found same active
                    (omega (arith, same, room))),
              (
                Map.get-insert_self id r s.profiles,
                stale_commit id context again success next t r (Map.get-insert_self id r s.profiles)
                    refl,
              ),
            ),
          )
