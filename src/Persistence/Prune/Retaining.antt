-- ===== src/Persistence/Prune/Retaining.antt =====
-- The sets of `retained_content` of src/persistence.rs: what each of its steps puts into them.
use ratash.Common.{ℕ, ◌≡◌, ◌∙◌, true, Option, none, some, [], arith}
use ratash.Common.Map
use ratash.Transaction.Types.{TransactionBundle, PreparedTransaction, CommittedManifest}
use ratash.Persistence.Store.{TransactionBundleDto}
use ratash.Persistence.Prune.{
  Digests, retain, retain_optional, retain_manifest, retain_prepared, retain_bundle_objects,
}

-- The set holds the digest.
abbrev pub Has : ℕ → Digests → Type 0
Has id m = Map.contains id m ≡ true

abbrev pub Grows : Digests → Digests → Type 0
Grows m n = (id : ℕ) → Has id m → Has id n

pub retain_self : (id : ℕ) (m : Digests) → Has id (retain id m)
unfolding retain
retain_self id m = rw Map.get-insert (ground arith)

pub retain-Grows : (id : ℕ) (m : Digests) → Grows m (retain id m)
unfolding retain
retain-Grows id m i h = rw Map.get-insert (ground (arith, h))

retain_optional-Grows : (o : Option ℕ) (m : Digests) → Grows m (retain_optional o m)
unfolding retain_optional
retain_optional-Grows none m i h = h
retain_optional-Grows (some id) m i h = retain-Grows id m i h

-- The transactions that the manifest and the journal name.
pub data Names (m : Option CommittedManifest) (p : Option PreparedTransaction) (id : ℕ)
    : Type 0 where
  current : (c : CommittedManifest) → m ≡ some c → c.current ≡ id → Names m p id
  before : (c : CommittedManifest) → m ≡ some c → c.previous ≡ some id → Names m p id
  candidate : (j : PreparedTransaction) → p ≡ some j → j.candidate ≡ id → Names m p id
  superseded : (j : PreparedTransaction) → p ≡ some j → j.previous ≡ some id → Names m p id

retain_optional_self :
    (o : Option ℕ) (id : ℕ) (m : Digests) → o ≡ some id → Has id (retain_optional o m)
unfolding retain_optional
retain_optional_self none id m same = cc (same)
retain_optional_self (some i) id m same = let e : i ≡ id = cc (same) in rw (← e) (retain_self i m)

retain_prepared-Grows :
    (p : Option PreparedTransaction) (m : Digests) → Grows m (retain_prepared p m)
unfolding retain_prepared
retain_prepared-Grows none m i h = h
retain_prepared-Grows (some p) m i h =
    retain_optional-Grows p.previous (retain p.candidate m) i (retain-Grows p.candidate m i h)

abbrev pub named_transactions : Option CommittedManifest → Option PreparedTransaction → Digests
named_transactions m p = retain_prepared p (retain_manifest m [])

pub named-Has :
    (m : Option CommittedManifest) (p : Option PreparedTransaction) (id : ℕ)
    → Names m p id
    → Has id (named_transactions m p)
unfolding retain_manifest retain_prepared
named-Has m p id (current c same here) = rw same (
    retain_prepared-Grows p _ id (
      retain_optional-Grows c.previous (retain c.current []) id
        (rw (← here) (retain_self c.current []))))
named-Has m p id (before c same here) =
    rw same
      (retain_prepared-Grows p _ id (retain_optional_self c.previous id (retain c.current []) here))
named-Has m p id (candidate j same here) =
    let kept = retain_manifest m [] in
    rw same (
      retain_optional-Grows j.previous (retain j.candidate kept) id
        (rw (← here) (retain_self j.candidate kept)))
named-Has m p id (superseded j same here) =
    let kept = retain_manifest m [] in
    rw same (retain_optional_self j.previous id (retain j.candidate kept) here)

-- The four objects of a bundle.
pub data IsObject (dto : TransactionBundleDto) (id : ℕ) : Type 0 where
  state_object : dto.supervisor_state ≡ id → IsObject dto id
  snapshot_object : dto.profile_snapshot ≡ id → IsObject dto id
  rules_object : dto.local_rule_set ≡ id → IsObject dto id
  configuration_object : dto.effective_configuration ≡ id → IsObject dto id

abbrev pub HasObjects : TransactionBundleDto → Digests → Type 0
HasObjects dto m = (id : ℕ) → IsObject dto id → Has id m

-- The bundle that a DTO is read as has its objects.
pub record Same (dto : TransactionBundleDto) (b : TransactionBundle) : Type 0 where
  pub state_is : b.supervisor_state ≡ dto.supervisor_state
  pub snapshot_is : b.profile_snapshot ≡ dto.profile_snapshot
  pub rules_is : b.local_rule_set ≡ dto.local_rule_set
  pub configuration_is : b.effective_configuration ≡ dto.effective_configuration

pub retain_bundle_objects-Grows :
    (b : TransactionBundle) (m : Digests) → Grows m (retain_bundle_objects b m)
unfolding retain_bundle_objects
retain_bundle_objects-Grows b m i h = retain-Grows b.effective_configuration _ i (
    retain-Grows b.local_rule_set _ i
      (retain-Grows b.profile_snapshot _ i (retain-Grows b.supervisor_state m i h)))

pub retain_bundle_objects-HasObjects :
    (dto : TransactionBundleDto) (b : TransactionBundle) (m : Digests)
    → Same dto b
    → HasObjects dto (retain_bundle_objects b m)
unfolding retain_bundle_objects
retain_bundle_objects-HasObjects dto b m s id (state_object e) =
    let here = s.state_is ∙ e in
    rw (← here) (
      retain-Grows b.effective_configuration _ b.supervisor_state (
        retain-Grows b.local_rule_set _ b.supervisor_state (
          retain-Grows b.profile_snapshot _ b.supervisor_state (retain_self b.supervisor_state m))))
retain_bundle_objects-HasObjects dto b m s id (snapshot_object e) =
    let here = s.snapshot_is ∙ e in
    rw (← here) (
      retain-Grows b.effective_configuration _ b.profile_snapshot
        (retain-Grows b.local_rule_set _ b.profile_snapshot (retain_self b.profile_snapshot _)))
retain_bundle_objects-HasObjects dto b m s id (rules_object e) =
    let here = s.rules_is ∙ e in
    rw (← here)
      (retain-Grows b.effective_configuration _ b.local_rule_set (retain_self b.local_rule_set _))
retain_bundle_objects-HasObjects dto b m s id (configuration_object e) =
    let here = s.configuration_is ∙ e in rw (← here) (retain_self b.effective_configuration _)
