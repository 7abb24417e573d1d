-- ===== src/Scheduler/Probe/Queue.antt =====
-- `BTreeSet<DueProbe>` of src/scheduler.rs: the queued probes in ascending order of the due time
-- and, at one time, of the node.
use ratash.Common.{
  ℕ, suc, ◌≤◌, ◌≡◌, refl, Bool, true, false, not, ◌&&◌, ◌||◌, List, [], ◌∷◌, length, arith, ltb,
  ◌==◌, if◌then◌else◌,
}

pub record DueProbe : Type 0 where
  pub due_at_unix_ms : ℕ
  pub node_id : ℕ

-- The derived order, and equality.
abbrev pub precedes : DueProbe → DueProbe → Bool
precedes a b =
    ltb a.due_at_unix_ms b.due_at_unix_ms
    || a.due_at_unix_ms == b.due_at_unix_ms && ltb a.node_id b.node_id

abbrev pub same_probe : DueProbe → DueProbe → Bool
same_probe a b = a.due_at_unix_ms == b.due_at_unix_ms && a.node_id == b.node_id

unfoldable pub insert : DueProbe → List DueProbe → List DueProbe
insert d [] = d ∷ []
insert d (x ∷ xs) =
    let rest = insert d xs in
    if precedes d x then d ∷ x ∷ xs else if same_probe d x then x ∷ xs else x ∷ rest

unfoldable pub remove : DueProbe → List DueProbe → List DueProbe
remove d [] = []
remove d (x ∷ xs) = let rest = remove d xs in if same_probe d x then rest else x ∷ rest

unfoldable pub holds : DueProbe → List DueProbe → Bool
holds d [] = false
holds d (x ∷ xs) = same_probe d x || holds d xs

pub holds-nil : (d : DueProbe) → holds d [] ≡ false
unfolding holds
holds-nil d = refl

pub holds-insert :
    (a d : DueProbe) (q : List DueProbe) → holds a (insert d q) ≡ (same_probe a d || holds a q)
unfolding holds insert
holds-insert a d [] = refl
holds-insert a d (x ∷ xs) = ground (arith, holds-insert a d xs)

pub holds-remove :
    (a d : DueProbe) (q : List DueProbe)
    → holds a (remove d q) ≡ (not (same_probe a d) && holds a q)
unfolding holds remove
holds-remove a d [] = ground arith
holds-remove a d (x ∷ xs) = ground (arith, holds-remove a d xs)

pub holds-head : (d : DueProbe) (q : List DueProbe) → holds d (d ∷ q) ≡ true
unfolding holds
holds-head d q = ground arith

pub ruleset queue_laws = (holds-nil, holds-insert, holds-remove)

-- The queue ascends strictly, above `lo`.
abbrev pub Above : DueProbe → List DueProbe → Type 0
Above lo [] = Unit {0}
Above lo (x ∷ xs) = (precedes lo x ≡ true) × Above x xs

abbrev pub IsSorted : List DueProbe → Type 0
IsSorted [] = Unit {0}
IsSorted (x ∷ xs) = Above x xs

precedes_trans :
    (a b c : DueProbe) → precedes a b ≡ true → precedes b c ≡ true → precedes a c ≡ true
precedes_trans a b c h k = ground arith

precedes_total :
    (a b : DueProbe) → precedes a b ≡ false → same_probe a b ≡ false → precedes b a ≡ true
precedes_total a b h k = ground arith

Above-lower : (a b : DueProbe) (q : List DueProbe) → precedes a b ≡ true → Above b q → Above a q
Above-lower a b [] h k = tt
Above-lower a b (x ∷ xs) h k = (precedes_trans a b x h k.0, k.1)

pub Above-IsSorted : (lo : DueProbe) (q : List DueProbe) → Above lo q → IsSorted q
Above-IsSorted lo [] h = tt
Above-IsSorted lo (x ∷ xs) h = h.1

insert-Above :
    (lo d : DueProbe) (q : List DueProbe)
    → precedes lo d ≡ true
    → Above lo q
    → Above lo (insert d q)
unfolding insert
insert-Above lo d [] h k = (h, tt)
insert-Above lo d (x ∷ xs) h k = ground (arith, h, k, precedes_total d x, insert-Above x d xs)

pub insert-IsSorted : (d : DueProbe) (q : List DueProbe) → IsSorted q → IsSorted (insert d q)
unfolding insert
insert-IsSorted d [] k = tt
insert-IsSorted d (x ∷ xs) k = ground (arith, k, precedes_total d x, insert-Above x d xs)

holds-Above : (lo : DueProbe) (q : List DueProbe) → Above lo q → holds lo q ≡ false
unfolding holds
holds-Above lo [] h = refl
holds-Above lo (x ∷ xs) h = ground (arith, h.0, holds-Above lo xs (Above-lower lo x xs h.0 h.1))

remove_absent : (d : DueProbe) (q : List DueProbe) → holds d q ≡ false → remove d q ≡ q
unfolding holds remove
remove_absent d [] h = refl
remove_absent d (x ∷ xs) h = ground (arith, h, remove_absent d xs)

-- The removal of the first entry leaves the rest.
pub remove-head : (d : DueProbe) (q : List DueProbe) → Above d q → remove d (d ∷ q) ≡ q
unfolding remove
remove-head d q h = ground (arith, remove_absent d q (holds-Above d q h))

pub length-insert_new :
    (d : DueProbe) (q : List DueProbe) → holds d q ≡ false → length (insert d q) ≡ suc (length q)
unfolding holds insert
length-insert_new d [] h = refl
length-insert_new d (x ∷ xs) h = ground (arith, h, length-insert_new d xs)

Above-least :
    (lo d : DueProbe) (q : List DueProbe)
    → Above lo q
    → holds d q ≡ true
    → lo.due_at_unix_ms ≤ d.due_at_unix_ms
unfolding holds
Above-least lo d [] a h = cc
Above-least lo d (x ∷ xs) a h = ground (arith, a.0, h, Above-least x d xs a.1)

-- The first entry is due no later than any other.
pub head_least :
    (e d : DueProbe) (q : List DueProbe)
    → Above e q
    → holds d (e ∷ q) ≡ true
    → e.due_at_unix_ms ≤ d.due_at_unix_ms
unfolding holds
head_least e d q a h = ground (arith, h, Above-least e d q a)
