-- ===== src/Common/Map.antt =====
-- `BTreeMap` with numeric keys: an association list in ascending order of the keys. The laws
-- hold of every list; `IsSorted` is what the operations keep of a map that begins empty.
use Prim.Native.Nat.{ℕ, ◌+◌, ◌≤◌, ◌<◌}
use mathlib.Core.Path.{◌≡◌, refl}
use mathlib.Core.Logic.{◌≢◌}
use mathlib.Core.Bool.{Bool}
use mathlib.Core.Option.{Option, none, some}
use mathlib.Core.List.{List, [], ◌∷◌}
use native.Mathlib.Omega.{arith}
use ratash.Common.Tests.{ltb, ◌==◌, if◌then◌else◌, is_some}
use ratash.Common.Lists.{length}

abbrev pub Map {ℓ} : Type ℓ → Type ℓ
Map V = List (ℕ × V)

module _ {ℓ} {V : Type ℓ} where
  unfoldable pub get : ℕ → Map V → Option V
  get k [] = none
  get k ((j, v) ∷ m) = if j == k then some v else get k m

  unfoldable pub insert : ℕ → V → Map V → Map V
  insert k v [] = (k, v) ∷ []
  insert k v ((j, w) ∷ m) =
      let rest = insert k v m in
      if ltb k j then (k, v) ∷ (j, w) ∷ m else if j == k then (k, v) ∷ m else (j, w) ∷ rest

  unfoldable pub remove : ℕ → Map V → Map V
  remove k [] = []
  remove k ((j, v) ∷ m) = let rest = remove k m in if j == k then rest else (j, v) ∷ rest

  abbrev pub contains : ℕ → Map V → Bool
  contains k m = is_some (get k m)

  abbrev pub keys : Map V → List ℕ
  keys [] = []
  keys ((j, v) ∷ m) = j ∷ keys m

  abbrev pub values : Map V → List V
  values [] = []
  values ((j, v) ∷ m) = v ∷ values m

  pub get-nil : (k : ℕ) → get k [] ≡ none
  unfolding get
  get-nil k = refl

  pub get-insert :
      (k i : ℕ) (v : V) (m : Map V) → get i (insert k v m) ≡ (if k == i then some v else get i m)
  unfolding get insert
  get-insert k i v [] = refl
  get-insert k i v ((j, w) ∷ m) = ground (arith, get-insert k i v m)

  pub get-remove : (k i : ℕ) (m : Map V) → get i (remove k m) ≡ (if k == i then none else get i m)
  unfolding get remove
  get-remove k i [] = ground arith
  get-remove k i ((j, w) ∷ m) = ground (arith, get-remove k i m)

  pub get-insert_self : (k : ℕ) (v : V) (m : Map V) → get k (insert k v m) ≡ some v
  get-insert_self k v m = rw get-insert (ground arith)

  pub get-insert_ne : (k i : ℕ) (v : V) (m : Map V) → k ≢ i → get i (insert k v m) ≡ get i m
  get-insert_ne k i v m h = rw get-insert (ground arith)

  pub get-remove_self : (k : ℕ) (m : Map V) → get k (remove k m) ≡ none
  get-remove_self k m = rw get-remove (ground arith)

  pub get-remove_ne : (k i : ℕ) (m : Map V) → k ≢ i → get i (remove k m) ≡ get i m
  get-remove_ne k i m h = rw get-remove (ground arith)

  pub length-insert-le : (k : ℕ) (v : V) (m : Map V) → length (insert k v m) ≤ length m + 1
  unfolding insert
  length-insert-le k v [] = omega arith
  length-insert-le k v ((j, w) ∷ m) = ground (arith, length-insert-le k v m)

  pub length-insert_new :
      (k : ℕ) (v : V) (m : Map V) → get k m ≡ none → length (insert k v m) ≡ length m + 1
  unfolding get insert
  length-insert_new k v [] h = omega arith
  length-insert_new k v ((j, w) ∷ m) h = ground (arith, h, length-insert_new k v m)

  pub length-remove-le : (k : ℕ) (m : Map V) → length (remove k m) ≤ length m
  unfolding remove
  length-remove-le k [] = omega arith
  length-remove-le k ((j, w) ∷ m) = ground (arith, length-remove-le k m)

  -- Every key lies above `lo`, and the keys ascend.
  abbrev pub Above : ℕ → Map V → Type 0
  Above lo [] = Unit {0}
  Above lo ((j, v) ∷ m) = (lo < j) × Above j m

  abbrev pub IsSorted : Map V → Type 0
  IsSorted [] = Unit {0}
  IsSorted ((j, v) ∷ m) = Above j m

  pub Above-le : {lo hi : ℕ} (m : Map V) → lo ≤ hi → Above hi m → Above lo m
  Above-le [] h a = tt
  Above-le ((j, v) ∷ m) h a = (omega arith, a.1)

  pub get-Above : (lo k : ℕ) (v : V) (m : Map V) → Above lo m → get k m ≡ some v → lo < k
  unfolding get
  get-Above lo k v [] a h = cc
  get-Above lo k v ((j, w) ∷ m) a h = ground (arith, a, get-Above j k v m a.1)

  pub get-later :
      (j k : ℕ) (w v : V) (m : Map V) → Above j m → get k m ≡ some v → get k ((j, w) ∷ m) ≡ some v
  unfolding get
  get-later j k w v m a h = ground (arith, h, get-Above j k v m a h)

  pub get-head : (j : ℕ) (w : V) (m : Map V) → get j ((j, w) ∷ m) ≡ some w
  unfolding get
  get-head j w m = ground arith

  pub get_below : (lo k : ℕ) (m : Map V) → Above lo m → k ≤ lo → get k m ≡ none
  unfolding get
  get_below lo k [] a h = refl
  get_below lo k ((j, w) ∷ m) a h = ground (arith, a, h, get_below j k m a.1)

  remove_absent : (k : ℕ) (m : Map V) → get k m ≡ none → remove k m ≡ m
  unfolding get remove
  remove_absent k [] h = refl
  remove_absent k ((j, w) ∷ m) h = ground (arith, h, remove_absent k m)

  pub length-remove_present :
      (k : ℕ) (v : V) (m : Map V)
      → IsSorted m
      → get k m ≡ some v
      → length (remove k m) + 1 ≡ length m
  unfolding get remove
  length-remove_present k v [] a h = cc
  length-remove_present k v ((j, w) ∷ m) a h =
      ground (
        arith,
        a,
        h,
        get_below j k m a,
        remove_absent k m,
        length-remove_present k v m (later j m a),
      )
    where
      later : (lo : ℕ) (n : Map V) → Above lo n → IsSorted n
      later lo [] b = tt
      later lo ((i, x) ∷ n) b = b.1

  pub insert-Above : (lo k : ℕ) (v : V) (m : Map V) → lo < k → Above lo m → Above lo (insert k v m)
  unfolding insert
  insert-Above lo k v [] h a = (h, tt)
  insert-Above lo k v ((j, w) ∷ m) h a =
      ground (arith, insert-Above j k v m, Above-le {lo = k} {hi = j} m)

  pub insert-IsSorted : (k : ℕ) (v : V) (m : Map V) → IsSorted m → IsSorted (insert k v m)
  unfolding insert
  insert-IsSorted k v [] a = tt
  insert-IsSorted k v ((j, w) ∷ m) a =
      ground (arith, insert-Above j k v m, Above-le {lo = k} {hi = j} m)

  pub remove-Above : (lo k : ℕ) (m : Map V) → Above lo m → Above lo (remove k m)
  unfolding remove
  remove-Above lo k [] a = tt
  remove-Above lo k ((j, w) ∷ m) a =
      ground (arith, remove-Above j k m a.1, Above-le {lo = lo} {hi = j} (remove k m))

  pub Above-IsSorted : (lo : ℕ) (m : Map V) → Above lo m → IsSorted m
  Above-IsSorted lo [] a = tt
  Above-IsSorted lo ((j, v) ∷ m) a = a.1

  pub remove-IsSorted : (k : ℕ) (m : Map V) → IsSorted m → IsSorted (remove k m)
  unfolding remove
  remove-IsSorted k [] a = tt
  remove-IsSorted k ((j, w) ∷ m) a =
      ground (arith, remove-Above j k m a, Above-IsSorted j (remove k m))

pub ruleset map_laws = (get-nil, get-insert, get-remove)
