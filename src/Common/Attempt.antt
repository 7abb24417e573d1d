-- ===== src/Common/Attempt.antt =====
-- A call that reads and changes a world and returns a `Result`: `?` and `map_err` of Rust, and the
-- rules to prove what such a call leaves behind.
use mathlib.Core.Path.{◌≡◌, refl}
use mathlib.Core.Bool.{Bool, true, false}
use mathlib.Core.Option.{Option, none, some}
use ratash.Common.Result.{Result, ok, err, ok-injective, err-injective}
use ratash.Common.Tests.{if◌then◌else◌}

abbrev pub Attempt : Type 0 → Type 0 → Type 0 → Type 0
Attempt W E A = W → Result E A × W

pub and_then : {W E A B : Type 0} → Result E A × W → (A → W → Result E B × W) → Result E B × W
and_then (ok a, w) f = f a w
and_then (err e, w) f = (err e, w)

pub replace_err : {W E F A : Type 0} → F → Result E A × W → Result F A × W
replace_err f (ok a, w) = (ok a, w)
replace_err f (err e, w) = (err f, w)

infixl 5 ◌>>=◌
unfoldable pub ◌>>=◌ : {W E A B : Type 0} → Attempt W E A → (A → Attempt W E B) → Attempt W E B
unfolding and_then
(m >>= f) w = and_then (m w) f

unfoldable pub succeed : {W E A : Type 0} → A → Attempt W E A
succeed a w = (ok a, w)

unfoldable pub fail : {W E A : Type 0} → E → Attempt W E A
fail e w = (err e, w)

-- `map_err(|_| e)`.
unfoldable pub map_err : {W E F A : Type 0} → F → Attempt W E A → Attempt W F A
unfolding replace_err
map_err f m w = replace_err f (m w)

-- The result of a call as a value, for a `match` on it.
unfoldable pub result : {W E F A : Type 0} → Attempt W E A → Attempt W F (Result E A)
result m w = (ok (m w).0, (m w).1)

-- A call that cannot fail.
unfoldable pub read : {W E A : Type 0} → (W → A × W) → Attempt W E A
read m w = (ok (m w).0, (m w).1)

-- `Option::map` and `transpose`.
unfoldable pub traverse :
    {W E A B : Type 0} → (A → Attempt W E B) → Option A → Attempt W E (Option B)
traverse f none = succeed none
traverse f (some a) = do b ← f a; succeed (some b)

-- What holds after a call: `Q` of its value, or `X` of its error.
unfoldable pub Outcome :
    {W E A : Type 0} → (A → W → Type 0) → (E → W → Type 0) → Result E A × W → Type 0
Outcome Q X (ok a, w) = Q a w
Outcome Q X (err e, w) = X e w

-- From a world with `P`, the call ends with `Q` of its value or with `X` of its error.
pub record Triple {W E A : Type 0} (P : W → Type 0) (m : Attempt W E A) (Q : A → W → Type 0)
    (X : E → W → Type 0) : Type 0 where
  pub from : (w : W) → P w → Outcome Q X (m w)

-- The call keeps `R`, also when it fails.
abbrev pub Keeps : {W E A : Type 0} → (W → Type 0) → Attempt W E A → Type 0
Keeps R m = Triple R m (λ _. R) (λ _. R)

module _ {W E A : Type 0} {P : W → Type 0} {X : E → W → Type 0} where
  pub Triple-succeed :
      {Q : A → W → Type 0} (a : A) → ((w : W) → P w → Q a w) → Triple P (succeed a) Q X
  unfolding Outcome succeed
  Triple-succeed a h = record { from = h }

  pub Triple-fail : {Q : A → W → Type 0} (e : E) → ((w : W) → P w → X e w) → Triple P (fail e) Q X
  unfolding Outcome fail
  Triple-fail e h = record { from = h }

  pub Triple-if :
      {Q : A → W → Type 0} (b : Bool) {m n : Attempt W E A}
      → (b ≡ true → Triple P m Q X)
      → (b ≡ false → Triple P n Q X)
      → Triple P (if b then m else n) Q X
  Triple-if true h k = h refl
  Triple-if false h k = k refl

module _ {W E A : Type 0} where
  after :
      {B : Type 0} (Q : A → W → Type 0) (P : B → W → Type 0) (X : E → W → Type 0)
      (r : Result E A × W) (f : A → W → Result E B × W)
      → Outcome Q X r
      → ((a : A) (w : W) → Q a w → Outcome P X (f a w))
      → Outcome P X (and_then r f)
  unfolding Outcome and_then
  after Q P X (ok a, w) f h k = k a w h
  after Q P X (err e, w) f h k = h

  pub Triple-bind :
      {B : Type 0} {P : W → Type 0} {Q : A → W → Type 0} {Z : B → W → Type 0} {X : E → W → Type 0}
      {m : Attempt W E A} {f : A → Attempt W E B}
      → Triple P m Q X
      → ((a : A) → Triple (Q a) (f a) Z X)
      → Triple P (m >>= f) Z X
  unfolding ◌>>=◌
  Triple-bind {Q} {Z} {X} {m} {f} h k = record {
    from = λ w p. after Q Z X (m w) f (h.from w p) (λ a. (k a).from);
  }

  change :
      (P Q : A → W → Type 0) (X Y : E → W → Type 0) (r : Result E A × W)
      → ((a : A) (w : W) → P a w → Q a w)
      → ((e : E) (w : W) → X e w → Y e w)
      → Outcome P X r
      → Outcome Q Y r
  unfolding Outcome
  change P Q X Y (ok a, w) f g h = f a w h
  change P Q X Y (err e, w) f g h = g e w h

  pub Triple-weaken :
      {O : W → Type 0} {P Q : A → W → Type 0} {X Y : E → W → Type 0} {m : Attempt W E A}
      → ((a : A) (w : W) → P a w → Q a w)
      → ((e : E) (w : W) → X e w → Y e w)
      → Triple O m P X
      → Triple O m Q Y
  Triple-weaken {P} {Q} {X} {Y} {m} f g h = record {
    from = λ w o. change P Q X Y (m w) f g (h.from w o);
  }

  recoded :
      {F : Type 0} (Q : A → W → Type 0) (X : E → W → Type 0) (Y : F → W → Type 0) (e : F)
      (r : Result E A × W)
      → ((x : E) (w : W) → X x w → Y e w)
      → Outcome Q X r
      → Outcome Q Y (replace_err e r)
  unfolding Outcome replace_err
  recoded Q X Y e (ok a, w) g h = h
  recoded Q X Y e (err x, w) g h = g x w h

  pub Triple-map_err :
      {F : Type 0} {P : W → Type 0} {Q : A → W → Type 0} {X : E → W → Type 0} {Y : F → W → Type 0}
      (e : F) {m : Attempt W E A}
      → ((x : E) (w : W) → X x w → Y e w)
      → Triple P m Q X
      → Triple P (map_err e m) Q Y
  unfolding map_err
  Triple-map_err {Q} {X} {Y} e {m} g h = record {
    from = λ w p. recoded Q X Y e (m w) g (h.from w p);
  }

  same_end : (R : W → Type 0) (r : Result E A × W) → Outcome (λ _. R) (λ _. R) r → R (r.1)
  unfolding Outcome
  same_end R (ok a, w) h = h
  same_end R (err e, w) h = h

  pub Keeps-result :
      {F : Type 0} {R : W → Type 0} {m : Attempt W E A} {X : F → W → Type 0}
      → Keeps R m
      → Triple R (result m) (λ _. R) X
  unfolding result Outcome
  Keeps-result {R} {m} h = record { from = λ w r. same_end R (m w) (h.from w r) }

  pub Keeps-read :
      {R : W → Type 0} {X : E → W → Type 0} (m : W → A × W)
      → ((w : W) → R w → R ((m w).1))
      → Triple R (read m) (λ _. R) X
  unfolding read Outcome
  Keeps-read m h = record { from = h }

  trivially : (r : Result E A × W) → Outcome (λ _ _. Unit {0}) (λ _ _. Unit {0}) r
  unfolding Outcome
  trivially (ok a, w) = tt
  trivially (err e, w) = tt

  pub Keeps-trivial : (m : Attempt W E A) → Keeps (λ _. Unit {0}) m
  Keeps-trivial m = record { from = λ w _. trivially (m w) }

  at_ok :
      (Q : A → W → Type 0) (X : E → W → Type 0) (r : Result E A × W) {a : A}
      → Outcome Q X r
      → r.0 ≡ ok a
      → Q a (r.1)
  unfolding Outcome
  at_ok Q X (ok b, w) h same = rw (← ok-injective same) h
  at_ok Q X (err e, w) h same = cc

  at_err :
      (Q : A → W → Type 0) (X : E → W → Type 0) (r : Result E A × W) {e : E}
      → Outcome Q X r
      → r.0 ≡ err e
      → X e (r.1)
  unfolding Outcome
  at_err Q X (err x, w) h same = rw (← err-injective same) h
  at_err Q X (ok a, w) h same = cc

  pub Outcome-ok :
      {Q : A → W → Type 0} {X : E → W → Type 0} {m : Attempt W E A} {P : W → Type 0} {w : W} {a : A}
      → Triple P m Q X
      → P w
      → (m w).0 ≡ ok a
      → Q a ((m w).1)
  Outcome-ok {Q} {X} {m} {w} h p same = at_ok Q X (m w) (h.from w p) same

  pub Outcome-err :
      {Q : A → W → Type 0} {X : E → W → Type 0} {m : Attempt W E A} {P : W → Type 0} {w : W} {e : E}
      → Triple P m Q X
      → P w
      → (m w).0 ≡ err e
      → X e ((m w).1)
  Outcome-err {Q} {X} {m} {w} h p same = at_err Q X (m w) (h.from w p) same

  pub Triple-before :
      {O P : W → Type 0} {Q : A → W → Type 0} {X : E → W → Type 0} {m : Attempt W E A}
      → ((w : W) → P w → O w)
      → Triple O m Q X
      → Triple P m Q X
  Triple-before f h = record { from = λ w p. h.from w (f w p) }

  -- What a result that was kept as a value says.
  unfoldable pub Settled : (A → W → Type 0) → (E → W → Type 0) → Result E A → W → Type 0
  Settled Q X (ok a) w = Q a w
  Settled Q X (err e) w = X e w

  settled :
      (Q : A → W → Type 0) (X : E → W → Type 0) (r : Result E A × W)
      → Outcome Q X r
      → Settled Q X r.0 (r.1)
  unfolding Outcome Settled
  settled Q X (ok a, w) h = h
  settled Q X (err e, w) h = h

  pub Triple-result :
      {F : Type 0} {P : W → Type 0} {Q : A → W → Type 0} {X : E → W → Type 0} {Y : F → W → Type 0}
      {m : Attempt W E A}
      → Triple P m Q X
      → Triple P (result m) (Settled Q X) Y
  unfolding result Outcome
  Triple-result {Q} {X} {m} h = record { from = λ w p. settled Q X (m w) (h.from w p) }

  -- A precondition on no world is a hypothesis.
  pub Triple-given :
      {P : Type 0} {Q : A → W → Type 0} {X : E → W → Type 0} {m : Attempt W E A}
      → (P → Triple (λ _. Unit {0}) m Q X)
      → Triple (λ _. P) m Q X
  Triple-given f = record { from = λ w p. (f p).from w tt }

  -- The same of a part of the precondition.
  pub Triple-known :
      {R : W → Type 0} {P : Type 0} {Q : A → W → Type 0} {X : E → W → Type 0} {m : Attempt W E A}
      → (P → Triple R m Q X)
      → Triple (λ w. R w × P) m Q X
  Triple-known f = record { from = λ w h. (f h.1).from w h.0 }

-- To compute a chain whose first call is known.
pub run-bind :
    {W E A B : Type 0} (m : Attempt W E A) (f : A → Attempt W E B) (w v : W) (a : A)
    → m w ≡ (ok a, v)
    → (m >>= f) w ≡ f a v
unfolding ◌>>=◌ and_then
run-bind m f w v a h = rw h refl

pub run-result :
    {W E F A : Type 0} (m : Attempt W E A) (w v : W) (r : Result E A)
    → m w ≡ (r, v)
    → result {F = F} m w ≡ (ok r, v)
unfolding result
run-result m w v r h = rw h refl
