-- ===== src/Common/Text.antt =====
-- A text is the list of its code points. The functions are those of `str` that the code uses.
use Prim.Native.Nat.{ℕ, ◌+◌}
use Prim.Native.Char.{code}
use Prim.Native.String.{String}
use mathlib.Core.Path.{◌≡◌, refl}
use mathlib.Core.Logic.{◌≢◌, ◌↔◌}
use mathlib.Core.Bool.{Bool, true, false, ◌&&◌, ◌||◌}
use mathlib.Core.Option.{Option, none, some}
use mathlib.Core.List.{List, [], ◌∷◌, ◌++◌, reverse}
use native.Mathlib.Omega.{arith}
use ratash.Common.Tests.{ltb, leb, ◌==◌, if◌then◌else◌}
use ratash.Common.Lists.{All}

abbrev pub Text : Type 0
Text = List ℕ

abbrev pub codes : String → Text
codes String.[] = []
codes (String.◌∷◌ c s) = code c ∷ codes s

abbrev pub same_text : Text → Text → Bool
same_text [] [] = true
same_text (x ∷ xs) (y ∷ ys) = x == y && same_text xs ys
same_text _ _ = false

pub same_text_iff : (a b : Text) → (same_text a b ≡ true) ↔ (a ≡ b)
same_text_iff (x ∷ a) (y ∷ b) = ground (arith, same_text_iff a b)
same_text_iff _ _ = ground arith

pub same_text_refl : (a : Text) → same_text a a ≡ true
same_text_refl a = (same_text_iff a a).1 refl

-- `char::len_utf8`, and `str::len`.
abbrev pub len_utf8 : ℕ → ℕ
len_utf8 c = if ltb c 0x80 then 1 else if ltb c 0x800 then 2 else if ltb c 0x10000 then 3 else 4

abbrev pub byte_length : Text → ℕ
byte_length [] = 0
byte_length (c ∷ s) = len_utf8 c + byte_length s

-- `char::is_whitespace`: the Unicode property White_Space.
unfoldable pub is_whitespace : ℕ → Bool
is_whitespace c =
    (leb 0x9 c && leb c 0xd)
    || (c == 0x20
        || (c == 0x85
            || (c == 0xa0
                || (c == 0x1680
                    || ((leb 0x2000 c && leb c 0x200a)
                        || (c == 0x2028
                            || (c == 0x2029 || (c == 0x202f || (c == 0x205f || c == 0x3000)))))))))

unfoldable pub trim_start : Text → Text
trim_start [] = []
trim_start (c ∷ s) = let rest = trim_start s in if is_whitespace c then rest else c ∷ s

unfoldable pub trim : Text → Text
trim s = reverse (trim_start (reverse (trim_start s)))

abbrev pub Lacks : ℕ → Text → Type 0
Lacks b = All (λ c. c ≢ b)

abbrev pub grow_head : ℕ → Option (Text × Text) → Option (Text × Text)
grow_head c none = none
grow_head c (some (head, tail)) = some (c ∷ head, tail)

-- `split_once`: at the first separator.
unfoldable pub split_once : ℕ → Text → Option (Text × Text)
split_once sep [] = none
split_once sep (c ∷ s) =
    let rest = split_once sep s in if c == sep then some ([], s) else grow_head c rest

abbrev pub last_split : ℕ → ℕ → Text → Option (Text × Text) → Option (Text × Text)
last_split sep c s (some (head, tail)) = some (c ∷ head, tail)
last_split sep c s none = if c == sep then some ([], s) else none

-- `rsplit_once`: at the last separator.
unfoldable pub rsplit_once : ℕ → Text → Option (Text × Text)
rsplit_once sep [] = none
rsplit_once sep (c ∷ s) = last_split sep c s (rsplit_once sep s)

abbrev pub grow_field : ℕ → List Text → List Text
grow_field c [] = (c ∷ []) ∷ []
grow_field c (field ∷ fields) = (c ∷ field) ∷ fields

-- `split`: there is always one part.
unfoldable pub split : ℕ → Text → List Text
split sep [] = [] ∷ []
split sep (c ∷ s) = let rest = split sep s in if c == sep then [] ∷ rest else grow_field c rest

-- `contains` of a character.
abbrev pub contains_char : ℕ → Text → Bool
contains_char b [] = false
contains_char b (c ∷ s) = c == b || contains_char b s

-- The fields with the separator between them.
unfoldable pub joined : ℕ → List Text → Text
joined sep [] = []
joined sep (field ∷ []) = field
joined sep (field ∷ fields) = field ++ sep ∷ joined sep fields

pub split_once-Lacks :
    (sep : ℕ) (s t : Text) → Lacks sep s → split_once sep (s ++ sep ∷ t) ≡ some (s, t)
unfolding split_once
split_once-Lacks sep [] t h = ground arith
split_once-Lacks sep (c ∷ s) t h = ground (arith, split_once-Lacks sep s t)

pub split-Lacks : (sep : ℕ) (s : Text) → Lacks sep s → split sep s ≡ s ∷ []
unfolding split
split-Lacks sep [] h = refl
split-Lacks sep (c ∷ s) h = ground (arith, split-Lacks sep s)

pub split_at : (sep : ℕ) (s t : Text) → Lacks sep s → split sep (s ++ sep ∷ t) ≡ s ∷ split sep t
unfolding split
split_at sep [] t h = ground arith
split_at sep (c ∷ s) t h = ground (arith, split_at sep s t)

-- Fields without a separator are read back.
pub split-joined :
    (sep : ℕ) (fields : List Text)
    → All (Lacks sep) fields
    → fields ≢ []
    → split sep (joined sep fields) ≡ fields
unfolding joined
split-joined sep [] h ne = absurd (ne refl)
split-joined sep (f ∷ []) h ne = split-Lacks sep f h.0
split-joined sep (f ∷ g ∷ fields) h ne =
    rw (split_at sep f (joined sep (g ∷ fields)) h.0, split-joined sep (g ∷ fields) h.1 (cc)) refl
