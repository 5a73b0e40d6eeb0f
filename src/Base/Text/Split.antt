-- ===== src/Base/Text/Split.antt =====
-- Python's `split` of a text at one character, and `split` with `maxsplit=1`.
use Prim.Native.Char.{Char, code}
use Prim.Native.String.{String}
use mathlib.Core.Path.{◌≡◌, refl}
use mathlib.Core.Bool.{Bool, true, false, not, ◌&&◌}
use mathlib.Core.Option.{Option, none, some}
use mathlib.Core.List.{List, [], ◌∷◌}
use native.Mathlib.Omega.{arith}
use opendss_designer_cloud.Base.Tests.{◌==◌, if◌then◌else◌}
use opendss_designer_cloud.Base.Text.{join}
use opendss_designer_cloud.Base.Text.Numbers.{is_digit, all_digits}

abbrev longer_first : Char → List String → List String
longer_first c [] = String.◌∷◌ c String.[] ∷ []
longer_first c (s ∷ parts) = String.◌∷◌ c s ∷ parts

-- `s.split(sep)`
unfoldable pub split_on : Char → String → List String
split_on sep String.[] = String.[] ∷ []
split_on sep (String.◌∷◌ c s) =
    let parts = split_on sep s in
    if code c == code sep then String.[] ∷ parts else longer_first c parts

abbrev longer_key : Char → Option (String × String) → Option (String × String)
longer_key c none = none
longer_key c (some (k, v)) = some (String.◌∷◌ c k, v)

-- `s.split(sep, 1)` as a pair, where `sep in s`.
unfoldable pub split_once : Char → String → Option (String × String)
split_once sep String.[] = none
split_once sep (String.◌∷◌ c s) =
    let rest = longer_key c (split_once sep s) in
    if code c == code sep then some (String.[], s) else rest

-- The text does not have the character.
unfoldable pub is_free : Char → String → Bool
is_free sep String.[] = true
is_free sep (String.◌∷◌ c s) = not (code c == code sep) && is_free sep s

pub split_on-free : (sep : Char) (s : String) → is_free sep s ≡ true → split_on sep s ≡ s ∷ []
unfolding split_on is_free
split_on-free sep String.[] h = refl
split_on-free sep (String.◌∷◌ c s) h = ground (arith, split_on-free sep s)

pub split_on-join :
    (sep : Char) (s t : String)
    → is_free sep s ≡ true
    → split_on sep (join s (String.◌∷◌ sep t)) ≡ s ∷ split_on sep t
unfolding split_on is_free join
split_on-join sep String.[] t h = ground arith
split_on-join sep (String.◌∷◌ c s) t h = ground (arith, split_on-join sep s t)

pub split_once-join :
    (sep : Char) (s t : String)
    → is_free sep s ≡ true
    → split_once sep (join s (String.◌∷◌ sep t)) ≡ some (s, t)
unfolding split_once is_free join
split_once-join sep String.[] t h = ground arith
split_once-join sep (String.◌∷◌ c s) t h = ground (arith, split_once-join sep s t)

pub is_free-join :
    (sep : Char) (s t : String)
    → is_free sep s ≡ true
    → is_free sep t ≡ true
    → is_free sep (join s t) ≡ true
unfolding is_free join
is_free-join sep String.[] t h k = k
is_free-join sep (String.◌∷◌ c s) t h k = ground (arith, is_free-join sep s t)

pub all_digits-is_free :
    (sep : Char) (s : String)
    → is_digit (code sep) ≡ false
    → all_digits s ≡ true
    → is_free sep s ≡ true
unfolding all_digits is_free
all_digits-is_free sep String.[] d h = refl
all_digits-is_free sep (String.◌∷◌ c s) d h = ground (arith, all_digits-is_free sep s d)

some_parts : split_on "," "a,,b" ≡ "a" ∷ "" ∷ "b" ∷ []
unfolding split_on
some_parts = refl
