-- ===== src/Base/Text.antt =====
-- Python's `str.lower` and `str.strip` on ASCII texts.
pub mod Numbers
pub mod Split
pub mod Query
use Prim.Native.Nat.{ℕ, zero, suc, ◌-◌, ◌<◌, ◌/◌, ◌%◌}
use Prim.Native.Char.{Char, code}
use Prim.Native.String.{String, char_at}
use mathlib.Core.Path.{◌≡◌, refl, ap₂}
use mathlib.Core.Bool.{Bool, true, false, not, ◌&&◌, ◌||◌}
use mathlib.Core.Logic.{inl, inr}
use native.Mathlib.Omega.{arith}
use opendss_designer_cloud.Base.Tests.{ltb, leb, if◌then◌else◌, Bool-cases}

abbrev is_upper : ℕ → Bool
is_upper c = leb b'A' c && leb c b'Z'

letter : ℕ → Char
letter i = char_at "abcdefghijklmnopqrstuvwxyz" i

lower_char : Char → Char
unfolding letter
lower_char c = if is_upper (code c) then letter (code c - b'A') else c

unfoldable pub lower : String → String
unfolding lower_char
lower String.[] = String.[]
lower (String.◌∷◌ c s) = String.◌∷◌ (lower_char c) (lower s)

abbrev pub is_space : ℕ → Bool
is_space c = (leb 9 c && leb c 13) || (leb 28 c && leb c 32)

lstrip : String → String
lstrip String.[] = String.[]
lstrip (String.◌∷◌ c s) = let rest = lstrip s in if is_space (code c) then rest else String.◌∷◌ c s

-- The text without its last characters where they are spaces.
drop_last : Char → String → String
drop_last c String.[] = if is_space (code c) then String.[] else String.◌∷◌ c String.[]
drop_last c (String.◌∷◌ d s) = String.◌∷◌ c (String.◌∷◌ d s)

rstrip : String → String
rstrip String.[] = String.[]
rstrip (String.◌∷◌ c s) = drop_last c (rstrip s)

unfoldable pub strip : String → String
unfolding lstrip rstrip drop_last
strip s = rstrip (lstrip s)

normal : lower (strip "  Ada@Example.COM ") ≡ "ada@example.com"
unfolding lower strip
normal = refl

-- Lower case is stable: checked letter by letter.
letters_lower : ℕ → Bool
letters_lower zero = true
letters_lower (suc n) = not (is_upper (code (letter n))) && letters_lower n

letters_lower_26 : letters_lower 26 ≡ true
unfolding letters_lower letter
letters_lower_26 = refl

letter_lower : (n i : ℕ) → letters_lower n ≡ true → i < n → is_upper (code (letter i)) ≡ false
unfolding letters_lower
letter_lower zero i h b = elim b [ ]
letter_lower (suc n) i h b = ground (arith, letter_lower n i)

lower_char_upper : (c : Char) → is_upper (code c) ≡ true → lower_char c ≡ letter (code c - b'A')
unfolding lower_char
lower_char_upper c h = rw h

lower_char_other : (c : Char) → is_upper (code c) ≡ false → lower_char c ≡ c
unfolding lower_char
lower_char_other c h = rw h

lower_char_idem : (c : Char) → lower_char (lower_char c) ≡ lower_char c
lower_char_idem c = elim (Bool-cases (is_upper (code c))) [
  | inl e ↦ rw (
    lower_char_upper c e,
    lower_char_other (letter (code c - b'A'))
        (letter_lower 26 (code c - b'A') letters_lower_26 (ground arith)),
  )
  | inr e ↦ rw (lower_char_other c e) (lower_char_other c e)
]

pub lower_idem : (s : String) → lower (lower s) ≡ lower s
unfolding lower
lower_idem String.[] = refl
lower_idem (String.◌∷◌ c s) = ap₂ String.◌∷◌ (lower_char_idem c) (lower_idem s)

-- `a + b`
unfoldable pub join : String → String → String
join String.[] t = t
join (String.◌∷◌ c s) t = String.◌∷◌ c (join s t)

-- The decimal digits of a number, written in front of a text. A number below 10 ^ fuel is written whole.
digits : ℕ → ℕ → String → String
digits zero n t = t
digits (suc k) n t =
    let front = String.◌∷◌ (char_at "0123456789" (n % 10)) t in
    let rest = digits k (n / 10) front in if ltb n 10 then front else rest

-- `str(n)`: a number has at most as many digits as it counts, and 0 has one.
unfoldable pub decimal : ℕ → String
unfolding digits
decimal n = digits (suc n) n ""

decimal_404 : join "http-" (decimal 404) ≡ "http-404"
unfolding decimal join digits
decimal_404 = refl
