-- ===== src/Base/Text/Numbers.antt =====
-- Python's `int` of a text, and that it reads what `str` writes.
use Prim.Native.Nat.{ℕ, zero, suc, ◌+◌, ◌-◌, ◌*◌, ◌/◌, ◌%◌, ◌<◌, ◌≤◌}
use Prim.Native.Char.{Char, code}
use Prim.Native.String.{String, char_at}
use mathlib.Core.Path.{◌≡◌, refl, ap, ◌∙◌}
use mathlib.Core.Bool.{Bool, true, false, ◌&&◌}
use mathlib.Core.Option.{Option, none, some}
use mathlib.Core.Logic.{inl, inr}
use native.Mathlib.Omega.{arith}
use opendss_designer_cloud.Base.Tests.{ltb, leb, ◌==◌, if◌then◌else◌, Bool-cases}
use opendss_designer_cloud.Base.Int.{ℤ, pos, negsuc, negate}
use opendss_designer_cloud.Base.Text.{strip, decimal, digits, lstrip, rstrip, drop_last}

abbrev pub is_digit : ℕ → Bool
is_digit c = leb b'0' c && leb c b'9'

-- The digits that are left, after a value and after a digit or not: single underscores may stand between digits.
unfoldable pub read_digits : ℕ → Bool → String → Option ℕ
read_digits n after String.[] = if after then some n else none
read_digits n after (String.◌∷◌ c s) =
    let digit = read_digits (n * 10 + (code c - b'0')) true s in
    let underscore = read_digits n false s in
    if is_digit (code c) then digit else if code c == b'_' && after then underscore else none

abbrev signed : (ℕ → ℤ) → Option ℕ → Option ℤ
signed f none = none
signed f (some n) = some (f n)

unfoldable pub read_int : String → Option ℤ
read_int String.[] = none
read_int (String.◌∷◌ c s) =
    if code c == b'-'
    then signed negate (read_digits 0 false s)
    else if code c == b'+'
    then signed pos (read_digits 0 false s)
    else signed pos (read_digits 0 false (String.◌∷◌ c s))

-- `int(s)`; `none` is its `ValueError`.
unfoldable pub int_of : String → Option ℤ
int_of s = read_int (strip s)

int_of_samples : int_of " -1_0 " ≡ some (negsuc 9)
unfolding int_of read_int read_digits strip
int_of_samples = refl

int_of_bad : int_of "1__0" ≡ none
unfolding int_of read_int read_digits strip
int_of_bad = refl

-- The digits that `str` writes: checked one by one.
digit : ℕ → Char
digit d = char_at "0123456789" d

digits_right : ℕ → Bool
digits_right zero = true
digits_right (suc n) = code (digit n) == b'0' + n && digits_right n

digits_right_10 : digits_right 10 ≡ true
unfolding digits_right digit
digits_right_10 = refl

digit-code_below : (n d : ℕ) → digits_right n ≡ true → d < n → code (digit d) ≡ b'0' + d
unfolding digits_right
digit-code_below zero d h b = elim b [ ]
digit-code_below (suc n) d h b = ground (arith, digit-code_below n d)

code-digit : (d : ℕ) → d < 10 → code (digit d) ≡ b'0' + d
code-digit d h = digit-code_below 10 d digits_right_10 h

digit-is_digit : (d : ℕ) → d < 10 → is_digit (code (digit d)) ≡ true
digit-is_digit d h = ground (arith, code-digit d h)

read_digits_step :
    (n : ℕ) (c : Char) (after : Bool) (t : String)
    → is_digit (code c) ≡ true
    → read_digits n after (String.◌∷◌ c t) ≡ read_digits (n * 10 + (code c - b'0')) true t
unfolding read_digits
read_digits_step n c after t h = rw h

read_digits-digit :
    (n d : ℕ) (after : Bool) (t : String)
    → d < 10
    → read_digits n after (String.◌∷◌ (digit d) t) ≡ read_digits (n * 10 + d) true t
read_digits-digit n d after t h =
    read_digits_step n (digit d) after t (digit-is_digit d h)
    ∙ ap (λ m. read_digits m true t) (omega (arith, code-digit d h))

-- One round of `digits`.
digits_last :
    (k n : ℕ) (t : String) → ltb n 10 ≡ true → digits (suc k) n t ≡ String.◌∷◌ (digit (n % 10)) t
unfolding digits digit
digits_last k n t e = rw e

digits_more :
    (k n : ℕ) (t : String)
    → ltb n 10 ≡ false
    → digits (suc k) n t ≡ digits k (n / 10) (String.◌∷◌ (digit (n % 10)) t)
unfolding digits digit
digits_more k n t e = rw e

read_digits-digits :
    (k n : ℕ) (after : Bool) (t : String)
    → n ≤ k
    → read_digits 0 after (digits (suc k) n t) ≡ read_digits n true t
read_digits-digits zero n after t h = rw (digits_last zero n t (ground arith)) (
    read_digits-digit 0 (n % 10) after t (omega arith)
    ∙ ap (λ m. read_digits m true t) (omega arith))
read_digits-digits (suc k) n after t h = elim (Bool-cases (ltb n 10)) [
  | inl e ↦ rw (digits_last (suc k) n t e) (
      read_digits-digit 0 (n % 10) after t (omega arith)
      ∙ ap (λ m. read_digits m true t) (ground arith))
  | inr e ↦ rw (digits_more (suc k) n t e) (
      read_digits-digits k (n / 10) after (String.◌∷◌ (digit (n % 10)) t) (ground arith)
      ∙ read_digits-digit (n / 10) (n % 10) true t (omega arith)
      ∙ ap (λ m. read_digits m true t) (omega arith))
]

-- Texts of digits alone.
unfoldable pub all_digits : String → Bool
all_digits String.[] = true
all_digits (String.◌∷◌ c s) = is_digit (code c) && all_digits s

digits-all_digits : (k n : ℕ) (t : String) → all_digits t ≡ true → all_digits (digits k n t) ≡ true
unfolding digits all_digits
digits-all_digits zero n t h = h
digits-all_digits (suc k) n t h = elim (Bool-cases (ltb n 10)) [
  | inl e ↦ rw (digits_last k n t e) (ground (arith, digit-is_digit (n % 10)))
  | inr e ↦ rw (digits_more k n t e) (
      digits-all_digits k (n / 10) (String.◌∷◌ (digit (n % 10)) t)
        (ground (arith, digit-is_digit (n % 10))))
]

pub decimal-all_digits : (n : ℕ) → all_digits (decimal n) ≡ true
unfolding decimal all_digits
decimal-all_digits n = digits-all_digits (suc n) n "" refl

rstrip-digits : (s : String) → all_digits s ≡ true → rstrip s ≡ s
unfolding rstrip drop_last all_digits
rstrip-digits String.[] h = refl
rstrip-digits (String.◌∷◌ c s) h = ap (drop_last c) (rstrip-digits s (ground arith)) ∙ kept s
  where
    kept : (t : String) → drop_last c t ≡ String.◌∷◌ c t
    kept String.[] = ground arith
    kept (String.◌∷◌ d t) = refl

lstrip-digits : (s : String) → all_digits s ≡ true → lstrip s ≡ s
unfolding lstrip all_digits
lstrip-digits String.[] h = refl
lstrip-digits (String.◌∷◌ c s) h = ground arith

strip-digits : (s : String) → all_digits s ≡ true → strip s ≡ s
unfolding strip
strip-digits s h = ap rstrip (lstrip-digits s h) ∙ rstrip-digits s h

read_int-digits :
    (s : String) → all_digits s ≡ true → read_int s ≡ signed pos (read_digits 0 false s)
unfolding read_int read_digits all_digits
read_int-digits String.[] h = refl
read_int-digits (String.◌∷◌ c s) h = ground arith

pub int_of-decimal : (n : ℕ) → int_of (decimal n) ≡ some (pos n)
unfolding int_of decimal read_digits
int_of-decimal n =
    rw
      (
        strip-digits (decimal n) (decimal-all_digits n),
        read_int-digits (decimal n) (decimal-all_digits n),
      )
      (ap (signed pos) (read_digits-digits n n false "" (omega arith)))
