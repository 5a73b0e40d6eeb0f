-- ===== src/Base/Text/Query.antt =====
-- Python's `urllib.parse.urlencode` of a dict of texts, and how a server reads it.
pub mod Reads
use Prim.Native.Nat.{ℕ, ◌+◌, ◌-◌, ◌*◌, ◌/◌, ◌%◌, ◌<◌}
use Prim.Native.Char.{Char, code}
use Prim.Native.String.{String, char_at}
use mathlib.Core.Path.{◌≡◌, refl, ap, sym, ◌∙◌}
use mathlib.Core.Bool.{Bool, true, false, not, ◌&&◌, ◌||◌}
use mathlib.Core.Option.{Option, none, some}
use mathlib.Core.Logic.{inl, inr}
use mathlib.Core.List.{List, [], ◌∷◌, ◌++◌, map}
use native.Mathlib.Omega.{arith}
use opendss_designer_cloud.Base.Tests.{ltb, leb, ◌==◌, if◌then◌else◌, Bool-cases}
use opendss_designer_cloud.Base.Text.{join}
use opendss_designer_cloud.Base.Text.Numbers.{is_digit}
use opendss_designer_cloud.Base.Text.Split.{
  split_on, split_once, is_free, is_free-join, split_on-join, split_on-free, split_once-join,
}

-- The characters that `quote_plus` leaves: letters, digits and `_.-~`.
abbrev pub is_unreserved : ℕ → Bool
is_unreserved c =
    is_digit c
    || ((leb b'A' c && leb c b'Z')
        || ((leb b'a' c && leb c b'z') || (c == b'_' || (c == b'.' || (c == b'-' || c == b'~')))))

-- The bytes of UTF-8.
unfoldable pub utf8 : ℕ → List ℕ
utf8 c =
    if ltb c 128
    then c ∷ []
    else if ltb c 2048
    then (192 + c / 64) ∷ (128 + c % 64) ∷ []
    else if ltb c 65536
    then (224 + c / 4096) ∷ (128 + c / 64 % 64) ∷ (128 + c % 64) ∷ []
    else (240 + c / 262144) ∷ (128 + c / 4096 % 64) ∷ (128 + c / 64 % 64) ∷ (128 + c % 64) ∷ []

hex_digit : ℕ → Char
hex_digit d = char_at "0123456789ABCDEF" d

unfoldable pub escaped_bytes : List ℕ → String
unfolding hex_digit
escaped_bytes [] = ""
escaped_bytes (b ∷ bs) =
    String.◌∷◌ "%"
      (String.◌∷◌ (hex_digit (b / 16)) (String.◌∷◌ (hex_digit (b % 16)) (escaped_bytes bs)))

unfoldable pub quoted_char : Char → String
quoted_char c =
    if is_unreserved (code c)
    then String.◌∷◌ c ""
    else if code c == b' '
    then "+"
    else escaped_bytes (utf8 (code c))

-- `quote_plus`
unfoldable pub quote_plus : String → String
quote_plus String.[] = ""
quote_plus (String.◌∷◌ c s) = join (quoted_char c) (quote_plus s)

unfoldable pub pair : String × String → String
pair (k, v) = join (quote_plus k) (String.◌∷◌ "=" (quote_plus v))

unfoldable pub more_pairs : String → List (String × String) → String
more_pairs first [] = first
more_pairs first (p ∷ ps) = join first (String.◌∷◌ "&" (more_pairs (pair p) ps))

unfoldable pub urlencode : List (String × String) → String
urlencode [] = ""
urlencode (p ∷ ps) = more_pairs (pair p) ps

encoded : urlencode (("a", "x y") ∷ ("b", "/é") ∷ []) ≡ "a=x+y&b=%2F%C3%A9"
unfolding urlencode more_pairs pair quote_plus quoted_char escaped_bytes utf8 join hex_digit
encoded = refl

-- How a value is read: text, or the two digits behind a percent sign.
pub data Digits : Type 0 where
  outside first_digit : Digits
  second_digit : ℕ → Digits

abbrev pub hex_value : ℕ → ℕ
hex_value c = if leb c b'9' then c - b'0' else c - b'A' + 10

unfoldable pub digits_step : Digits → ℕ → Digits
digits_step outside c = if c == b'%' then first_digit else outside
digits_step first_digit c = second_digit (hex_value c)
digits_step (second_digit h) c = outside

unfoldable pub digits_emit : Digits → ℕ → List ℕ → List ℕ
digits_emit outside c rest = if c == b'%' then rest else if c == b'+' then 32 ∷ rest else c ∷ rest
digits_emit first_digit c rest = rest
digits_emit (second_digit h) c rest = (16 * h + hex_value c) ∷ rest

-- The bytes that a server reads.
unfoldable pub unquote : Digits → String → List ℕ
unquote d String.[] = []
unquote d (String.◌∷◌ c s) = digits_emit d (code c) (unquote (digits_step d (code c)) s)

abbrev pub no_value : Option (String × String) → List ℕ × List ℕ
no_value none = ([], [])
no_value (some (k, v)) = (unquote outside k, unquote outside v)

unfoldable pub read_pair : String → List ℕ × List ℕ
read_pair s = no_value (split_once "=" s)

unfoldable pub read_query : String → List (List ℕ × List ℕ)
read_query s = map read_pair (split_on "&" s)

-- The codes of an ASCII text are its bytes.
unfoldable pub codes : String → List ℕ
codes String.[] = []
codes (String.◌∷◌ c s) = code c ∷ codes s

unfoldable pub is_ascii : String → Bool
is_ascii String.[] = true
is_ascii (String.◌∷◌ c s) = ltb (code c) 128 && is_ascii s
