-- ===== src/Base/Text/Query/Reads.antt =====
-- A server reads of a query what `urlencode` was given, where the texts are ASCII.
use Prim.Native.Nat.{ℕ, zero, suc, ◌/◌, ◌%◌, ◌<◌}
use Prim.Native.Char.{Char, code}
use Prim.Native.String.{String}
use mathlib.Core.Path.{◌≡◌, refl, ap, ◌∙◌}
use mathlib.Core.Bool.{Bool, true, false, not, ◌&&◌, ◌||◌}
use mathlib.Core.Logic.{inl, inr}
use mathlib.Core.List.{List, [], ◌∷◌, map}
use native.Mathlib.Omega.{arith}
use opendss_designer_cloud.Base.Tests.{◌==◌, Bool-cases}
use opendss_designer_cloud.Base.Text.{join}
use opendss_designer_cloud.Base.Text.Split.{
  is_free, is_free-join, split_on-join, split_on-free, split_once-join,
}
use opendss_designer_cloud.Base.Text.Query.{
  is_unreserved, utf8, hex_digit, escaped_bytes, quoted_char, quote_plus, pair, more_pairs,
  urlencode, outside, hex_value, digits_step, digits_emit, unquote, read_pair, read_query, codes,
  is_ascii,
}

-- The two digits of a byte: checked one by one.
hex_right : ℕ → Bool
hex_right zero = true
hex_right (suc d) =
    hex_value (code (hex_digit d)) == d
    && (not (code (hex_digit d) == b'&') && (not (code (hex_digit d) == b'=') && hex_right d))

hex_right_16 : hex_right 16 ≡ true
unfolding hex_right hex_digit
hex_right_16 = refl

hex_digit-below :
    (n d : ℕ)
    → hex_right n ≡ true
    → d < n
    → (hex_value (code (hex_digit d)) ≡ d)
      × ((code (hex_digit d) == b'&') ≡ false)
      × ((code (hex_digit d) == b'=') ≡ false)
unfolding hex_right
hex_digit-below zero d h b = elim b [ ]
hex_digit-below (suc n) d h b = elim (Bool-cases (d == n)) [
  | inl e ↦ let p : d ≡ n = ground arith in rw p (ground arith, ground arith, ground arith)
  | inr e ↦ hex_digit-below n d (ground arith) (ground arith)
]

hex_digit-right :
    (d : ℕ)
    → d < 16
    → (hex_value (code (hex_digit d)) ≡ d)
      × ((code (hex_digit d) == b'&') ≡ false)
      × ((code (hex_digit d) == b'=') ≡ false)
hex_digit-right d b = hex_digit-below 16 d hex_right_16 b

utf8-ascii : (c : ℕ) → c < 128 → utf8 c ≡ c ∷ []
unfolding utf8
utf8-ascii c h = ground arith

unquote-escaped :
    (b : ℕ) (t : String)
    → b < 256
    → unquote outside (join (escaped_bytes (b ∷ [])) t) ≡ b ∷ unquote outside t
unfolding unquote escaped_bytes join digits_emit digits_step
unquote-escaped b t h =
    let (p, _, _) = hex_digit-right (b / 16) (omega arith) in
    let (q, _, _) = hex_digit-right (b % 16) (omega arith) in
    ap (λ n. n ∷ unquote outside t) (rw (p, q) (omega arith))

-- The three ways of a character.
quoted_char-unreserved :
    (c : Char) → is_unreserved (code c) ≡ true → quoted_char c ≡ String.◌∷◌ c ""
unfolding quoted_char
quoted_char-unreserved c u = rw u refl

quoted_char-space :
    (c : Char) → is_unreserved (code c) ≡ false → (code c == b' ') ≡ true → quoted_char c ≡ "+"
unfolding quoted_char
quoted_char-space c u e = rw (u, e) refl

quoted_char-escaped :
    (c : Char)
    → is_unreserved (code c) ≡ false
    → (code c == b' ') ≡ false
    → code c < 128
    → quoted_char c ≡ escaped_bytes (code c ∷ [])
unfolding quoted_char
quoted_char-escaped c u e h = rw (u, e, utf8-ascii (code c) h) refl

unquote-quoted_char :
    (c : Char) (t : String)
    → code c < 128
    → unquote outside (join (quoted_char c) t) ≡ code c ∷ unquote outside t
unfolding unquote join digits_emit digits_step
unquote-quoted_char c t h = elim (Bool-cases (is_unreserved (code c))) [
  | inl u ↦ rw (quoted_char-unreserved c u) (ground arith)
  | inr u ↦ elim (Bool-cases (code c == b' ')) [
    | inl e ↦ rw (quoted_char-space c u e) (ap (λ n. n ∷ unquote outside t) (ground arith))
    | inr e ↦ rw (quoted_char-escaped c u e h) (unquote-escaped (code c) t (omega arith))
  ]
]

unquote-quote_plus : (s : String) → is_ascii s ≡ true → unquote outside (quote_plus s) ≡ codes s
unfolding quote_plus codes is_ascii unquote
unquote-quote_plus String.[] h = refl
unquote-quote_plus (String.◌∷◌ c s) h =
    unquote-quoted_char c (quote_plus s) (ground arith)
    ∙ ap (λ bs. code c ∷ bs) (unquote-quote_plus s (ground arith))

-- The characters between the values and between the pairs.
abbrev is_separator : Char → Bool
is_separator c = code c == b'&' || code c == b'='

quoted_char-is_free :
    (sep c : Char) → is_separator sep ≡ true → code c < 128 → is_free sep (quoted_char c) ≡ true
unfolding is_free escaped_bytes
quoted_char-is_free sep c e h =
    let (_, a, b) = hex_digit-right (code c / 16) (omega arith) in
    let (_, d, f) = hex_digit-right (code c % 16) (omega arith) in
    elim (Bool-cases (is_unreserved (code c))) [
      | inl u ↦ rw (quoted_char-unreserved c u) (ground arith)
      | inr u ↦ elim (Bool-cases (code c == b' ')) [
        | inl s ↦ rw (quoted_char-space c u s) (ground arith)
        | inr s ↦ rw (quoted_char-escaped c u s h) (ground arith)
      ]
    ]

quote_plus-is_free :
    (sep : Char) (s : String)
    → is_separator sep ≡ true
    → is_ascii s ≡ true
    → is_free sep (quote_plus s) ≡ true
unfolding quote_plus is_ascii is_free
quote_plus-is_free sep String.[] e h = refl
quote_plus-is_free sep (String.◌∷◌ c s) e h =
    is_free-join sep (quoted_char c) (quote_plus s) (quoted_char-is_free sep c e (ground arith))
      (quote_plus-is_free sep s e (ground arith))

unfoldable pub all_ascii : List (String × String) → Bool
all_ascii [] = true
all_ascii ((k, v) ∷ ps) = is_ascii k && (is_ascii v && all_ascii ps)

unfoldable pub bytes_of : String × String → List ℕ × List ℕ
bytes_of (k, v) = (codes k, codes v)

read_pair-pair :
    (k v : String)
    → is_ascii k ≡ true
    → is_ascii v ≡ true
    → read_pair (pair (k, v)) ≡ (codes k, codes v)
unfolding read_pair pair
read_pair-pair k v h g =
    rw
      (
        split_once-join "=" (quote_plus k) (quote_plus v) (quote_plus-is_free "=" k refl h),
        unquote-quote_plus k h,
        unquote-quote_plus v g,
      )
      refl

pair-is_free :
    (k v : String) → is_ascii k ≡ true → is_ascii v ≡ true → is_free "&" (pair (k, v)) ≡ true
unfolding pair is_free
pair-is_free k v h g =
    is_free-join "&" (quote_plus k) (String.◌∷◌ "=" (quote_plus v))
      (quote_plus-is_free "&" k refl h) (quote_plus-is_free "&" v refl g)

read_query-more_pairs :
    (k v : String) (ps : List (String × String))
    → is_ascii k ≡ true
    → is_ascii v ≡ true
    → all_ascii ps ≡ true
    → read_query (more_pairs (pair (k, v)) ps) ≡ (codes k, codes v) ∷ map bytes_of ps
unfolding read_query more_pairs all_ascii bytes_of
read_query-more_pairs k v [] h g a =
    rw (split_on-free "&" (pair (k, v)) (pair-is_free k v h g), read_pair-pair k v h g) refl
read_query-more_pairs k v ((j, w) ∷ ps) h g a =
    rw
      (
        split_on-join "&" (pair (k, v)) (more_pairs (pair (j, w)) ps) (pair-is_free k v h g),
        read_pair-pair k v h g,
      )
      (ap (λ r. (codes k, codes v) ∷ r)
        (read_query-more_pairs j w ps (ground arith) (ground arith) (ground arith)))

pub read_query-urlencode :
    (p : String × String) (ps : List (String × String))
    → all_ascii (p ∷ ps) ≡ true
    → read_query (urlencode (p ∷ ps)) ≡ map bytes_of (p ∷ ps)
unfolding urlencode all_ascii bytes_of
read_query-urlencode (k, v) ps a =
    read_query-more_pairs k v ps (ground arith) (ground arith) (ground arith)
