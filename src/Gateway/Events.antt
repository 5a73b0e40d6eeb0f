-- ===== src/Gateway/Events.antt =====
-- `_sse_error` of app.py: an error as one event of a stream, with Python's `json.dumps` of a text.
use Prim.Native.Nat.{compare, Ordering}
use Prim.Native.Char.{Char, char, code, IsLt}
use opendss_designer_cloud.Base.{
  ℕ, zero, suc, ◌+◌, ◌-◌, ◌/◌, ◌%◌, ◌<◌, ◌≡◌, refl, String, Bool, true, false, not, ◌&&◌, [], ◌∷◌,
  ◌==◌, ltb, leb, if◌then◌else◌, arith, Bool-cases, inl, inr,
}
use opendss_designer_cloud.Base.Text.{join}
use opendss_designer_cloud.Base.Text.Split.{split_on, is_free, is_free-join, split_on-join}
use Prim.Native.String.{char_at}

low_hex : ℕ → Char
low_hex d = char_at "0123456789abcdef" d

-- `\uXXXX` of a UTF-16 unit
unit : ℕ → String
unfolding low_hex
unit n = String.◌∷◌ "\\" (
    String.◌∷◌ "u" (
      String.◌∷◌ (low_hex (n / 4096)) (
        String.◌∷◌ (low_hex (n / 256 % 16))
          (String.◌∷◌ (low_hex (n / 16 % 16)) (String.◌∷◌ (low_hex (n % 16)) "")))))

-- One unit, or two above 65535.
unfoldable pub units : ℕ → String
unfolding unit
units n =
    if ltb n 65536
    then unit n
    else join (unit (55296 + (n - 65536) / 1024)) (unit (56320 + (n - 65536) % 1024))

-- The escapes of `ensure_ascii`: a short one, or the units of a character that is not printable ASCII.
unfoldable pub json_char : Char → String
json_char c =
    if code c == b'"'
    then "\\\""
    else if code c == b'\\'
    then "\\\\"
    else if leb b' ' (code c) && leb (code c) b'~'
    then String.◌∷◌ c ""
    else if code c == 10
    then "\\n"
    else if code c == 13
    then "\\r"
    else if code c == 9
    then "\\t"
    else if code c == 12
    then "\\f"
    else if code c == 8
    then "\\b"
    else units (code c)

unfoldable pub json_body : String → String
json_body String.[] = ""
json_body (String.◌∷◌ c s) = join (json_char c) (json_body s)

-- The line of the event, before the two line feeds that end it.
unfoldable pub error_line : String → String
error_line message =
    join "data: {\"type\": \"error\", \"message\": \"" (join (json_body message) "\"}")

unfoldable pub sse_error : String → String
sse_error message = join (error_line message) "\n\n"

sample :
    sse_error "a\nb \"é\""
    ≡ "data: {\"type\": \"error\", \"message\": \"a\\nb \\\"\\u00e9\\\"\"}\n\n"
unfolding sse_error error_line json_body json_char units join unit low_hex
sample = refl

-- The digits are no line feeds: checked one by one.
all_free : ℕ → Bool
all_free zero = true
all_free (suc d) = not (code (low_hex d) == 10) && all_free d

all_free_16 : all_free 16 ≡ true
unfolding all_free low_hex
all_free_16 = refl

low_hex-below : (n d : ℕ) → all_free n ≡ true → d < n → (code (low_hex d) == 10) ≡ false
unfolding all_free
low_hex-below zero d h b = elim b [ ]
low_hex-below (suc n) d h b = elim (Bool-cases (d == n)) [
  | inl e ↦ let p : d ≡ n = ground arith in rw p (ground arith)
  | inr e ↦ low_hex-below n d (ground arith) (ground arith)
]

low_hex-free : (d : ℕ) → d < 16 → (code (low_hex d) == 10) ≡ false
low_hex-free d h = low_hex-below 16 d all_free_16 h

unit-free : (n : ℕ) → n < 65536 → is_free "\n" (unit n) ≡ true
unfolding unit is_free
unit-free n h = ground (
  arith,
  low_hex-free (n / 4096) (omega (arith, h)),
  low_hex-free (n / 256 % 16) (omega arith),
  low_hex-free (n / 16 % 16) (omega arith),
  low_hex-free (n % 16) (omega arith),
)

-- The three comparisons that make a number a character, in the words of `Prim.Native.Char.IsScalar`.
abbrev SecondPair : Ordering → Ordering → Type 0
SecondPair Ordering.lt c = IsLt c
SecondPair Ordering.eq _ = ⊥
SecondPair Ordering.gt _ = ⊥

abbrev Scalar : Ordering → Ordering → Ordering → Type 0
Scalar Ordering.lt _ _ = Unit
Scalar Ordering.eq b c = SecondPair b c
Scalar Ordering.gt b c = SecondPair b c

compare-below : (m n : ℕ) → compare m n ≡ Ordering.lt → m < n
compare-below m n e = let h : ltb m n ≡ true = rw (e, ltb) refl in ground arith

Scalar-below :
    (n : ℕ) (a b c : Ordering)
    → compare n 55296 ≡ a
    → compare n 1114112 ≡ c
    → Scalar a b c
    → n < 1114112
Scalar-below n Ordering.lt b c e g p = omega (arith, compare-below n 55296 e)
Scalar-below n Ordering.eq Ordering.lt Ordering.lt e g p = compare-below n 1114112 g
Scalar-below n Ordering.gt Ordering.lt Ordering.lt e g p = compare-below n 1114112 g
Scalar-below n Ordering.eq Ordering.lt Ordering.eq e g p = elim p [ ]
Scalar-below n Ordering.eq Ordering.lt Ordering.gt e g p = elim p [ ]
Scalar-below n Ordering.eq Ordering.eq c e g p = elim p [ ]
Scalar-below n Ordering.eq Ordering.gt c e g p = elim p [ ]
Scalar-below n Ordering.gt Ordering.lt Ordering.eq e g p = elim p [ ]
Scalar-below n Ordering.gt Ordering.lt Ordering.gt e g p = elim p [ ]
Scalar-below n Ordering.gt Ordering.eq c e g p = elim p [ ]
Scalar-below n Ordering.gt Ordering.gt c e g p = elim p [ ]

code-below : (c : Char) → code c < 1114112
code-below (char n p) =
    Scalar-below n (compare n 55296) (compare 57343 n) (compare n 1114112) refl refl p

-- The choices of `json_char`, by their tests.
choice-free :
    (b : Bool) (s t : String)
    → (b ≡ true → is_free "\n" s ≡ true)
    → (b ≡ false → is_free "\n" t ≡ true)
    → is_free "\n" (if b then s else t) ≡ true
choice-free true s t h k = h refl
choice-free false s t h k = k refl

units-free : (n : ℕ) → n < 1114112 → is_free "\n" (units n) ≡ true
unfolding units
units-free n h =
    choice-free (ltb n 65536) _ _ (λ e. unit-free n (ground arith))
      (λ e.
        is_free-join "\n" (unit (55296 + (n - 65536) / 1024)) (unit (56320 + (n - 65536) % 1024))
          (unit-free (55296 + (n - 65536) / 1024) (omega (arith, h)))
          (unit-free (56320 + (n - 65536) % 1024) (omega arith)))

plain-free :
    (c : Char)
    → (leb b' ' (code c) && leb (code c) b'~') ≡ true
    → is_free "\n" (String.◌∷◌ c "") ≡ true
unfolding is_free
plain-free c h = ground arith

json_char-free : (c : Char) → is_free "\n" (json_char c) ≡ true
unfolding json_char is_free
json_char-free c =
    choice-free (code c == b'"') _ _ (λ e. refl)
      (λ _.
        choice-free (code c == b'\\') _ _ (λ e. refl)
          (λ _. choice-free (leb b' ' (code c) && leb (code c) b'~') _ _ (plain-free c) (λ _.
            choice-free (code c == 10) _ _ (λ e. refl)
              (λ _.
                choice-free (code c == 13) _ _ (λ e. refl)
                  (λ _.
                    choice-free (code c == 9) _ _ (λ e. refl)
                      (λ _.
                        choice-free (code c == 12) _ _ (λ e. refl)
                          (λ _.
                            choice-free (code c == 8) _ _ (λ e. refl)
                              (λ _. units-free (code c) (code-below c)))))))))

json_body-free : (s : String) → is_free "\n" (json_body s) ≡ true
unfolding json_body is_free
json_body-free String.[] = refl
json_body-free (String.◌∷◌ c s) =
    is_free-join "\n" (json_char c) (json_body s) (json_char-free c) (json_body-free s)

error_line-free : (message : String) → is_free "\n" (error_line message) ≡ true
unfolding error_line is_free
error_line-free message =
    is_free-join "\n" "data: {\"type\": \"error\", \"message\": \"" (join (json_body message) "\"}")
      refl (is_free-join "\n" (json_body message) "\"}" (json_body-free message) refl)

-- Whatever the message is, also one that a worker sent, it is one event: one line of data and the empty line
-- that ends it.
pub sse_error-split :
    (message : String) → split_on "\n" (sse_error message) ≡ error_line message ∷ "" ∷ "" ∷ []
unfolding sse_error split_on
sse_error-split message = split_on-join "\n" (error_line message) "\n" (error_line-free message)
