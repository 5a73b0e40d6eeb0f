-- ===== src/Pages/Escape.antt =====
-- `html.escape` of a text, which pages.py calls `h`, and what a browser reads of it.
use Prim.Native.Char.{Char, code}
use text.Mathlib.TextEquality.{Char-path}
use opendss_designer_cloud.Base.{
  subst, same, ℕ, ◌≡◌, refl, ap, sym, ◌∙◌, String, Bool, true, false, not, ◌&&◌, ◌||◌, ◌==◌,
  if◌then◌else◌, arith, Bool-cases, inl, inr,
}
use opendss_designer_cloud.Base.Text.{join}

escape_char : Char → String
escape_char c =
    if code c == b'&'
    then "&amp;"
    else if code c == b'<'
    then "&lt;"
    else if code c == b'>'
    then "&gt;"
    else if code c == b'"'
    then "&quot;"
    else if code c == b'\''
    then "&#x27;"
    else String.◌∷◌ c ""

-- `h(s)`
unfoldable pub escape : String → String
unfolding escape_char
escape String.[] = ""
escape (String.◌∷◌ c s) = join (escape_char c) (escape s)

escaped :
    escape "<a href='x&y'>\"ok\"</a>" ≡ "&lt;a href=&#x27;x&amp;y&#x27;&gt;&quot;ok&quot;&lt;/a&gt;"
unfolding escape join
escaped = refl

-- The four characters that HTML reads as markup, or as the end of a quoted value.
abbrev pub is_special : ℕ → Bool
is_special c = c == b'<' || c == b'>' || c == b'"' || c == b'\''

unfoldable pub inert : String → Bool
inert String.[] = true
inert (String.◌∷◌ c s) = not (is_special (code c)) && inert s

pub inert-join : (s t : String) → inert s ≡ true → inert t ≡ true → inert (join s t) ≡ true
unfolding inert join
inert-join String.[] t h k = k
inert-join (String.◌∷◌ c s) t h k = ground (arith, inert-join s t)

-- What holds of the five characters and of every other one holds of every character.
each_char :
    (P : Char → Type 0)
    → P "&"
    → P "<"
    → P ">"
    → P "\""
    → P "'"
    → ((c : Char) → (code c == b'&') ≡ false → is_special (code c) ≡ false → P c)
    → (c : Char) → P c
each_char P amp lt gt quot apos other c = elim (Bool-cases (code c == b'&')) [
  | inl e ↦ at "&" (ground arith) amp
  | inr a ↦ elim (Bool-cases (code c == b'<')) [
    | inl e ↦ at "<" (ground arith) lt
    | inr l ↦ elim (Bool-cases (code c == b'>')) [
      | inl e ↦ at ">" (ground arith) gt
      | inr g ↦ elim (Bool-cases (code c == b'"')) [
        | inl e ↦ at "\"" (ground arith) quot
        | inr q ↦ elim (Bool-cases (code c == b'\'')) [
          | inl e ↦ at "'" (ground arith) apos
          | inr p ↦ other c a (ground arith)
        ]
      ]
    ]
  ]
]
  where
    at : (d : Char) → code c ≡ code d → P d → P c
    at d e h = subst P (sym (Char-path c d e)) h

escape_char-inert : (c : Char) → inert (escape_char c) ≡ true
unfolding inert escape_char
escape_char-inert =
    each_char (λ c. inert (escape_char c) ≡ true) refl refl refl refl refl (λ c a s. ground arith)

-- An escaped text has none of the four characters, whatever the text is.
pub escape-inert : (s : String) → inert (escape s) ≡ true
unfolding inert escape
escape-inert String.[] = refl
escape-inert (String.◌∷◌ c s) =
    inert-join (escape_char c) (escape s) (escape_char-inert c) (escape-inert s)

-- A browser's reading of the character references of HTML: `plain`, or after an ampersand with the name so
-- far. A name that it does not know stays as it is written.
data Reading : Type 0 where
  plain : Reading
  reference : String → Reading

step : Reading → Char → Reading
step plain c = if code c == b'&' then reference "" else plain
step (reference n) c = if code c == b';' then plain else reference (join n (String.◌∷◌ c ""))

named : String → String → String
named n rest =
    if same n "amp"
    then String.◌∷◌ "&" rest
    else if same n "lt"
    then String.◌∷◌ "<" rest
    else if same n "gt"
    then String.◌∷◌ ">" rest
    else if same n "quot"
    then String.◌∷◌ "\"" rest
    else if same n "#x27"
    then String.◌∷◌ "'" rest
    else String.◌∷◌ "&" (join n (String.◌∷◌ ";" rest))

emit : Reading → Char → String → String
emit plain c rest = if code c == b'&' then rest else String.◌∷◌ c rest
emit (reference n) c rest = if code c == b';' then named n rest else rest

read : Reading → String → String
unfolding step emit
read plain String.[] = ""
read (reference n) String.[] = String.◌∷◌ "&" n
read r (String.◌∷◌ c s) = emit r c (read (step r c) s)

pub unescape : String → String
unfolding read
unescape s = read plain s

read-escape_char :
    (c : Char) (t : String) → read plain (join (escape_char c) t) ≡ String.◌∷◌ c (read plain t)
unfolding read escape_char join step emit named same
read-escape_char =
    each_char
      (λ c. (t : String) → read plain (join (escape_char c) t) ≡ String.◌∷◌ c (read plain t))
      (λ t. refl) (λ t. refl) (λ t. refl) (λ t. refl) (λ t. refl) (λ c a s t. ground arith)

-- What a browser shows of an escaped text is the text.
pub unescape-escape : (s : String) → unescape (escape s) ≡ s
unfolding unescape escape read
unescape-escape String.[] = refl
unescape-escape (String.◌∷◌ c s) =
    read-escape_char c (escape s) ∙ ap (String.◌∷◌ c) (unescape-escape s)
