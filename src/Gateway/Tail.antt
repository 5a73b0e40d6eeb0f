-- ===== src/Gateway/Tail.antt =====
-- What `gen` of `_stream_call` in app.py keeps of a stream, and the engine seconds that it reads of that.
--
-- The pattern `"engineSeconds":\s*([0-9.]+)` is matched byte by byte. Blanks, digits and quotes are different, so
-- the greedy choice is the only one.
pub mod Kept
pub mod Found
pub mod Reports
use opendss_designer_cloud.Base.{
  ℕ, zero, suc, ◌+◌, ◌-◌, String, Bool, true, false, ◌&&◌, ◌||◌, Option, none, some, List, [], ◌∷◌,
  ◌++◌, ◌==◌, leb, if◌then◌else◌, length, ◌≡◌, refl,
}
use opendss_designer_cloud.Base.Text.Numbers.{is_digit}
use opendss_designer_cloud.Gateway.Body.{Bytes}

abbrev pub tail_limit : ℕ
tail_limit = 65536

unfoldable pub drop : {A : Type 0} → ℕ → List A → List A
drop zero xs = xs
drop (suc n) [] = []
drop (suc n) (x ∷ xs) = drop n xs

-- `xs[-n:]`, for an n that is not 0
unfoldable pub keep_last : {A : Type 0} → ℕ → List A → List A
keep_last n xs = drop (length xs - n) xs

-- The `async for` loop over the chunks, from the tail so far.
unfoldable pub relay : Bytes → List Bytes → Bytes
relay tail [] = tail
relay tail (chunk ∷ chunks) = relay (keep_last tail_limit (tail ++ chunk)) chunks

-- `"engineSeconds":`
abbrev pub marker : Bytes
marker =
    b'"' ∷ b'e' ∷ b'n' ∷ b'g' ∷ b'i' ∷ b'n' ∷ b'e' ∷ b'S' ∷ b'e' ∷ b'c' ∷ b'o' ∷ b'n' ∷ b'd' ∷ b's'
    ∷ b'"' ∷ b':' ∷ []

-- What is left behind a prefix.
unfoldable pub strip_prefix : Bytes → Bytes → Option Bytes
strip_prefix [] bs = some bs
strip_prefix (p ∷ ps) [] = none
strip_prefix (p ∷ ps) (b ∷ bs) = let rest = strip_prefix ps bs in if p == b then rest else none

-- `\s` and `[0-9.]` of bytes
abbrev pub is_blank : ℕ → Bool
is_blank b = (leb 9 b && leb b 13) || b == b' '

abbrev pub is_numeral : ℕ → Bool
is_numeral b = is_digit b || b == b'.'

unfoldable pub skip_blanks : Bytes → Bytes
skip_blanks [] = []
skip_blanks (b ∷ bs) = let rest = skip_blanks bs in if is_blank b then rest else b ∷ bs

-- The numeral at the front, and what is behind it.
unfoldable pub numeral : Bytes → Bytes
numeral [] = []
numeral (b ∷ bs) = let rest = numeral bs in if is_numeral b then b ∷ rest else []

unfoldable pub behind_numeral : Bytes → Bytes
behind_numeral [] = []
behind_numeral (b ∷ bs) = let rest = behind_numeral bs in if is_numeral b then rest else b ∷ bs

-- The group of the match and the length of the whole match.
unfoldable pub matched : ℕ → Bytes → Bytes → Option (Bytes × ℕ)
matched whole rest [] = none
matched whole rest (d ∷ ds) = some (d ∷ ds, whole - length (behind_numeral rest))

unfoldable pub match_marked : ℕ → Option Bytes → Option (Bytes × ℕ)
match_marked whole none = none
match_marked whole (some rest) = matched whole (skip_blanks rest) (numeral (skip_blanks rest))

unfoldable pub match_here : Bytes → Option (Bytes × ℕ)
match_here bs = match_marked (length bs) (strip_prefix marker bs)

-- `findall`: the first number counts the bytes of the last match that are still to come.
unfoldable pub find_all : ℕ → Bytes → List Bytes
find_all skip [] = []
find_all (suc n) (b ∷ bs) = find_all n bs
find_all zero (b ∷ bs) = elim (match_here (b ∷ bs)) [
  | none ↦ find_all zero bs
  | some m ↦ m.0 ∷ find_all (m.1 - 1) bs
]

-- `found[-1]`, where there is one
unfoldable pub last_of : List Bytes → Option Bytes
last_of [] = none
last_of (ds ∷ dss) = elim (last_of dss) [ none ↦ some ds | some es ↦ some es ]

abbrev parsed : (Bytes → Option ℕ) → Option Bytes → Option (Option ℕ)
parsed float none = none
parsed float (some ds) = some (float ds)

-- What the `finally` block reads; `float` is Python's, in milliseconds, with `none` for its `ValueError`.
unfoldable pub found_seconds : (Bytes → Option ℕ) → List Bytes → Option (Option ℕ)
found_seconds float chunks = parsed float (last_of (find_all zero (relay [] chunks)))
