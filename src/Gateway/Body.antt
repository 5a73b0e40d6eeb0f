-- ===== src/Gateway/Body.antt =====
-- `_read_body` of app.py: a request's body, read chunk by chunk up to the limit.
use mathlib.Core.List.{append-nil, append_assoc}
use opendss_designer_cloud.Base.{
  ◌∙◌, ap, Bool-cases, ℕ, ◌+◌, ◌≤◌, ◌≡◌, refl, Bool, true, false, ◌&&◌, Option, none, some, List,
  [], ◌∷◌, ◌++◌, ltb, leb, if◌then◌else◌, length, length-append, arith, inl, inr,
}

abbrev pub Bytes : Type 0
Bytes = List ℕ

abbrev pub max_body_bytes : ℕ
max_body_bytes = 12582912

-- The `async for` loop: the bytes seen so far, the chunks joined so far, the chunks to come.
unfoldable pub read_chunks : ℕ → Bytes → List Bytes → Option Bytes
read_chunks seen body [] = some body
read_chunks seen body (chunk ∷ chunks) =
    let rest = read_chunks (seen + length chunk) (body ++ chunk) chunks in
    if ltb max_body_bytes (seen + length chunk) then none else rest

-- `none` is `_BodyTooLarge`. `declared` is the number in `content-length`, if there is one.
unfoldable pub read_body : Option ℕ → List Bytes → Option Bytes
read_body none chunks = read_chunks 0 [] chunks
read_body (some n) chunks = if ltb max_body_bytes n then none else read_chunks 0 [] chunks

unfoldable pub concat : List Bytes → Bytes
concat [] = []
concat (chunk ∷ chunks) = chunk ++ concat chunks

-- What the limit promises, of the whole body.
unfoldable pub fits : Option ℕ → List Bytes → Bool
fits none chunks = leb (length (concat chunks)) max_body_bytes
fits (some n) chunks = leb n max_body_bytes && leb (length (concat chunks)) max_body_bytes

abbrev within : ℕ → Bytes → Option Bytes
within n body = if leb n max_body_bytes then some body else none

-- The loop from any point at which the limit has not been passed.
read_chunks_lem :
    (seen : ℕ) (body : Bytes) (chunks : List Bytes)
    → seen ≤ max_body_bytes
    → read_chunks seen body chunks ≡ within (seen + length (concat chunks)) (body ++ concat chunks)
unfolding read_chunks concat
read_chunks_lem seen body [] h = rw (append-nil body, all) refl
  where
    all : leb (seen + 0) max_body_bytes ≡ true
    all = ground arith
read_chunks_lem seen body (chunk ∷ chunks) h =
    elim (Bool-cases (ltb max_body_bytes (seen + length chunk))) [
      | inl e ↦ rw (e, past e)
      | inr e ↦ rw e (
          read_chunks_lem (seen + length chunk) (body ++ chunk) chunks (ground arith)
          ∙ rw (append_assoc body chunk (concat chunks), sums))
    ]
  where
    sums : (seen + length chunk) + length (concat chunks) ≡ seen + length (chunk ++ concat chunks)
    sums = omega (arith, length-append chunk (concat chunks))

    past :
        ltb max_body_bytes (seen + length chunk) ≡ true
        → leb (seen + length (chunk ++ concat chunks)) max_body_bytes ≡ false
    past e = ground (arith, length-append chunk (concat chunks))

whole :
    (chunks : List Bytes)
    → read_chunks 0 [] chunks ≡ within (length (concat chunks)) (concat chunks)
whole chunks =
    read_chunks_lem 0 [] chunks (omega arith) ∙ ap (λ n. within n (concat chunks)) (omega arith)

-- Reading chunk by chunk gives the whole body where the declared length, if there is one, and the
-- length of the body are within the limit, and is refused in every other case, however
-- the body is cut into chunks.
pub read_body-fits :
    (declared : Option ℕ) (chunks : List Bytes)
    → read_body declared chunks ≡ (if fits declared chunks then some (concat chunks) else none)
unfolding read_body fits
read_body-fits none chunks = whole chunks
read_body-fits (some n) chunks = ground (arith, whole chunks)
