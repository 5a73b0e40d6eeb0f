-- ===== src/Gateway/Tail/Found.antt =====
-- The pattern finds a report after anything.
use opendss_designer_cloud.Base.{
  ℕ, zero, suc, ◌-◌, ◌≤◌, ◌≡◌, refl, ap, ◌∙◌, Option, none, some, List, [], ◌∷◌, ◌++◌, ◌==◌, length,
  length-append, arith, Bool-cases, Option-cases, inl, inr,
}
use opendss_designer_cloud.Gateway.Body.{Bytes}
use opendss_designer_cloud.Gateway.Tail.{
  marker, strip_prefix, is_blank, is_numeral, skip_blanks, numeral, behind_numeral, matched,
  match_marked, match_here, find_all, last_of,
}

-- A report that begins with the marker, after anything.
module _ (more : Bytes) where
  abbrev report : Bytes
  report = marker ++ more

  -- No proper end of the marker begins a report.
  Refuses : Bytes → Type 0
  Refuses [] = Unit
  Refuses (p ∷ ps) = (strip_prefix (p ∷ ps) report ≡ none) × Refuses ps

  abbrev Behind : Bytes → Bytes → Type 0
  Behind front bs = (rest : Bytes) × (bs ≡ rest ++ report) × (length rest ≤ length front)

  strip_prefix-Behind :
      (ps front bs : Bytes)
      → Refuses ps
      → strip_prefix ps (front ++ report) ≡ some bs
      → Behind front bs
  unfolding Refuses strip_prefix
  strip_prefix-Behind [] front bs r h = (front, cc, omega arith)
  strip_prefix-Behind (p ∷ ps) [] bs r h = let e = r.0 in cc
  strip_prefix-Behind (p ∷ ps) (b ∷ front) bs r h = elim (Bool-cases (p == b)) [
    | inl e ↦
        let (rest, q, l) = strip_prefix-Behind ps front bs r.1 (ground arith) in
        (rest, q, omega (arith, l))
    | inr e ↦ let bad : ⊥ = ground arith in absurd bad
  ]

  skip_blanks-Behind : (front : Bytes) → Behind front (skip_blanks (front ++ report))
  unfolding skip_blanks
  skip_blanks-Behind [] = ([], refl, omega arith)
  skip_blanks-Behind (b ∷ front) = elim (Bool-cases (is_blank b)) [
    | inl e ↦ let (rest, q, l) = skip_blanks-Behind front in (rest, rw e q, omega (arith, l))
    | inr e ↦ (b ∷ front, rw e refl, omega arith)
  ]

  behind_numeral-Behind : (front : Bytes) → Behind front (behind_numeral (front ++ report))
  unfolding behind_numeral
  behind_numeral-Behind [] = ([], refl, omega arith)
  behind_numeral-Behind (b ∷ front) = elim (Bool-cases (is_numeral b)) [
    | inl e ↦ let (rest, q, l) = behind_numeral-Behind front in (rest, rw e q, omega (arith, l))
    | inr e ↦ (b ∷ front, rw e refl, omega arith)
  ]

  marker-Refuses : Refuses (
      b'e' ∷ b'n' ∷ b'g' ∷ b'i' ∷ b'n' ∷ b'e' ∷ b'S' ∷ b'e' ∷ b'c' ∷ b'o' ∷ b'n' ∷ b'd' ∷ b's'
      ∷ b'"' ∷ b':' ∷ [])
  unfolding Refuses strip_prefix
  marker-Refuses = (
    refl,
    (
      refl,
      (
        refl,
        (
          refl,
          (
            refl,
            (refl, (refl, (refl, (refl, (refl, (refl, (refl, (refl, (refl, (refl, tt)))))))))),
          ),
        ),
      ),
    ),
  )

  strip_marker-Behind :
      (b : ℕ) (front bs : Bytes)
      → strip_prefix marker (b ∷ (front ++ report)) ≡ some bs
      → Behind front bs
  unfolding strip_prefix
  strip_marker-Behind b front bs h = elim (Bool-cases (b'"' == b)) [
    | inl e ↦ strip_prefix-Behind _ front bs marker-Refuses (ground arith)
    | inr e ↦ let bad : ⊥ = ground arith in absurd bad
  ]

  matched-length :
      (whole : ℕ) (rest ds : Bytes) (m : Bytes × ℕ)
      → matched whole rest ds ≡ some m
      → m.1 ≡ whole - length (behind_numeral rest)
  unfolding matched
  matched-length whole rest [] m h = cc
  matched-length whole rest (d ∷ ds) m h = cc

  -- A match that begins before the report ends before it.
  match_marked-before :
      (b : ℕ) (front : Bytes) (m : Bytes × ℕ) (o : Option Bytes)
      → strip_prefix marker (b ∷ (front ++ report)) ≡ o
      → match_marked (length (b ∷ (front ++ report))) o ≡ some m
      → m.1 ≤ length (b ∷ front)
  unfolding match_marked
  match_marked-before b front m none s h = cc
  match_marked-before b front m (some bs) s h =
      let (r0, p0, l0) = strip_marker-Behind b front bs s in
      let (r1, p1, l1) = skip_blanks-Behind r0 in
      let (r2, p2, l2) = behind_numeral-Behind r1 in
      let whole = length (b ∷ (front ++ report)) in
      let behind : behind_numeral (skip_blanks bs) ≡ r2 ++ report = rw (p0, p1) p2 in
      let e = matched-length whole (skip_blanks bs) (numeral (skip_blanks bs)) m h in
      omega (
        arith,
        e,
        ap (λ x. length x) behind,
        length-append front report,
        length-append r2 report,
        l0,
        l1,
        l2,
      )

  match_here-before :
      (b : ℕ) (front : Bytes) (m : Bytes × ℕ)
      → match_here (b ∷ (front ++ report)) ≡ some m
      → m.1 ≤ length (b ∷ front)
  unfolding match_here
  match_here-before b front m h =
      match_marked-before b front m (strip_prefix marker (b ∷ (front ++ report))) refl h

  find_all-none :
      (b : ℕ) (bs : Bytes) → match_here (b ∷ bs) ≡ none → find_all 0 (b ∷ bs) ≡ find_all 0 bs
  unfolding find_all
  find_all-none b bs h = rw (h, find_all) refl

  find_all-some :
      (b : ℕ) (bs : Bytes) (m : Bytes × ℕ)
      → match_here (b ∷ bs) ≡ some m
      → find_all 0 (b ∷ bs) ≡ m.0 ∷ find_all (m.1 - 1) bs
  unfolding find_all
  find_all-some b bs m h = rw (h, find_all) refl

  last_of-more :
      (ds es : Bytes) (dss : List Bytes) → last_of dss ≡ some es → last_of (ds ∷ dss) ≡ some es
  unfolding last_of
  last_of-more ds es dss h = rw h refl

  pub find_all-report :
      (ds : Bytes) (n : ℕ) (front : Bytes)
      → find_all 0 report ≡ ds ∷ []
      → n ≤ length front
      → last_of (find_all n (front ++ report)) ≡ some ds
  unfolding find_all last_of
  find_all-report ds zero [] h l = rw h refl
  find_all-report ds (suc n) [] h l = absurd (omega (arith, l))
  find_all-report ds (suc n) (b ∷ front) h l = find_all-report ds n front h (omega (arith, l))
  find_all-report ds zero (b ∷ front) h l =
      elim (Option-cases (match_here (b ∷ (front ++ report)))) [
        | inl e ↦
            ap last_of (find_all-none b (front ++ report) e)
            ∙ find_all-report ds zero front h (omega arith)
        | inr (m, e) ↦
            ap last_of (find_all-some b (front ++ report) m e)
            ∙ last_of-more m.0 ds (find_all (m.1 - 1) (front ++ report)) (
                find_all-report ds (m.1 - 1) front h (omega (arith, match_here-before b front m e)))
      ]
