-- ===== src/Store/Users/Spent.antt =====
-- Magic links over time: what later links and later attempts, with what `issue_magic` deletes, leave of one nonce.
use opendss_designer_cloud.Base.{
  ℕ, ◌+◌, ◌≡◌, refl, String, Bool, true, false, not, inl, inr, none, some, List, [], ◌∷◌, arith,
  ltb, same, find?, select, update_where, Bool-cases, All, length, ◌==◌, subst, sym, is_some,
}
use opendss_designer_cloud.Base.Text.{lower}
use opendss_designer_cloud.Store.{MagicToken, Store, Result, ok, err}
use opendss_designer_cloud.Store.Users.{issue_magic, consume_magic, is_nonce, is_unused, day}
use opendss_designer_cloud.Store.Users.Magic.{
  select-none, find?-select, find?-used, issued, issued_once,
}

-- A call of `issue_magic` or `consume_magic`, with its time, nonce and email; a call that raises leaves the store
-- as it was.
pub data MagicCall : Type 0 where
  issues consumes : ℕ → String → String → MagicCall

abbrev or_before : Store → Result Store → Store
or_before s (err e) = s
or_before s (ok t) = t

unfoldable pub magic_step : Store → MagicCall → Store
magic_step s (issues now nonce email) = or_before s (issue_magic s now nonce email)
magic_step s (consumes now nonce email) = (consume_magic s now nonce email).1

unfoldable pub magic_run : Store → List MagicCall → Store
magic_run s [] = s
magic_run s (c ∷ cs) = magic_run (magic_step s c) cs

-- The call does not issue the nonce.
unfoldable pub issues_other : String → MagicCall → Bool
issues_other n (issues now nonce email) = not (same nonce n)
issues_other n (consumes now nonce email) = true

module _ (n : String) where
  -- At most one row has the nonce.
  Single : List MagicToken → Type 0
  Single [] = Unit
  Single (t ∷ ts) = (is_nonce n t ≡ true → find? (is_nonce n) ts ≡ none) × Single ts

  -- No row with the nonce is unused.
  Spent : List MagicToken → Type 0
  Spent ts = (e : String) → select (is_unused n e) ts ≡ []

  Single-none : (ts : List MagicToken) → find? (is_nonce n) ts ≡ none → Single ts
  unfolding Single
  Single-none [] h = tt
  Single-none (t ∷ ts) h = (λ e. ground arith, Single-none ts (ground arith))

  Single-row :
      (row : MagicToken) (rest : List MagicToken)
      → find? (is_nonce n) rest ≡ none
      → Single (row ∷ rest)
  unfolding Single
  Single-row row rest f = (λ e. f, Single-none rest f)

  Single-select : (p : MagicToken → Bool) (ts : List MagicToken) → Single ts → Single (select p ts)
  unfolding Single
  Single-select p [] v = tt
  Single-select p (t ∷ ts) v = elim (Bool-cases (p t)) [
    | inl e ↦ rw (e, Single) (λ h. find?-select n p ts (v.0 h), Single-select p ts v.1)
    | inr e ↦ rw e (Single-select p ts v.1)
  ]

  Single-used :
      (p : MagicToken → Bool) (now : ℕ) (ts : List MagicToken)
      → Single ts
      → Single (update_where p (λ t. record t { used = some now }) ts)
  unfolding Single
  Single-used p now [] v = tt
  Single-used p now (t ∷ ts) v = elim (Bool-cases (p t)) [
    | inl e ↦ rw (e, Single) (λ h. find?-used n p now ts (v.0 h), Single-used p now ts v.1)
    | inr e ↦ rw (e, Single) (λ h. find?-used n p now ts (v.0 h), Single-used p now ts v.1)
  ]

  Spent-select :
      (p : MagicToken → Bool) (e : String) (ts : List MagicToken)
      → select (is_unused n e) ts ≡ []
      → select (is_unused n e) (select p ts) ≡ []
  Spent-select p e [] h = refl
  Spent-select p e (t ∷ ts) h = ground (arith, Spent-select p e ts)

  Spent-used :
      (p : MagicToken → Bool) (now : ℕ) (e : String) (ts : List MagicToken)
      → select (is_unused n e) ts ≡ []
      → select (is_unused n e) (update_where p (λ t. record t { used = some now }) ts) ≡ []
  Spent-used p now e [] h = refl
  Spent-used p now e (t ∷ ts) h = ground (arith, Spent-used p now e ts)

  -- Once the row was met, it is spent.
  met-Spent :
      (e f : String) (now : ℕ) (ts : List MagicToken)
      → Single ts
      → (length (select (is_unused n e) ts) == 1) ≡ true
      → select (is_unused n f) (update_where (is_unused n e) (λ t. record t { used = some now }) ts)
        ≡ []
  unfolding Single
  met-Spent e f now [] v h = refl
  met-Spent e f now (t ∷ ts) v h = elim (Bool-cases (is_nonce n t)) [
    | inl q ↦ ground (
      arith,
      select-none n e ts (v.0 q),
      select-none n f (update_where (is_unused n e) (λ t. record t { used = some now }) ts)
          (find?-used n (is_unused n e) now ts (v.0 q)),
    )
    | inr q ↦ ground (arith, met-Spent e f now ts v.1)
  ]

  module _ (s : Store) (now : ℕ) (nonce email : String) (other : not (same nonce n) ≡ true) where
    issues-Single :
        Single s.magic_tokens → Single (or_before s (issue_magic s now nonce email)).magic_tokens
    unfolding issue_magic Single
    issues-Single v = elim (Bool-cases (is_some (find? (is_nonce nonce) s.magic_tokens))) [
      | inl e ↦ rw e v
      | inr e ↦ rw e (
          Single-select (λ t. not (ltb (t.created + day) now))
            (record { nonce = nonce; email = lower email; created = now; used = none }
              ∷ s.magic_tokens)
            (λ h. absurd (ground arith), v))
    ]

    issues-Spent :
        Spent s.magic_tokens → Spent (or_before s (issue_magic s now nonce email)).magic_tokens
    unfolding issue_magic Spent
    issues-Spent v f = elim (Bool-cases (is_some (find? (is_nonce nonce) s.magic_tokens))) [
      | inl e ↦ rw e (v f)
      | inr e ↦ rw e (
          Spent-select (λ t. not (ltb (t.created + day) now)) f
            (record { nonce = nonce; email = lower email; created = now; used = none }
              ∷ s.magic_tokens)
            (ground (arith, v f)))
    ]

  step-Single :
      (s : Store) (c : MagicCall)
      → issues_other n c ≡ true
      → Single s.magic_tokens
      → Single (magic_step s c).magic_tokens
  unfolding magic_step issues_other consume_magic
  step-Single s (consumes now nonce email) o v =
      Single-used (is_unused nonce (lower email)) now s.magic_tokens v
  step-Single s (issues now nonce email) o v = issues-Single s now nonce email o v

  step-Spent :
      (s : Store) (c : MagicCall)
      → issues_other n c ≡ true
      → Spent s.magic_tokens
      → Spent (magic_step s c).magic_tokens
  unfolding magic_step issues_other consume_magic Spent
  step-Spent s (consumes now nonce email) o v =
      λ f. Spent-used (is_unused nonce (lower email)) now f s.magic_tokens (v f)
  step-Spent s (issues now nonce email) o v = issues-Spent s now nonce email o v

  run-Single :
      (s : Store) (cs : List MagicCall)
      → All (λ c. issues_other n c ≡ true) cs
      → Single s.magic_tokens
      → Single (magic_run s cs).magic_tokens
  unfolding magic_run
  run-Single s [] a v = v
  run-Single s (c ∷ cs) a v = run-Single (magic_step s c) cs a.1 (step-Single s c a.0 v)

  run-Spent :
      (s : Store) (cs : List MagicCall)
      → All (λ c. issues_other n c ≡ true) cs
      → Spent s.magic_tokens
      → Spent (magic_run s cs).magic_tokens
  unfolding magic_run
  run-Spent s [] a v = v
  run-Spent s (c ∷ cs) a v = run-Spent (magic_step s c) cs a.1 (step-Spent s c a.0 v)

  consumed-Spent :
      (s : Store) (now : ℕ) (email : String)
      → Single s.magic_tokens
      → (consume_magic s now n email).0 ≡ true
      → Spent (consume_magic s now n email).1.magic_tokens
  unfolding consume_magic Spent
  consumed-Spent s now email v h f = met-Spent (lower email) f now s.magic_tokens v h

  Spent-refused :
      (s : Store) (now : ℕ) (email : String)
      → Spent s.magic_tokens
      → (consume_magic s now n email).0 ≡ false
  unfolding consume_magic Spent
  Spent-refused s now email v = rw (v (lower email)) refl

-- A nonce that was just issued is consumed by exactly the email that it was issued to (up to case). Whatever
-- links are issued and tried between, deleting what is older than a day: once the nonce was consumed, by
-- whatever email and at whatever time, no later attempt consumes it, unless the same nonce is issued anew.
pub magic_once :
    (s t : Store) (now later last : ℕ) (nonce email other another : String)
    (before after : List MagicCall)
    → issue_magic s now nonce email ≡ ok t
    → All (λ c. issues_other nonce c ≡ true) before
    → All (λ c. issues_other nonce c ≡ true) after
    → let (hit, r) = consume_magic (magic_run t before) later nonce other in
      ((consume_magic t later nonce other).0 ≡ same (lower email) (lower other))
      × (hit ≡ true → (consume_magic (magic_run r after) last nonce another).0 ≡ false)
magic_once s t now later last nonce email other another before after h b a =
    let (rest, e, f) = issued s t now nonce email h in
    let single : Single nonce t.magic_tokens = subst (Single nonce) (sym e) (
      Single-row nonce (record { nonce = nonce; email = lower email; created = now; used = none })
        rest f) in
    let met = magic_run t before in
    (
      (issued_once s t now later last nonce email other another h).0,
      λ hit.
          Spent-refused nonce (magic_run (consume_magic met later nonce other).1 after) last another
            (run-Spent nonce (consume_magic met later nonce other).1 after a
              (consumed-Spent nonce met later other (run-Single nonce t before b single) hit)),
    )
