-- ===== src/Store/Users/Magic.antt =====
-- Magic links: a nonce signs in once, and only the email that it was issued to.
use opendss_designer_cloud.Base.{
  ℕ, ◌+◌, ◌≡◌, refl, String, Bool, true, false, not, inl, inr, none, some, List, [], ◌∷◌, arith,
  ltb, same, same_refl, find?, select, update_where, Option-cases, Bool-cases, subst,
}
use opendss_designer_cloud.Base.Text.{lower}
use opendss_designer_cloud.Store.{MagicToken, Store, ok}
use opendss_designer_cloud.Store.Users.Valid.{IsValid, IsMagic}
use opendss_designer_cloud.Store.Users.{issue_magic, consume_magic, is_nonce, is_unused, day}

-- Rows of other nonces are neither met nor kept from being other rows.
module _ (n : String) where
  pub select-none :
      (e : String) (ts : List MagicToken)
      → find? (is_nonce n) ts ≡ none
      → select (is_unused n e) ts ≡ []
  select-none e [] h = refl
  select-none e (t ∷ ts) h = ground (arith, select-none e ts)

  pub find?-select :
      (p : MagicToken → Bool) (ts : List MagicToken)
      → find? (is_nonce n) ts ≡ none
      → find? (is_nonce n) (select p ts) ≡ none
  find?-select p [] h = refl
  find?-select p (t ∷ ts) h = ground (arith, find?-select p ts)

  pub find?-used :
      (p : MagicToken → Bool) (now : ℕ) (ts : List MagicToken)
      → find? (is_nonce n) ts ≡ none
      → find? (is_nonce n) (update_where p (λ t. record t { used = some now }) ts) ≡ none
  find?-used p now [] h = refl
  find?-used p now (t ∷ ts) h = ground (arith, find?-used p now ts)

-- The row that `issue_magic` adds stays in the table, and no other row has its nonce.
pub issued :
    (s t : Store) (now : ℕ) (nonce email : String)
    → issue_magic s now nonce email ≡ ok t
    → (rest : List MagicToken) × (t.magic_tokens
        ≡ record { nonce = nonce; email = lower email; created = now; used = none } ∷ rest)
      × (find? (is_nonce nonce) rest ≡ none)
unfolding issue_magic
issued s t now nonce email h = elim (Option-cases (find? (is_nonce nonce) s.magic_tokens)) [
  | inl e ↦
      let keep = λ (t : MagicToken). not (ltb (t.created + day) now) in
      (select keep s.magic_tokens, ground arith, find?-select nonce keep s.magic_tokens e)
  | inr (x, e) ↦ absurd (ground arith)
]

-- A nonce that was just issued is consumed by exactly the email that it was issued to (up to case), and not a
-- second time right after that.
pub issued_once :
    (s t : Store) (now later last : ℕ) (nonce email other another : String)
    → issue_magic s now nonce email ≡ ok t
    → let (hit, r) = consume_magic t later nonce other in
      (hit ≡ same (lower email) (lower other))
      × (hit ≡ true → (consume_magic r last nonce another).0 ≡ false)
unfolding consume_magic
issued_once s t now later last nonce email other another h =
    let (rest, e, f) = issued s t now nonce email h in
    let hit = is_unused nonce (lower other) in
    let used = update_where hit (λ (t : MagicToken). record t { used = some later }) rest in
    (
      rw e (ground (arith, select-none nonce (lower other) rest f, same_refl nonce)),
      rw e (
          ground (
            arith,
            select-none nonce (lower another) used (find?-used nonce hit later rest f),
            select-none nonce (lower other) rest f,
            same_refl nonce,
          )),
    )

-- The table of links stays valid: no nonce twice.
select-IsMagic : (p : MagicToken → Bool) (ts : List MagicToken) → IsMagic ts → IsMagic (select p ts)
select-IsMagic p [] v = tt
select-IsMagic p (t ∷ ts) v = elim (Bool-cases (p t)) [
  | inl e ↦ rw e (find?-select t.nonce p ts v.0, select-IsMagic p ts v.1)
  | inr e ↦ rw e (select-IsMagic p ts v.1)
]

used-IsMagic :
    (p : MagicToken → Bool) (now : ℕ) (ts : List MagicToken)
    → IsMagic ts
    → IsMagic (update_where p (λ t. record t { used = some now }) ts)
used-IsMagic p now [] v = tt
used-IsMagic p now (t ∷ ts) v = elim (Bool-cases (p t)) [
  | inl e ↦ rw e (find?-used t.nonce p now ts v.0, used-IsMagic p now ts v.1)
  | inr e ↦ rw e (find?-used t.nonce p now ts v.0, used-IsMagic p now ts v.1)
]

pub consume_magic-IsValid :
    (s : Store) (now : ℕ) (nonce email : String)
    → IsValid s
    → IsValid (consume_magic s now nonce email).1
unfolding consume_magic
consume_magic-IsValid s now nonce email v = record {
  users = v.users;
  identities = v.identities;
  owned = v.owned;
  magic = used-IsMagic (is_unused nonce (lower email)) now s.magic_tokens v.magic;
}

pub issue_magic-IsValid :
    (s t : Store) (now : ℕ) (nonce email : String)
    → IsValid s
    → issue_magic s now nonce email ≡ ok t
    → IsValid t
unfolding issue_magic
issue_magic-IsValid s t now nonce email v h =
    elim (Option-cases (find? (is_nonce nonce) s.magic_tokens)) [
      | inl e ↦
          let keep = λ (t : MagicToken). not (ltb (t.created + day) now) in
          let row : MagicToken = record {
            nonce = nonce;
            email = lower email;
            created = now;
            used = none;
          } in
          let kept : Store = record s { magic_tokens = row ∷ select keep s.magic_tokens } in
          let same_store : kept ≡ t = ground arith in
          subst IsValid same_store (record {
            users = v.users;
            identities = v.identities;
            owned = v.owned;
            magic = (
              find?-select nonce keep s.magic_tokens e,
              select-IsMagic keep s.magic_tokens v.magic,
            );
          })
      | inr (x, e) ↦ absurd (ground arith)
    ]
