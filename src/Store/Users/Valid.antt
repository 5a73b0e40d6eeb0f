-- ===== src/Store/Users/Valid.antt =====
-- What the constraints of the tables `users`, `identities` and `magic_tokens` promise.
use mathlib.Core.Option
use opendss_designer_cloud.Base.{
  ℕ, ◌≤◌, ◌≡◌, refl, ap, subst, ◌≢◌, ◌∙◌, String, Bool, true, inl, inr, none, some, List, [], ◌∷◌,
  arith, same, same_iff, find?, update_where, is_some, All, find?-update_where, changed, Bool-cases,
}
use opendss_designer_cloud.Base.Text.{lower}
use opendss_designer_cloud.Store.{User, Identity, MagicToken, Store, has_id, has_email, is_identity}
use opendss_designer_cloud.Store.Users.{next_id, is_nonce}

-- Ids and emails are unique, and emails are in lower case.
abbrev pub IsUsers : List User → Type 0
IsUsers [] = Unit {0}
IsUsers (u ∷ us) =
    (find? (has_id u.id) us ≡ none)
    × (find? (has_email u.email) us ≡ none)
    × (lower u.email ≡ u.email)
    × IsUsers us

-- A pair of provider and subject is unique.
abbrev pub IsIdentities : List Identity → Type 0
IsIdentities [] = Unit {0}
IsIdentities (i ∷ is) = (find? (is_identity i.provider i.subject) is ≡ none) × IsIdentities is

-- The foreign key of `identities`.
abbrev pub IsOwned : List User → Identity → Type 0
IsOwned us i = is_some (find? (has_id i.user_id) us) ≡ true

abbrev pub IsMagic : List MagicToken → Type 0
IsMagic [] = Unit {0}
IsMagic (t ∷ ts) = (find? (is_nonce t.nonce) ts ≡ none) × IsMagic ts

pub record IsValid (s : Store) : Type 0 where
  pub users : IsUsers s.users
  pub identities : IsIdentities s.identities
  pub owned : All (IsOwned s.users) s.identities
  pub magic : IsMagic s.magic_tokens

-- A new id is above every id.
next_id_above : (us : List User) (k : ℕ) → next_id us ≤ k → find? (has_id k) us ≡ none
unfolding next_id
next_id_above [] k h = refl
next_id_above (u ∷ us) k h = ground (arith, next_id_above us k)

pub next_id_fresh : (us : List User) → find? (has_id (next_id us)) us ≡ none
next_id_fresh us = next_id_above us (next_id us) (omega arith)

-- A change of a user that keeps the id and the email.
module _ (p : User → Bool) (f : User → User) (keeps_id : (u : User) → (f u).id ≡ u.id)
    (keeps_email : (u : User) → (f u).email ≡ u.email) where
  pub find?-has_id :
      (k : ℕ) (us : List User)
      → find? (has_id k) (update_where p f us) ≡ Option.map (changed p f) (find? (has_id k) us)
  find?-has_id k us = find?-update_where p (has_id k) f (λ u. ground (arith, keeps_id u)) us

  pub find?-has_email :
      (e : String) (us : List User)
      → find? (has_email e) (update_where p f us)
        ≡ Option.map (changed p f) (find? (has_email e) us)
  find?-has_email e us =
      find?-update_where p (has_email e) f (λ u. ap (λ x. same x e) (keeps_email u)) us

  changed_id : (u : User) → (changed p f u).id ≡ u.id
  changed_id u = ground (arith, keeps_id u)

  changed_email : (u : User) → (changed p f u).email ≡ u.email
  changed_email u = ground (arith, keeps_email u)

  pub update_where-IsUsers : (us : List User) → IsUsers us → IsUsers (update_where p f us)
  update_where-IsUsers [] h = tt
  update_where-IsUsers (u ∷ us) h = (
    rw (changed_id u) (find?-has_id u.id us ∙ ap (Option.map (changed p f)) h.0),
    rw (changed_email u) (find?-has_email u.email us ∙ ap (Option.map (changed p f)) h.1),
    rw (changed_email u) h.2,
    update_where-IsUsers us h.3,
  )

  pub update_where-IsOwned :
      (us : List User) (is : List Identity)
      → All (IsOwned us) is
      → All (IsOwned (update_where p f us)) is
  update_where-IsOwned us [] h = tt
  update_where-IsOwned us (i ∷ is) h =
      (ground (arith, find?-has_id i.user_id us, h.0), update_where-IsOwned us is h.1)

  pub update_users-IsValid :
      (s : Store) → IsValid s → IsValid (record s { users = update_where p f s.users })
  update_users-IsValid s v = record {
    users = update_where-IsUsers s.users v.users;
    identities = v.identities;
    owned = update_where-IsOwned s.users s.identities v.owned;
    magic = v.magic;
  }

-- A user found by a test is one of the rows that pass it.
pub has_id_of_find : (k : ℕ) (us : List User) (u : User) → find? (has_id k) us ≡ some u → u.id ≡ k
has_id_of_find k [] u h = cc
has_id_of_find k (x ∷ us) u h = ground (arith, has_id_of_find k us u)

pub has_email_of_find :
    (e : String) (us : List User) (u : User) → find? (has_email e) us ≡ some u → u.email ≡ e
has_email_of_find e [] u h = cc
has_email_of_find e (x ∷ us) u h = ground (arith, has_email_of_find e us u, same_iff x.email e)

pub apart :
    (a b : ℕ) (us : List User) (u : User)
    → find? (has_id a) us ≡ none
    → find? (has_id b) us ≡ some u
    → a ≢ b
apart a b us u h k e =
    let m : find? (has_id b) us ≡ none = subst (λ j. find? (has_id j) us ≡ none) e h in cc

-- A row that some test finds is found by its id.
pub find_by_own_id :
    (q : User → Bool) (us : List User) (u : User)
    → IsUsers us
    → find? q us ≡ some u
    → find? (has_id u.id) us ≡ some u
find_by_own_id q [] u v h = cc
find_by_own_id q (x ∷ us) u v h = elim (Bool-cases (q x)) [
  | inl e ↦ ground arith
  | inr e ↦
      let f : find? q us ≡ some u = ground arith in
      let g = find_by_own_id q us u v.3 f in ground (arith, apart x.id u.id us u v.0 g)
]

-- An update of one row is not seen at another id.
pub find?-update_ne :
    (f : User → User) (keeps_id : (u : User) → (f u).id ≡ u.id) (j k : ℕ) (us : List User)
    → k ≢ j
    → find? (has_id k) (update_where (has_id j) f us) ≡ find? (has_id k) us
find?-update_ne f keeps_id j k [] h = refl
find?-update_ne f keeps_id j k (u ∷ us) h =
    ground (arith, keeps_id u, find?-update_ne f keeps_id j k us h)
