-- ===== src/Store/Users/SignIn.antt =====
-- `sign_in`: find by identity, else by email, else create.
use opendss_designer_cloud.Base.{
  ℕ, ◌+◌, ◌≡◌, refl, ◌≢◌, String, inl, inr, Option, none, some, List, [], ◌∷◌, ◌||◌, arith,
  same_refl, if◌then◌else◌, find?, is_some, All, length, Option-cases,
}
use opendss_designer_cloud.Base.Text.{lower, strip}
use opendss_designer_cloud.Store.{User, Identity, Store, ok, has_id, has_email, is_identity}
use opendss_designer_cloud.Store.Users.{
  get, new_user, new_identity, insert_user, identity_user, insert_identity, email_user,
  find_or_create, sign_in, seen, update_user,
}
use opendss_designer_cloud.Store.Users.Valid.{
  IsValid, IsOwned, next_id_fresh, find?-has_id, find_by_own_id,
}

IsOwned-of_find :
    (us : List User) (provider subject : String) (is : List Identity) (i : Identity)
    → All (IsOwned us) is
    → find? (is_identity provider subject) is ≡ some i
    → IsOwned us i
IsOwned-of_find us p q [] i a h = cc
IsOwned-of_find us p q (x ∷ is) i a h = ground (arith, IsOwned-of_find us p q is i a.1, a.0)

-- In a valid store an identity has a user unless it is unknown.
identity_known :
    (s : Store) (provider subject : String)
    → IsValid s
    → identity_user s provider subject ≡ none
    → find? (is_identity provider subject) s.identities ≡ none
unfolding identity_user
identity_known s p q v h = elim (Option-cases (find? (is_identity p q) s.identities)) [
  | inl e ↦ e
  | inr (i, e) ↦ absurd (ground (arith, IsOwned-of_find s.users p q s.identities i v.owned e))
]

pub identity_user_own :
    (s : Store) (provider subject : String) (u : User)
    → IsValid s
    → identity_user s provider subject ≡ some u
    → find? (has_id u.id) s.users ≡ some u
unfolding identity_user
identity_user_own s p q u v h = elim (Option-cases (find? (is_identity p q) s.identities)) [
  | inl e ↦ absurd (ground arith)
  | inr (i, e) ↦ find_by_own_id (has_id i.user_id) s.users u v.users (ground arith)
]

widened :
    (u : User) (us : List User) (is : List Identity)
    → find? (has_id u.id) us ≡ none
    → All (IsOwned us) is
    → All (IsOwned (u ∷ us)) is
widened u us [] f h = tt
widened u us (i ∷ is) f h = (ground (arith, h.0), widened u us is f h.1)

-- What a sign-in has found or made before it stamps the row.
pub record Found (s : Store) (provider subject email : String) (u : User) (t : Store) : Type 0 where
  pub valid : IsValid t
  pub owner : identity_user t provider subject ≡ some u
  pub own : find? (has_id u.id) t.users ≡ some u
  pub others : (k : ℕ) → k ≢ u.id → find? (has_id k) t.users ≡ find? (has_id k) s.users
  pub grown :
      length t.users
      ≡ length s.users
        + (if is_some (identity_user s provider subject)
              || is_some (find? (has_email email) s.users)
            then 0
            else 1)

pub find_known :
    (s : Store) (now : ℕ) (provider subject email : String) (name : Option String) (u : User)
    → identity_user s provider subject ≡ some u
    → find_or_create s now provider subject email name ≡ ok (u, s)
unfolding find_or_create
find_known s now p q email name u h = rw (h, find_or_create)

module _ (s : Store) (now : ℕ) (provider subject email : String) (name : Option String)
    (v : IsValid s) (low : lower email ≡ email) where
  abbrev pub Outcome : Type 0
  Outcome =
      (u : User) × (t : Store) × (find_or_create s now provider subject email name ≡ ok (u, t))
      × Found s provider subject email u t

  known : (u : User) → identity_user s provider subject ≡ some u → Outcome
  unfolding find_or_create
  known u h = (
    u,
    s,
    rw (h, find_or_create),
    record {
      valid = v;
      owner = h;
      own = identity_user_own s provider subject u v h;
      others = λ k ne. refl;
      grown = ground arith;
    },
  )

  pub linked :
      (u : User)
      → identity_user s provider subject ≡ none
      → find? (has_email email) s.users ≡ some u
      → (t : Store) × (find_or_create s now provider subject email name ≡ ok (u, t))
        × Found s provider subject email u t
        × (t.users ≡ s.users)
  unfolding find_or_create email_user insert_identity identity_user
  linked u h e =
      let own = find_by_own_id (has_email email) s.users u v.users e in
      let new = identity_known s provider subject v h in
      (
        record s { identities = new_identity now provider subject u.id email ∷ s.identities },
        ground arith,
        record {
          valid = record {
            users = v.users;
            identities = (new, v.identities);
            owned = (rw own, v.owned);
            magic = v.magic;
          };
          owner = ground (arith, own, same_refl provider, same_refl subject);
          own = own;
          others = λ k ne. refl;
          grown = ground arith;
        },
        refl,
      )

  created :
      identity_user s provider subject ≡ none → find? (has_email email) s.users ≡ none → Outcome
  unfolding find_or_create email_user insert_user insert_identity identity_user
  created h e =
      let u = new_user s.users now email name in
      let new = identity_known s provider subject v h in
      let fresh = next_id_fresh s.users in
      (
        u,
        record s {
          users = u ∷ s.users;
          identities = new_identity now provider subject u.id email ∷ s.identities;
        },
        ground (arith, same_refl email),
        record {
          valid = record {
            users = (fresh, e, low, v.users);
            identities = (new, v.identities);
            owned = (ground arith, widened u s.users s.identities fresh v.owned);
            magic = v.magic;
          };
          owner = ground (arith, same_refl provider, same_refl subject);
          own = ground arith;
          others = λ k ne. ground arith;
          grown = ground arith;
        },
      )

  pub found_or_created : Outcome
  found_or_created = elim (Option-cases (identity_user s provider subject)) [
    | inr (u, h) ↦ known u h
    | inl h ↦ elim (Option-cases (find? (has_email email) s.users)) [
      | inr (u, e) ↦ let (t, run, f, _) = linked u h e in (u, t, run, f)
      | inl e ↦ created h e
    ]
  ]

pub stamped_owner :
    (t : Store) (now : ℕ) (name : Option String) (provider subject : String) (u : User)
    → identity_user t provider subject ≡ some u
    → find? (has_id u.id) t.users ≡ some u
    → identity_user (update_user t u.id (seen now name)) provider subject ≡ some (seen now name u)
unfolding identity_user
stamped_owner t now name p q u h own = elim (Option-cases (find? (is_identity p q) t.identities)) [
  | inl e ↦ absurd (ground arith)
  | inr (i, e) ↦
      ground (
        arith,
        find?-has_id (has_id u.id) (seen now name) (λ x. refl) (λ x. refl) i.user_id t.users,
      )
]

pub sign_in_run :
    (s : Store) (now : ℕ) (provider subject email : String) (name : Option String) (u : User)
    (t : Store)
    → find_or_create s now provider subject (lower (strip email)) name ≡ ok (u, t)
    → find? (has_id u.id) t.users ≡ some u
    → sign_in s now provider subject email name
      ≡ (ok (some (seen now name u)), update_user t u.id (seen now name))
unfolding sign_in get
sign_in_run s now provider subject email name u t e own =
    ground (arith, find?-has_id (has_id u.id) (seen now name) (λ x. refl) (λ x. refl) u.id t.users)
