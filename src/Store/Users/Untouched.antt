-- ===== src/Store/Users/Untouched.antt =====
-- What `sign_in` of store.py leaves alone: the table of magic links.
use opendss_designer_cloud.Base.{◌≡◌, refl, String, Option, ℕ, arith, inl, inr, Option-cases, find?}
use opendss_designer_cloud.Base.Text.{lower, strip}
use opendss_designer_cloud.Store.{Store, User, ok, Result-cases, has_email}
use opendss_designer_cloud.Store.Users.{
  insert_user, insert_identity, identity_user, email_user, find_or_create, sign_in,
}

module _ (now : ℕ) (name : Option String) where
  insert_user-links :
      (s t : Store) (email : String)
      → insert_user s now email name ≡ ok t
      → t.magic_tokens ≡ s.magic_tokens
  unfolding insert_user
  insert_user-links s t email h = ground arith

  insert_identity-links :
      (s t : Store) (provider subject : String) (k : ℕ) (email : String)
      → insert_identity s now provider subject k email ≡ ok t
      → t.magic_tokens ≡ s.magic_tokens
  unfolding insert_identity
  insert_identity-links s t provider subject k email h = ground arith

  email_user-links :
      (s t : Store) (email : String) (u : User)
      → email_user s now email name ≡ ok (u, t)
      → t.magic_tokens ≡ s.magic_tokens
  unfolding email_user
  email_user-links s t email u h = elim (Option-cases (find? (has_email email) s.users)) [
    | inr (v, e) ↦ ground arith
    | inl e ↦ elim (Result-cases (insert_user s now email name)) [
      | inl (x, f) ↦ ground arith
      | inr (r, f) ↦ ground (arith, insert_user-links s r email f)
    ]
  ]

  find_or_create-links :
      (s t : Store) (provider subject email : String) (u : User)
      → find_or_create s now provider subject email name ≡ ok (u, t)
      → t.magic_tokens ≡ s.magic_tokens
  unfolding find_or_create
  find_or_create-links s t provider subject email u h =
      elim (Option-cases (identity_user s provider subject)) [
        | inr (v, e) ↦ ground arith
        | inl e ↦ elim (Result-cases (email_user s now email name)) [
          | inl (x, f) ↦ ground arith
          | inr ((v, r), f) ↦ ground (
            arith,
            email_user-links s r email v f,
            insert_identity-links r t provider subject v.id email,
          )
        ]
      ]

  pub sign_in-links :
      (s : Store) (provider subject email : String)
      → (sign_in s now provider subject email name).1.magic_tokens ≡ s.magic_tokens
  unfolding sign_in
  sign_in-links s provider subject email =
      elim (Result-cases (find_or_create s now provider subject (lower (strip email)) name)) [
        | inl (x, f) ↦ rw (f, sign_in) refl
        | inr (r, f) ↦
            rw (f, sign_in)
              (find_or_create-links s r.1 provider subject (lower (strip email)) r.0 f)
      ]
