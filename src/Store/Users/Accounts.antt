-- ===== src/Store/Users/Accounts.antt =====
-- What `sign_in` promises to its callers.
use opendss_designer_cloud.Base.{
  ℕ, ◌+◌, ◌≡◌, refl, ap, ◌∙◌, ◌≢◌, String, Option, none, some, ◌||◌, if◌then◌else◌, find?, is_some,
  length, length-update_where,
}
use opendss_designer_cloud.Base.Text.{lower, strip, lower_idem}
use opendss_designer_cloud.Store.{User, Store, ok, has_id, has_email}
use opendss_designer_cloud.Store.Users.{get, count, identity_user, sign_in, seen, update_user}
use opendss_designer_cloud.Store.Users.Valid.{IsValid, update_users-IsValid, find?-update_ne}
use opendss_designer_cloud.Store.Users.SignIn.{
  find_known, found_or_created, identity_user_own, linked, sign_in_run, stamped_owner,
}

-- What `sign_in` promises: the user that it returns is the one whom the same identity finds from then
-- on, no other row of `users` has changed, and a row was added only if neither the identity nor
-- the email was known.
pub record SignedIn (s : Store) (provider subject email : String) (u : User) (t : Store)
    : Type 0 where
  pub valid : IsValid t
  pub owner : identity_user t provider subject ≡ some u
  pub others : (k : ℕ) → k ≢ u.id → get t k ≡ get s k
  pub grown :
      count t
      ≡ count s
        + (if is_some (identity_user s provider subject)
              || is_some (find? (has_email (lower (strip email))) s.users)
            then 0
            else 1)

-- On a valid store `sign_in` never raises: it returns a user, with all that `SignedIn` promises.
pub sign_in_total :
    (s : Store) (now : ℕ) (provider subject email : String) (name : Option String)
    → IsValid s
    → (u : User) × (t : Store) × (sign_in s now provider subject email name ≡ (ok (some u), t))
      × SignedIn s provider subject email u t
unfolding get count
sign_in_total s now provider subject email name v =
    let (u, t, e, f) =
      found_or_created s now provider subject (lower (strip email)) name v
        (lower_idem (strip email)) in
    (
      seen now name u,
      update_user t u.id (seen now name),
      sign_in_run s now provider subject email name u t e f.own,
      record {
        valid =
            update_users-IsValid (has_id u.id) (seen now name) (λ x. refl) (λ x. refl) t f.valid;
        owner = stamped_owner t now name provider subject u f.owner f.own;
        others =
            λ k ne. find?-update_ne (seen now name) (λ x. refl) u.id k t.users ne ∙ f.others k ne;
        grown = length-update_where (has_id u.id) (seen now name) t.users ∙ f.grown;
      },
    )

-- A second sign-in with the same identity, at any time and with any email and name, is the same
-- account, and adds no row.
pub sign_in_again :
    (s : Store) (now later : ℕ) (provider subject email other : String) (name alias : Option String)
    → IsValid s
    → (u w : User) × (t r : Store) × (sign_in s now provider subject email name ≡ (ok (some u), t))
      × (sign_in t later provider subject other alias ≡ (ok (some w), r))
      × (w.id ≡ u.id)
      × (count r ≡ count t)
unfolding count
sign_in_again s now later provider subject email other name alias v =
    let (u, t, e, f) = sign_in_total s now provider subject email name v in
    let own = identity_user_own t provider subject u f.valid f.owner in
    (
      u,
      seen later alias u,
      t,
      update_user t u.id (seen later alias),
      e,
      sign_in_run t later provider subject other alias u t
          (find_known t later provider subject (lower (strip other)) alias u f.owner) own,
      refl,
      length-update_where (has_id u.id) (seen later alias) t.users,
    )

-- A sign-in with a new identity and the email of an account is that account: it returns the
-- account's id and adds no user.
pub sign_in_links :
    (s : Store) (now : ℕ) (provider subject email : String) (name : Option String) (u : User)
    → IsValid s
    → identity_user s provider subject ≡ none
    → find? (has_email (lower (strip email))) s.users ≡ some u
    → (w : User) × (t : Store) × (sign_in s now provider subject email name ≡ (ok (some w), t))
      × (w.id ≡ u.id)
      × (count t ≡ count s)
      × (identity_user t provider subject ≡ some w)
unfolding count
sign_in_links s now provider subject email name u v h e =
    let address = lower (strip email) in
    let (t, run, f, same_users) =
      linked s now provider subject address name v (lower_idem (strip email)) u h e in
    (
      seen now name u,
      update_user t u.id (seen now name),
      sign_in_run s now provider subject email name u t run f.own,
      refl,
      length-update_where (has_id u.id) (seen now name) t.users ∙ ap length same_users,
      stamped_owner t now name provider subject u f.owner f.own,
    )
