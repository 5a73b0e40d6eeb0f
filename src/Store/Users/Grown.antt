-- ===== src/Store/Users/Grown.antt =====
-- What `sign_in` of store.py does to the tables: at most a user on the free plan is new, and no row of the tables of
-- billing and of the ledger changes.
use opendss_designer_cloud.Base.{
  ℕ, ◌≡◌, refl, ◌∙◌, subst, ◌⊎◌, inl, inr, String, Option, none, List, ◌∷◌, arith, Option-cases,
  find?,
}
use opendss_designer_cloud.Store.{Store, User, ok, Result-cases, has_email, has_id}
use opendss_designer_cloud.Store.Users.{
  insert_user, insert_identity, identity_user, email_user, find_or_create, new_user,
}
use opendss_designer_cloud.Store.Users.Valid.{next_id_fresh}

-- The tables that are no part of accounts.
pub record Aside (s t : Store) : Type 0 where
  pub subscriptions : t.subscriptions ≡ s.subscriptions
  pub runs : t.runs ≡ s.runs
  pub usage : t.usage ≡ s.usage

abbrev pub IsFresh : List User → User → Type 0
IsFresh us u = (u.plan ≡ "free") × (find? (has_id u.id) us ≡ none)

abbrev pub Grown : Store → Store → Type 0
Grown s t =
    Aside s t × ((t.users ≡ s.users) ⊎ ((u : User) × (t.users ≡ u ∷ s.users) × IsFresh s.users u))

pub Aside-refl : (s : Store) → Aside s s
Aside-refl s = record { subscriptions = refl; runs = refl; usage = refl }

module _ (now : ℕ) (name : Option String) where
  insert_user-Grown :
      (s t : Store) (email : String) → insert_user s now email name ≡ ok t → Grown s t
  unfolding insert_user
  insert_user-Grown s t email h = (
    record { subscriptions = ground arith; runs = ground arith; usage = ground arith },
    inr (new_user s.users now email name, ground arith, (refl, next_id_fresh s.users)),
  )

  insert_identity-same :
      (s t : Store) (provider subject : String) (k : ℕ) (email : String)
      → insert_identity s now provider subject k email ≡ ok t
      → Aside s t × (t.users ≡ s.users)
  unfolding insert_identity
  insert_identity-same s t provider subject k email h = (
    record { subscriptions = ground arith; runs = ground arith; usage = ground arith },
    ground arith,
  )

  email_user-Grown :
      (s t : Store) (email : String) (u : User)
      → email_user s now email name ≡ ok (u, t)
      → Grown s t
  unfolding email_user
  email_user-Grown s t email u h = elim (Option-cases (find? (has_email email) s.users)) [
    | inr (v, e) ↦ let q : s ≡ t = ground arith in subst (Grown s) q (Aside-refl s, inl refl)
    | inl e ↦ elim (Result-cases (insert_user s now email name)) [
      | inl (x, f) ↦ let bad : ⊥ = ground arith in absurd bad
      | inr (r, f) ↦
          let q : r ≡ t = ground arith in subst (Grown s) q (insert_user-Grown s r email f)
    ]
  ]

  then_same : (s r t : Store) → Grown s r → Aside r t × (t.users ≡ r.users) → Grown s t
  then_same s r t (a, g) (b, e) = (
    record {
      subscriptions = b.subscriptions ∙ a.subscriptions;
      runs = b.runs ∙ a.runs;
      usage = b.usage ∙ a.usage;
    },
    elim g [ inl q ↦ inl (e ∙ q) | inr (u, q, f) ↦ inr (u, e ∙ q, f) ],
  )

  pub find_or_create-Grown :
      (s t : Store) (provider subject email : String) (u : User)
      → find_or_create s now provider subject email name ≡ ok (u, t)
      → Grown s t
  unfolding find_or_create
  find_or_create-Grown s t provider subject email u h =
      elim (Option-cases (identity_user s provider subject)) [
        | inr (v, e) ↦ let q : s ≡ t = ground arith in subst (Grown s) q (Aside-refl s, inl refl)
        | inl e ↦ elim (Result-cases (email_user s now email name)) [
          | inl (x, f) ↦ let bad : ⊥ = ground arith in absurd bad
          | inr ((v, r), f) ↦
              elim (Result-cases (insert_identity r now provider subject v.id email)) [
                | inl (x, g) ↦ let bad : ⊥ = ground arith in absurd bad
                | inr (w, g) ↦
                    let q : w ≡ t = ground arith in
                    subst (Grown s) q (
                      then_same s r w (email_user-Grown s r email v f)
                        (insert_identity-same r w provider subject v.id email g))
              ]
        ]
      ]
