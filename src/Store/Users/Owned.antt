-- ===== src/Store/Users/Owned.antt =====
-- The identities that the account page asks for are the user's.
use opendss_designer_cloud.Base.{
  ℕ, ◌≡◌, true, List, [], ◌∷◌, All, All-map, All-select, leb, ◌==◌, select, arith, Bool-cases, inl,
  inr,
}
use opendss_designer_cloud.Store.{Store, Identity}
use opendss_designer_cloud.Store.Users.{identities, insert_by_created, order_by_created}

insert_by_created-All :
    (P : Identity → Type 0) (i : Identity) (js : List Identity)
    → P i
    → All P js
    → All P (insert_by_created i js)
unfolding insert_by_created
insert_by_created-All P i [] h k = (h, tt)
insert_by_created-All P i (j ∷ js) h k = elim (Bool-cases (leb i.created j.created)) [
  | inl e ↦ rw e (h, k)
  | inr e ↦ rw e (k.0, insert_by_created-All P i js h k.1)
]

order_by_created-All :
    (P : Identity → Type 0) (is : List Identity) → All P is → All P (order_by_created is)
unfolding order_by_created
order_by_created-All P [] h = tt
order_by_created-All P (i ∷ is) h =
    insert_by_created-All P i (order_by_created is) h.0 (order_by_created-All P is h.1)

pub identities-own : (s : Store) (k : ℕ) → All (λ i. i.user_id ≡ k) (identities s k)
unfolding identities
identities-own s k =
    order_by_created-All (λ i. i.user_id ≡ k) (select (λ i. i.user_id == k) s.identities)
      (All-map (λ i. (i.user_id == k) ≡ true) (λ i. i.user_id ≡ k) (λ i h. ground arith)
        (select (λ i. i.user_id == k) s.identities) (All-select (λ i. i.user_id == k) s.identities))
