-- ===== src/Store.antt =====
-- store.py and ledger.py: the SQLite file as a record of its tables.
--
-- A table is the list of its rows, newest first. Times, ids, epochs and engine seconds are natural
-- numbers (whole milliseconds for what SQLite holds as REAL). The lock makes each method one step. A
-- method that may violate a constraint returns `err` and leaves the tables as they were, which is
-- what SQLite's statement, and the `ROLLBACK` of `sign_in` and `record`, do.
pub mod Users
pub mod Subscriptions
pub mod Ledger
mod Tests
use opendss_designer_cloud.Base.{
  ℕ, suc, ◌+◌, ◌-◌, max, String, Bool, true, false, ◌&&◌, Option, none, some, List, [], ◌∷◌, ltb,
  ◌==◌, same, not, if◌then◌else◌, find?, select, update_where, is_some, ◌≡◌, refl, ◌⊎◌, inl, inr,
}

pub record User : Type 0 where
  pub id : ℕ
  pub email : String
  pub name : Option String
  pub plan : String
  pub created : ℕ
  pub last_seen : ℕ
  pub session_epoch : ℕ
  pub disabled : Bool

-- A row of `identities`; the dataclass `Identity` leaves `user_id` out.
pub record Identity : Type 0 where
  pub provider : String
  pub subject : String
  pub user_id : ℕ
  pub email : Option String
  pub created : ℕ

pub record MagicToken : Type 0 where
  pub nonce : String
  pub email : String
  pub created : ℕ
  pub used : Option ℕ

pub record Subscription : Type 0 where
  pub user_id : ℕ
  pub customer_id : String
  pub subscription_id : Option String
  pub status : String
  pub current_period_end : Option ℕ
  pub cancel_at_period_end : Bool
  pub updated : ℕ

pub record StripeEvent : Type 0 where
  pub id : String
  pub kind : String
  pub received : ℕ

pub record Run : Type 0 where
  pub ts : ℕ
  pub client : String
  pub plan : String
  pub path : String
  pub engine_seconds : ℕ
  pub queue_seconds : ℕ
  pub status : String
  pub worker : Option String
  pub request_id : Option String

pub record Usage : Type 0 where
  pub client : String
  pub period : String
  pub engine_seconds : ℕ
  pub calls : ℕ

pub record Store : Type 0 where
  pub users : List User
  pub identities : List Identity
  pub magic_tokens : List MagicToken
  pub subscriptions : List Subscription
  pub stripe_events : List StripeEvent
  pub runs : List Run
  pub usage : List Usage

abbrev pub empty : Store
empty = record {
  users = [];
  identities = [];
  magic_tokens = [];
  subscriptions = [];
  stripe_events = [];
  runs = [];
  usage = [];
}

-- `sqlite3.IntegrityError`, and the `TypeError` of a subscript on `None`.
pub data DbError : Type 0 where
  integrity_error type_error : DbError

pub data Result {ℓ} (A : Type ℓ) : Type ℓ where
  ok : A → Result A
  err : DbError → Result A

infixl 5 ◌>>=◌
abbrev pub ◌>>=◌ {ℓ κ} : {A : Type ℓ} {B : Type κ} → Result A → (A → Result B) → Result B
ok a >>= f = f a
err e >>= f = err e

pub Result-cases {ℓ} :
    {A : Type ℓ} (r : Result A) → ((e : DbError) × (r ≡ err e)) ⊎ ((a : A) × (r ≡ ok a))
Result-cases (ok a) = inr (a, refl)
Result-cases (err e) = inl (e, refl)

abbrev pub or_raise {ℓ} : {A : Type ℓ} → Option A → DbError → Result A
or_raise none e = err e
or_raise (some a) e = ok a

-- The tests of the `WHERE` clauses.
abbrev pub has_id : ℕ → User → Bool
has_id k u = u.id == k

abbrev pub has_email : String → User → Bool
has_email e u = same u.email e

abbrev pub is_identity : String → String → Identity → Bool
is_identity provider subject i = same i.provider provider && same i.subject subject
