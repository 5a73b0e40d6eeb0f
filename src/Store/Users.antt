-- ===== src/Store/Users.antt =====
-- `class Users`: accounts, sign-in and magic links.
pub mod Valid
pub mod Owned
pub mod Grown
pub mod SignIn
pub mod Accounts
pub mod Magic
pub mod Spent
pub mod Untouched
use opendss_designer_cloud.Base.{
  ℕ, suc, ◌+◌, ◌-◌, max, String, Bool, true, false, ◌&&◌, Option, none, some, List, [], ◌∷◌, ltb,
  leb, ◌==◌, same, not, if◌then◌else◌, find?, select, update_where, is_some, length,
}
use opendss_designer_cloud.Base.Text.{lower, strip}
use opendss_designer_cloud.Store.{
  User, Identity, MagicToken, Store, Result, ok, err, integrity_error, type_error, ◌>>=◌, or_raise,
  has_id, has_email, is_identity,
}

unfoldable pub get : Store → ℕ → Option User
get s k = find? (has_id k) s.users

unfoldable pub by_email : Store → String → Option User
by_email s email = find? (has_email (lower email)) s.users

-- The rowid that SQLite gives to a new row of an `INTEGER PRIMARY KEY` table: one above the largest.
unfoldable pub next_id : List User → ℕ
next_id [] = 1
next_id (u ∷ us) = max (suc u.id) (next_id us)

-- The row of an `INSERT INTO users`, with the defaults of the schema.
abbrev pub new_user : List User → ℕ → String → Option String → User
new_user users now email name = record {
  id = next_id users;
  email = email;
  name = name;
  plan = "free";
  created = now;
  last_seen = now;
  session_epoch = 0;
  disabled = false;
}

unfoldable pub insert_user : Store → ℕ → String → Option String → Result Store
insert_user s now email name =
    if is_some (find? (has_email email) s.users)
    then err integrity_error
    else ok (record s { users = new_user s.users now email name ∷ s.users })

-- The JOIN of `sign_in`: the user that an identity belongs to.
unfoldable pub identity_user : Store → String → String → Option User
identity_user s provider subject = elim (find? (is_identity provider subject) s.identities) [
  | none ↦ none
  | some i ↦ find? (has_id i.user_id) s.users
]

abbrev pub new_identity : ℕ → String → String → ℕ → String → Identity
new_identity now provider subject user_id email = record {
  provider = provider;
  subject = subject;
  user_id = user_id;
  email = some email;
  created = now;
}

-- `INSERT OR IGNORE`: a known (provider, subject) is left; the foreign key is enforced.
unfoldable pub insert_identity : Store → ℕ → String → String → ℕ → String → Result Store
insert_identity s now provider subject user_id email =
    if is_some (find? (is_identity provider subject) s.identities)
    then ok s
    else if is_some (find? (has_id user_id) s.users)
    then ok
        (record s { identities = new_identity now provider subject user_id email ∷ s.identities })
    else err integrity_error

-- The row by email, made if there is none.
unfoldable pub email_user : Store → ℕ → String → Option String → Result (User × Store)
email_user s now email name = elim (find? (has_email email) s.users) [
  | some u ↦ ok (u, s)
  | none ↦ do
    t ← insert_user s now email name
    u ← or_raise (find? (has_email email) t.users) type_error
    ok (u, t)
]

unfoldable pub find_or_create :
    Store → ℕ → String → String → String → Option String → Result (User × Store)
find_or_create s now provider subject email name = elim (identity_user s provider subject) [
  | some u ↦ ok (u, s)
  | none ↦ do
    (u, t) ← email_user s now email name
    t' ← insert_identity t now provider subject u.id email
    ok (u, t')
]

-- `COALESCE(name, ?)`
abbrev pub coalesce : Option String → Option String → Option String
coalesce none other = other
coalesce (some n) other = some n

abbrev pub seen : ℕ → Option String → User → User
seen now name u = record u { last_seen = now; name = coalesce u.name name }

abbrev pub update_user : Store → ℕ → (User → User) → Store
update_user s k f = record s { users = update_where (has_id k) f s.users }

-- `sign_in` at a time. The transaction: an error rolls every write back.
unfoldable pub sign_in :
    Store → ℕ → String → String → String → Option String → Result (Option User) × Store
sign_in s now provider subject email name =
    elim (find_or_create s now provider subject (lower (strip email)) name) [
      | err e ↦ (err e, s)
      | ok r ↦ let t = update_user r.1 r.0.id (seen now name) in (ok (get t r.0.id), t)
    ]

unfoldable pub touch : Store → ℕ → ℕ → Store
touch s now k = update_user s k (λ u. record u { last_seen = now })

unfoldable pub bump_epoch : Store → ℕ → Store
bump_epoch s k = update_user s k (λ u. record u { session_epoch = u.session_epoch + 1 })

unfoldable pub set_plan : Store → ℕ → String → Store
set_plan s k plan = update_user s k (λ u. record u { plan = plan })

unfoldable pub count : Store → ℕ
count s = length s.users

-- `ORDER BY created` of the rows of one user.
insert_by_created : Identity → List Identity → List Identity
insert_by_created i [] = i ∷ []
insert_by_created i (j ∷ js) =
    if leb i.created j.created then i ∷ j ∷ js else j ∷ insert_by_created i js

order_by_created : List Identity → List Identity
order_by_created [] = []
order_by_created (i ∷ is) = insert_by_created i (order_by_created is)

unfoldable pub identities : Store → ℕ → List Identity
unfolding insert_by_created order_by_created
identities s k = order_by_created (select (λ i. i.user_id == k) s.identities)

abbrev pub day : ℕ
day = 86400000

abbrev pub is_nonce : String → MagicToken → Bool
is_nonce n t = same t.nonce n

-- A nonce is the primary key of its table. What is older than a day is deleted.
unfoldable pub issue_magic : Store → ℕ → String → String → Result Store
issue_magic s now nonce email =
    if is_some (find? (is_nonce nonce) s.magic_tokens)
    then err integrity_error
    else ok (record s {
      magic_tokens =
          select (λ t. not (ltb (t.created + day) now))
            (record { nonce = nonce; email = lower email; created = now; used = none }
              ∷ s.magic_tokens);
    })

abbrev pub is_unused : String → String → MagicToken → Bool
is_unused nonce email t = is_nonce nonce t && (same t.email email && not (is_some t.used))

-- `rowcount == 1`: a nonce is unique, so the update meets one row or none.
unfoldable pub consume_magic : Store → ℕ → String → String → Bool × Store
consume_magic s now nonce email =
    let hit = is_unused nonce (lower email) in
    (
      length (select hit s.magic_tokens) == 1,
      record s {
        magic_tokens = update_where hit (λ t. record t { used = some now }) s.magic_tokens;
      },
    )
