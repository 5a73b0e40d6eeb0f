-- ===== src/Store/Tests.antt =====
-- Accounts, magic links and the ledger at concrete inputs.
use opendss_designer_cloud.Base.{
  List, ◌+◌, ◌≡◌, refl, true, false, ◌&&◌, none, some, [], ◌∷◌, find?, same, if◌then◌else◌,
}
use opendss_designer_cloud.Base.Text.{lower, strip}
use opendss_designer_cloud.Store.{User, Run, Store, ok, empty, has_email}
use opendss_designer_cloud.Store.Users.{sign_in, identity_user, issue_magic, consume_magic, count}
use opendss_designer_cloud.Store.Users.Valid.{IsValid}
use opendss_designer_cloud.Store.Users.Accounts.{
  SignedIn, sign_in_total, sign_in_again, sign_in_links,
}
use opendss_designer_cloud.Store.Users.Spent.{
  MagicCall, issues, consumes, magic_run, issues_other, magic_once,
}
use opendss_designer_cloud.Store.Ledger
use opendss_designer_cloud.Store.Ledger.{used, record_run}
use opendss_designer_cloud.Store.Ledger.Totals.{
  used-record_run, ledger_balances, Balanced, record_all,
}

abbrev ada : User
ada = record {
  id = 7;
  email = "ada@example.com";
  name = none;
  plan = "pro";
  created = 1;
  last_seen = 2;
  session_epoch = 0;
  disabled = false;
}

abbrev one_user : Store
one_user = record empty { users = ada ∷ [] }

one_user-IsValid : IsValid one_user
unfolding lower
one_user-IsValid = record {
  users = (refl, refl, refl, tt);
  identities = tt;
  owned = tt;
  magic = tt;
}

sign_in_total_example :
    (u : User) × (t : Store) × (sign_in one_user 9 "github" "42" " Bob@Example.COM" (some "Bob")
      ≡ (ok (some u), t))
    × SignedIn one_user "github" "42" " Bob@Example.COM" u t
sign_in_total_example =
    sign_in_total one_user 9 "github" "42" " Bob@Example.COM" (some "Bob") one_user-IsValid

sign_in_again_test :
    (u w : User) × (t r : Store) × (sign_in one_user 9 "github" "42" "bob@example.com" (some "Bob")
      ≡ (ok (some u), t))
    × (sign_in t 12 "github" "42" "ada@example.com" none ≡ (ok (some w), r))
    × (w.id ≡ u.id)
    × (count r ≡ count t)
sign_in_again_test =
    sign_in_again one_user 9 12 "github" "42" "bob@example.com" "ada@example.com" (some "Bob") none
      one_user-IsValid

known_email : find? (has_email (lower (strip "Ada@Example.com "))) one_user.users ≡ some ada
unfolding lower strip same
known_email = refl

new_to_github : identity_user one_user "github" "42" ≡ none
unfolding identity_user
new_to_github = refl

sign_in_links_example :
    (w : User) × (t : Store) × (sign_in one_user 9 "github" "42" "Ada@Example.com " none
      ≡ (ok (some w), t))
    × (w.id ≡ 7)
    × (count t ≡ count one_user)
    × (identity_user t "github" "42" ≡ some w)
sign_in_links_example =
    sign_in_links one_user 9 "github" "42" "Ada@Example.com " none ada one_user-IsValid
      new_to_github known_email

abbrev link_sent : Store
link_sent = record one_user {
  magic_tokens = record { nonce = "n1"; email = "ada@example.com"; created = 5; used = none } ∷ [];
}

link_issued : issue_magic one_user 5 "n1" "Ada@example.com" ≡ ok link_sent
unfolding issue_magic lower same
link_issued = refl

-- A try with another email before, and two days later another link, which deletes this one.
abbrev tried : List MagicCall
tried = consumes 5 "n1" "bob@example.com" ∷ []

abbrev purged : List MagicCall
purged = issues 172800007 "n2" "bob@example.com" ∷ consumes 172800008 "n1" "ada@example.com" ∷ []

magic_once_example :
    let (hit, r) = consume_magic (magic_run link_sent tried) 6 "n1" "ADA@example.com" in
    ((consume_magic link_sent 6 "n1" "ADA@example.com").0
      ≡ same (lower "Ada@example.com") (lower "ADA@example.com"))
    × (hit ≡ true → (consume_magic (magic_run r purged) 172800009 "n1" "ada@example.com").0 ≡ false)
unfolding issues_other same
magic_once_example =
    magic_once one_user link_sent 5 6 172800009 "n1" "Ada@example.com" "ADA@example.com"
      "ada@example.com" tried purged link_issued (refl, tt) (refl, (refl, tt))

abbrev solve : Run
solve = record {
  ts = 3;
  client = "user:7";
  plan = "pro";
  path = "/api/solve";
  engine_seconds = 250;
  queue_seconds = 10;
  status = "ok";
  worker = some "w1";
  request_id = none;
}

used-record_run_test :
    used (record_run one_user "2026-01" solve) "user:7" "2026-01"
    ≡ used one_user "user:7" "2026-01"
      + (if same "user:7" "user:7" && same "2026-01" "2026-01" then 250 else 0)
used-record_run_test = used-record_run one_user "2026-01" solve "user:7" "2026-01"

ledger_balances_example :
    Balanced (record_all empty (("2026-01", solve) ∷ ("2026-01", solve) ∷ ("2026-02", solve) ∷ []))
ledger_balances_example =
    ledger_balances (("2026-01", solve) ∷ ("2026-01", solve) ∷ ("2026-02", solve) ∷ [])

two_runs :
    used (record_all empty (("2026-01", solve) ∷ ("2026-01", solve) ∷ [])) "user:7" "2026-01" ≡ 500
unfolding used record_all record_run Ledger.debit same
two_runs = refl
