-- ===== src/Gateway/TokenTests.antt =====
-- Tokens, sessions and OAuth at concrete inputs.
use opendss_designer_cloud.Base.{
  ◌≡◌, ◌≢◌, refl, true, false, none, some, List, [], ◌∷◌, same, arith, inl, inr, String, refuted,
  same_iff,
}
use opendss_designer_cloud.Base.Text.{lower, strip, decimal}
use opendss_designer_cloud.Base.Text.Split.{split_once}
use opendss_designer_cloud.Store.Users
use opendss_designer_cloud.Gateway.Callers.{Caller, user_caller}
use opendss_designer_cloud.Gateway.Emails.{
  valid_email, is_address, text_length, is_plain, has_point,
}
use opendss_designer_cloud.Gateway.OAuth.{
  find_provider, state_token, oauth_callback, oauth_identity,
}
use opendss_designer_cloud.Gateway.Providers.{
  Provider, body, Answers, ExternalIdentity, identity, github_provider, google_provider, enabled,
  exchange_code, exchange_info, github_identity, github_email, first_email, github_subject, checked,
  usable,
}
use opendss_designer_cloud.Gateway.Flow.{
  oauth_started, oauth_foreign_state, oauth_wrong_state, oauth_bad_state, refusal,
}
use opendss_designer_cloud.Gateway.Identity.{IsIdentity, exchange_code-IsIdentity}
use opendss_designer_cloud.Gateway.Proxy.{identify_request, finish}
use opendss_designer_cloud.Gateway.Purposes.{
  NoSession, NoForm, NoLink, NoState, read_session-session_token, check_csrf-csrf_token,
  read_magic-magic_token, session_expires, magic_expires, purposes_apart,
}
use opendss_designer_cloud.Gateway.Slides.{signed_in_identified, finish_slides, turns, round_robin}
use opendss_designer_cloud.Gateway.Tests.{ada, gateway, plan}
use opendss_designer_cloud.Gateway.Tokens.{
  session, no_session, session_token, read_session, csrf_token, check_csrf, magic_token, read_magic,
}
use opendss_designer_cloud.Gateway.Trials.{signer, signer-Signs, no_token}

read_session-session_token_test :
    read_session signer (some (session_token signer 7 3 100)) 200
    ≡ session (record { user_id = 7; epoch = 3; issued_at = 100000 })
read_session-session_token_test =
    read_session-session_token signer signer-Signs 7 3 100 200 (omega arith) (omega arith)

check_csrf-csrf_token_test : check_csrf signer (csrf_token signer 7 "ab" 100) 8 200 ≡ false
check_csrf-csrf_token_test =
    check_csrf-csrf_token signer signer-Signs 7 8 100 200 "ab" (omega arith) (omega arith)

read_magic-magic_token_test :
    read_magic signer (magic_token signer "a@b.cc" "n1" 100) 1000 ≡ some ("a@b.cc", "n1")
read_magic-magic_token_test =
    read_magic-magic_token signer signer-Signs "a@b.cc" "n1" 100 1000 (omega arith) (omega arith)

magic_expires_test : read_magic signer (magic_token signer "a@b.cc" "n1" 100) 1001 ≡ none
magic_expires_test = magic_expires signer signer-Signs "a@b.cc" "n1" 100 1001 (omega arith)

session_expires_test :
    read_session signer (some (session_token signer 7 3 100)) 2592101 ≡ no_session
session_expires_test = session_expires signer signer-Signs 7 3 100 2592101 (omega arith)

purposes_apart_example :
    let cookie = session_token signer 7 3 100 in
    let form = csrf_token signer 7 "ab" 100 in
    let link = magic_token signer "a@b.cc" "n1" 100 in
    let state = state_token signer "github" "ab" 100 in
    (NoForm signer cookie 200 × NoLink signer cookie 200 × NoState signer cookie 200)
    × (NoSession signer form 200 × NoLink signer form 200 × NoState signer form 200)
    × (NoSession signer link 200 × NoForm signer link 200 × NoState signer link 200)
    × NoSession signer state 200
    × NoForm signer state 200
    × NoLink signer state 200
purposes_apart_example = purposes_apart signer signer-Signs 7 3 100 200 "a@b.cc" "n1" "ab" "github"

signed_in_identified_test :
    identify_request signer gateway 5000 "9.9.9.9" (some (session_token signer 7 3 2))
    ≡ user_caller gateway.plans 5000 (record { user_id = 7; epoch = 3; issued_at = 2000 }) ada
unfolding Users.get
signed_in_identified_test =
    signed_in_identified signer signer-Signs gateway ada 2500 5000 "9.9.9.9" refl refl (omega arith)
      (omega arith)

abbrev stale : Caller
stale = record { client = "user:7"; plan = plan; user = some ada; refresh_session = true }

finish_slides_example :
    identify_request signer gateway 2592002000 "9.9.9.9" (finish signer stale 3000)
    ≡ user_caller gateway.plans 2592002000 (record { user_id = 7; epoch = 3; issued_at = 3000 }) ada
unfolding Users.get
finish_slides_example =
    finish_slides signer signer-Signs gateway ada stale 3000 2592002000 "9.9.9.9" refl refl refl
      refl (omega arith) (omega arith)

round_robin_test :
    turns 3 ("w1" ∷ "w2" ∷ "w3" ∷ [])
    ≡ (some "w1" ∷ some "w2" ∷ some "w3" ∷ [], "w1" ∷ "w2" ∷ "w3" ∷ [])
round_robin_test = round_robin ("w1" ∷ "w2" ∷ "w3" ∷ [])

abbrev providers : List Provider
providers = github_provider "c1" "s1" ∷ google_provider "c2" "" ∷ []

abbrev github : Provider
github = github_provider "c1" "s1"

-- The primary address is not verified: the verified one is taken, in its normal form.
abbrev answers : Answers
answers = record {
  token = body (some "tok");
  info = body (record {
    id = some 42;
    sub = none;
    name = none;
    login = some "octo";
    email = some "other@b.cc";
    email_verified = false;
  });
  emails = body (
      record { email = some "old@b.cc"; verified = false; primary = true }
      ∷ record { email = some " Ada@B.cc"; verified = true; primary = false }
      ∷ []);
}

abbrev octo : ExternalIdentity
octo = record { provider = "github"; subject = "42"; email = "ada@b.cc"; name = some "octo" }

exchange : Unit {0}
unfolding exchange_code exchange_info github_identity github_email first_email github_subject
    checked usable valid_email is_address strip lower split_once same github_provider
    google_provider find_provider enabled decimal text_length is_plain has_point
exchange = tt

exchange_code_test : exchange_code github answers answers.token ≡ identity octo
unfolding exchange
exchange_code_test = refl

exchange_code-IsIdentity_example : IsIdentity github answers octo
exchange_code-IsIdentity_example = exchange_code-IsIdentity github answers octo exchange_code_test

oauth_started_test :
    let state = state_token signer "github" "ab" 100 in
    oauth_callback signer providers gateway 200000 "github" state state false (λ p. answers)
    ≡ oauth_identity gateway 200000 (exchange_code github answers answers.token)
unfolding exchange
oauth_started_test =
    oauth_started signer signer-Signs providers gateway "github" "ab" github 100000 200000
      (λ p. answers) refl (omega arith) (omega arith)

signed_token : state_token signer "github" "ab" 100 ≢ no_token
unfolding state_token
signed_token e = cc e

other_provider : ◌≢◌ {A = String} "google" "github"
unfolding same
other_provider e = refuted ((same_iff "google" "github").1 e)

oauth_foreign_state_test :
    oauth_callback signer providers gateway 200000 "github"
      (state_token signer "github" "ab" 100)
      no_token
      false
      (λ p. answers)
    ≡ (refusal false (find_provider providers "github"), gateway)
oauth_foreign_state_test =
    oauth_foreign_state signer signer-Signs providers gateway "github"
      (state_token signer "github" "ab" 100) no_token 200000 false (λ p. answers) signed_token

-- A state that was made for another provider brings the page for a flow that did not start here.
oauth_bad_state_example :
    let state = state_token signer "google" "ab" 100 in
    oauth_callback signer providers gateway 200000 "github" state state false (λ p. answers)
    ≡ (refusal false (find_provider providers "github"), gateway)
oauth_bad_state_example =
    oauth_bad_state signer signer-Signs providers gateway "github"
      (state_token signer "google" "ab" 100) (state_token signer "google" "ab" 100) 200000 false
      (λ p. answers) "google" "ab" 100000 (omega arith) (inr (refl, inl other_provider))

oauth_wrong_state_test :
    let state = state_token signer "github" "ab" 100 in
    oauth_callback signer providers gateway 800000 "github" state state false (λ p. answers)
    ≡ (refusal false (find_provider providers "github"), gateway)
oauth_wrong_state_test =
    oauth_wrong_state signer signer-Signs providers gateway "github" "github" "ab"
      (state_token signer "github" "ab" 100) 100000 800000 false (λ p. answers) (omega arith)
      (inr (omega arith))
