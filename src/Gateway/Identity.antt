-- ===== src/Gateway/Identity.antt =====
-- Whom `exchange_code` of auth.py takes a caller for.
use opendss_designer_cloud.Base.{
  ◌≡◌, ◌⊎◌, refl, String, Bool, true, false, Option, none, some, List, [], ◌∷◌, same, arith,
  Bool-cases, Option-cases, inl, inr,
}
use opendss_designer_cloud.Base.Text.{strip}
use opendss_designer_cloud.Base.Text.Split.{split_once}
use opendss_designer_cloud.Gateway.Emails.{valid_email, is_address}
use opendss_designer_cloud.Gateway.Providers.{
  Provider, UserInfo, EmailEntry, Answer, http_error, not_json, body, Answers, ExternalIdentity,
  identity, first_email, is_primary, is_verified, github_email, text_or_empty, usable, checked,
  github_subject, or_else, github_identity, google_identity, exchange_info, exchange_code,
}

-- Some entry of GitHub's list is verified and has the address.
abbrev pub IsListed : String → List EmailEntry → Type 0
IsListed address [] = ⊥
IsListed address (e ∷ es) = ((e.verified ≡ true) × (e.email ≡ some address)) ⊎ IsListed address es

-- The provider vouches for an address: GitHub's list, or Google's word, has it as verified.
pub data Vouched (address : String) (a : Answers) : Type 0 where
  listed : (es : List EmailEntry) → a.emails ≡ body es → IsListed address es → Vouched address a
  confirmed :
      (info : UserInfo)
      → a.info ≡ body info
      → info.email ≡ some address
      → info.email_verified ≡ true
      → Vouched address a

first_email-IsListed :
    (p : EmailEntry → Bool) (es : List EmailEntry) (address : String)
    → ((e : EmailEntry) → p e ≡ true → e.verified ≡ true)
    → first_email p es ≡ some address
    → IsListed address es
unfolding first_email
first_email-IsListed p [] address k h = cc
first_email-IsListed p (e ∷ es) address k h = elim (Bool-cases (p e)) [
  | inl y ↦ inl (k e y, (ground arith))
  | inr n ↦ inr (first_email-IsListed p es address k (ground arith))
]

github_email-IsListed :
    (es : List EmailEntry) (address : String) → github_email es ≡ some address → IsListed address es
unfolding github_email
github_email-IsListed es address h = elim (Option-cases (first_email is_primary es)) [
  | inl n ↦ first_email-IsListed is_verified es address (λ e y. y) (ground arith)
  | inr (e, y) ↦ first_email-IsListed is_primary es address (λ e y. ground arith) (ground arith)
]

-- What a checked identity is.
pub record IsIdentity (p : Provider) (a : Answers) (i : ExternalIdentity) : Type 0 where
  pub provider : i.provider ≡ p.id
  pub subject : same i.subject "" ≡ false
  pub address : String
  pub vouched : Vouched address a
  pub normal : valid_email address ≡ some i.email

blank_invalid : valid_email "" ≡ none
unfolding valid_email strip split_once is_address
blank_invalid = refl

checked_lem :
    (p : Provider) (a : Answers) (subject : String) (name email : Option String)
    (i : ExternalIdentity)
    → ((address : String) → email ≡ some address → Vouched address a)
    → checked p subject name email ≡ identity i
    → IsIdentity p a i
unfolding checked usable
checked_lem p a subject name none i v h = absurd (ground (arith, blank_invalid))
checked_lem p a subject name (some address) i v h = elim (Option-cases (valid_email address)) [
  | inl n ↦ absurd (ground arith)
  | inr (e, y) ↦ record {
    provider = ground arith;
    subject = ground arith;
    address = address;
    vouched = v address refl;
    normal = ground arith;
  }
]

github_identity_lem :
    (p : Provider) (a : Answers) (info : UserInfo) (r : Answer (List EmailEntry))
    (i : ExternalIdentity)
    → a.emails ≡ r
    → github_identity p info r ≡ identity i
    → IsIdentity p a i
unfolding github_identity
github_identity_lem p a info http_error i e h = cc
github_identity_lem p a info not_json i e h = cc
github_identity_lem p a info (body es) i e h =
    checked_lem p a (github_subject info.id) (or_else info.name info.login) (github_email es) i
      (λ address y. listed es e (github_email-IsListed es address y)) (ground arith)

exchange_info_lem :
    (p : Provider) (a : Answers) (r : Answer UserInfo) (i : ExternalIdentity)
    → a.info ≡ r
    → exchange_info p a r ≡ identity i
    → IsIdentity p a i
unfolding exchange_info google_identity
exchange_info_lem p a http_error i e h = cc
exchange_info_lem p a not_json i e h = cc
exchange_info_lem p a (body info) i e h = elim (Bool-cases (same p.id "github")) [
  | inl y ↦ github_identity_lem p a info a.emails i refl (ground arith)
  | inr n ↦ elim (Bool-cases info.email_verified) [
    | inl v ↦
        checked_lem p a (text_or_empty info.sub) info.name info.email i
          (λ address y. confirmed info e y v) (ground arith)
    | inr u ↦ absurd (ground arith)
  ]
]

-- An identity that `exchange_code` returns is of that provider, has a subject that is not empty, and
-- its email is the normal form of an address that the provider itself reports as verified.
pub exchange_code-IsIdentity :
    (p : Provider) (a : Answers) (i : ExternalIdentity)
    → exchange_code p a a.token ≡ identity i
    → IsIdentity p a i
unfolding exchange_code
exchange_code-IsIdentity p a i h = exchanged a.token h
  where
    exchanged : (r : Answer (Option String)) → exchange_code p a r ≡ identity i → IsIdentity p a i
    exchanged http_error h = cc
    exchanged not_json h = cc
    exchanged (body access) h = exchange_info_lem p a a.info i refl (ground arith)
