-- ===== src/Gateway/Trials.antt =====
-- A serializer that keeps what is signed in the open, for the tests of tokens and sign-in.
use mathlib.Core.List.{List-discrete}
use opendss_designer_cloud.Base.{
  ℕ, ◌+◌, ◌≡◌, ◌↔◌, refl, String, Bool, true, false, ◌&&◌, Option, none, some, same, leb,
  if◌then◌else◌, arith, ℕ_discrete, same_iff, same_refl, Bool-cases, inl, inr,
}
use opendss_designer_cloud.Gateway.Tokens.{Signer, Signs, Payload, Value}

String-discrete : Discrete String
String-discrete s t = elim (Bool-cases (same s t)) [
  | inl e ↦ yes ((same_iff s t).0 e)
  | inr e ↦ no (λ p. cc ((same_iff s t).1 p, e))
]

Value-discrete : Discrete Value
Value-discrete = hlevel (ℕ_discrete, String-discrete)

Payload-discrete : Discrete Payload
Payload-discrete = hlevel (ℕ_discrete, Value-discrete, String-discrete, List-discrete)

pub data Token : Type 0 where
  no_token : Token
  signed : Payload → String → ℕ → Token

pub Token-discrete : Discrete Token
Token-discrete = hlevel (ℕ_discrete, Payload-discrete, String-discrete)

unfoldable pub is_same : Token → Token → Bool
is_same a b = elim (Token-discrete a b) [ yes e ↦ true | no n ↦ false ]

is_same_iff : (a b : Token) → (is_same a b ≡ true) ↔ (a ≡ b)
unfolding is_same
is_same_iff a b = decided (Token-discrete a b)
  where
    decided : (d : Dec (a ≡ b)) → ((elim d [ yes e ↦ true | no n ↦ false ]) ≡ true) ↔ (a ≡ b)
    decided (yes e) = (λ h. e, λ h. refl)
    decided (no n) = (λ h. absurd (cc h), λ h. absurd (n h))

unfoldable pub read_token : Token → String → ℕ → ℕ → Option (Payload × ℕ)
read_token no_token salt max_age now = none
read_token (signed p made_for made) salt max_age now =
    if same made_for salt && (leb made now && leb now (made + max_age))
    then some (p, made)
    else none

unfoldable pub is_no_token : Token → Bool
is_no_token no_token = true
is_no_token (signed p salt made) = false

abbrev pub signer : Signer Token
signer = record {
  dumps = signed;
  loads = read_token;
  blank = no_token;
  is_blank = is_no_token;
  compare_digest = is_same;
}

pub signer-Signs : Signs signer
unfolding read_token is_no_token
signer-Signs = record {
  opens = λ p salt made max_age now a b. rw (same_refl salt) (ground arith);
  expires = λ p salt made max_age now a. ground arith;
  salted = λ p salt other made max_age now n. rw n refl;
  filled = λ p salt made. refl;
  compares = is_same_iff;
}
