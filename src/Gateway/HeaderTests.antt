-- ===== src/Gateway/HeaderTests.antt =====
-- Headers at concrete inputs: a client that sends the worker's own headers.
use opendss_designer_cloud.Base.{ℕ, ◌≡◌, refl, false, none, some, [], ◌∷◌, same, All}
use opendss_designer_cloud.Base.Text.{lower, join, decimal}
use opendss_designer_cloud.Billing.{member}
use opendss_designer_cloud.Gateway.Emails.{text_length}
use opendss_designer_cloud.Config.{Config}
use opendss_designer_cloud.Config.Tests.{cfg}
use opendss_designer_cloud.Gateway.Headers.{
  received, limits_json, request_id, Headers, Items, set_header, get_header, is_forwarded, forward,
  plan_block, upstream_headers, request_id_for, is_safe_id, signin_available, email_signin,
  mailer_of, all_id_chars, is_id_char,
}
use opendss_designer_cloud.Gateway.Mail.{configured}
use opendss_designer_cloud.Gateway.Messages.{Fixed, PlanBlock, describe, message_of, format}
use opendss_designer_cloud.Gateway.Tests.{plan}
use opendss_designer_cloud.Gateway.Trust.{Trusted, headers-Trusted, received_id_kept}

-- A float is its quotient's numerator here.
abbrev fixed : Fixed
fixed digits n d = decimal n

abbrev settings : Config ℕ
settings = record cfg { limits_header = "X-Limits"; email_mode = "resend"; resend_api_key = "re" }

abbrev request : Items
request =
    ("accept", "text/html")
    ∷ ("cookie", "odg_session=1")
    ∷ ("x-limits", "{}")
    ∷ ("Connection", "close")
    ∷ []

abbrev block : PlanBlock
block = record { name = "Pro"; message = none; links = [] }

abbrev headers : Headers
headers =
    ("accept", received "text/html")
    ∷ ("X-Limits", limits_json [] block)
    ∷ ("X-Request-ID", request_id "gw-1")
    ∷ []

plumbing : Unit {0}
unfolding upstream_headers forward is_forwarded set_header lower same plan_block describe message_of
    format member signin_available email_signin configured mailer_of
plumbing = tt

headers_made : upstream_headers fixed settings [] request plan 5 "gw-1" ≡ some headers
unfolding plumbing
headers_made = refl

headers-Trusted_example : All (Trusted "X-Limits" [] "gw-1") headers
headers-Trusted_example =
    headers-Trusted fixed settings [] request plan 5 "gw-1" headers headers_made

abbrev tagged : Headers
tagged =
    ("x-request-id", received "a b;c")
    ∷ ("X-Limits", limits_json [] block)
    ∷ ("X-Request-ID", request_id "gw-1")
    ∷ []

tagged_made :
    upstream_headers fixed settings [] (("x-request-id", "a b;c") ∷ []) plan 5 "gw-1" ≡ some tagged
unfolding plumbing
tagged_made = refl

unsafe_id : request_id_for (some "a b;c") "1" ≡ "gw-1"
unfolding plumbing request_id_for is_safe_id text_length all_id_chars is_id_char join
unsafe_id = refl

other_key : same "x-request-id" (lower "X-Limits") ≡ false
unfolding same lower
other_key = refl

received_id_kept_example :
    (get_header tagged "x-request-id" ≡ some (received "a b;c"))
    × (get_header tagged "X-Request-ID" ≡ some (request_id "gw-1"))
received_id_kept_example =
    received_id_kept fixed settings [] [] "a b;c" plan 5 "gw-1" tagged other_key tagged_made
