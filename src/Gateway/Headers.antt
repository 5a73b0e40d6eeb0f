-- ===== src/Gateway/Headers.antt =====
-- The header plumbing of app.py, and what of the settings and the request goes into it.
use Prim.Native.Char.{code}
use opendss_designer_cloud.Base.{
  ℕ, String, Bool, true, false, not, ◌&&◌, ◌||◌, Option, none, some, List, [], ◌∷◌, leb, ◌==◌, same,
  if◌then◌else◌, select,
}
use opendss_designer_cloud.Base.Text.{lower, strip, join}
use opendss_designer_cloud.Base.Text.Split.{split_on}
use opendss_designer_cloud.Billing.{member}
use opendss_designer_cloud.Config.{Config, starts_with}
use opendss_designer_cloud.Gateway.Emails.{text_length}
use opendss_designer_cloud.Gateway.Mail.{Mailer, configured}
use opendss_designer_cloud.Gateway.Messages.{Fixed, PlanBlock, describe}
use opendss_designer_cloud.Gateway.Providers.{Provider}
use opendss_designer_cloud.Gateway.Plans.{Plan}

-- `_HOP_BY_HOP`
abbrev pub hop_by_hop : List String
hop_by_hop =
    "connection" ∷ "keep-alive" ∷ "proxy-authenticate" ∷ "proxy-authorization" ∷ "te" ∷ "trailers"
    ∷ "transfer-encoding" ∷ "upgrade" ∷ "host" ∷ "content-length" ∷ "content-encoding" ∷ []

-- `_PRIVATE`
abbrev pub private_headers : List String
private_headers = "cookie" ∷ "authorization" ∷ []

-- A header's value: what came with the request, the JSON of the limits and the plan's block, or the
-- request's id.
pub data HeaderValue : Type 0 where
  received : String → HeaderValue
  limits_json : List (String × ℕ) → PlanBlock → HeaderValue
  request_id : String → HeaderValue

-- A `dict` of headers, and the pairs of `headers.items()`.
abbrev pub Headers : Type 0
Headers = List (String × HeaderValue)

abbrev pub Items : Type 0
Items = List (String × String)

-- `out[k] = v`
unfoldable pub set_header : Headers → String → HeaderValue → Headers
set_header [] k v = (k, v) ∷ []
set_header ((j, w) ∷ h) k v =
    let rest = set_header h k v in if same j k then (j, v) ∷ h else (j, w) ∷ rest

unfoldable pub get_header : Headers → String → Option HeaderValue
get_header [] k = none
get_header ((j, w) ∷ h) k = if same j k then some w else get_header h k

-- The test of the comprehension in `upstream_headers`.
unfoldable pub is_forwarded : String → String → Bool
is_forwarded limits_key k =
    not (member (lower k) hop_by_hop)
    && (not (member (lower k) private_headers) && not (same (lower k) limits_key))

unfoldable pub forward : String → Headers → Items → Headers
forward limits_key out [] = out
forward limits_key out ((k, v) ∷ items) =
    forward limits_key (if is_forwarded limits_key k then set_header out k (received v) else out)
      items

-- The mailer that `Gateway.__init__` makes.
unfoldable pub mailer_of : {F : Type 0} → Config F → Mailer
mailer_of cfg = record {
  mode = cfg.email_mode;
  from_address = cfg.email_from;
  resend_api_key = cfg.resend_api_key;
  smtp_url = cfg.smtp_url;
  sent = [];
}

unfoldable pub email_signin : {F : Type 0} → Config F → Bool
email_signin cfg =
    configured (mailer_of cfg)
    && not (same cfg.email_mode "log" && starts_with cfg.public_url "https://")

abbrev is_any : List Provider → Bool
is_any [] = false
is_any (p ∷ ps) = true

-- The providers are the enabled ones.
unfoldable pub signin_available : {F : Type 0} → Config F → List Provider → Bool
signin_available cfg ps = email_signin cfg || is_any ps

unfoldable pub is_live : String × String → Bool
is_live link = not (starts_with link.1 "/auth/")

abbrev without_links : Bool → Option PlanBlock → Option PlanBlock
without_links available none = none
without_links available (some b) =
    some (if available then b else record b { links = select is_live b.links })

unfoldable pub plan_block :
    {F : Type 0} → Fixed → Config F → List Provider → Plan → ℕ → Option PlanBlock
plan_block fixed cfg ps p used = without_links (signin_available cfg ps) (describe fixed p used)

abbrev pub with_limits : String → String → Plan → Headers → Option PlanBlock → Option Headers
with_limits header id p out none = none
with_limits header id p out (some b) =
    some
      (set_header (set_header out header (limits_json p.limits b)) "X-Request-ID" (request_id id))

-- `none` is an exception of `describe`.
unfoldable pub upstream_headers :
    {F : Type 0} → Fixed → Config F → List Provider → Items → Plan → ℕ → String → Option Headers
upstream_headers fixed cfg ps items p used id =
    with_limits cfg.limits_header id p (forward (lower cfg.limits_header) [] items)
      (plan_block fixed cfg ps p used)

unfoldable pub is_returned : String × String → Bool
is_returned item = not (member (lower item.0) hop_by_hop)

unfoldable pub return_headers : Headers → Items → Headers
return_headers out [] = out
return_headers out ((k, v) ∷ items) =
    return_headers (if is_returned (k, v) then set_header out k (received v) else out) items

unfoldable pub downstream_headers : Items → Headers
downstream_headers items = return_headers [] items

abbrev in_range : ℕ → ℕ → ℕ → Bool
in_range lo hi c = leb lo c && leb c hi

-- `[A-Za-z0-9._:-]`
unfoldable pub is_id_char : ℕ → Bool
is_id_char c =
    in_range b'A' b'Z' c
    || (in_range b'a' b'z' c
        || (in_range b'0' b'9' c || (c == b'.' || (c == b'_' || (c == b':' || c == b'-')))))

unfoldable pub all_id_chars : String → Bool
all_id_chars String.[] = true
all_id_chars (String.◌∷◌ c s) = is_id_char (code c) && all_id_chars s

-- `_SAFE_REQUEST_ID.match`; a header has no line break.
unfoldable pub is_safe_id : String → Bool
is_safe_id s = leb 1 (text_length s) && (leb (text_length s) 64 && all_id_chars s)

-- `random` is the text of `secrets.token_hex(6)`.
unfoldable pub request_id_for : Option String → String → String
request_id_for none random = join "gw-" random
request_id_for (some incoming) random = if is_safe_id incoming then incoming else join "gw-" random

abbrev first_part : List String → String
first_part [] = ""
first_part (s ∷ parts) = strip s

abbrev host_or : Option String → String
host_or none = "unknown"
host_or (some h) = h

-- `client_ip`: the configured header if it is there and not empty, else the connection's host.
unfoldable pub client_ip : Option String → Option String → String
client_ip none host = host_or host
client_ip (some forwarded) host =
    if same forwarded "" then host_or host else first_part (split_on "," forwarded)
