-- ===== src/Config.antt =====
-- config.py: the gateway's settings from the environment.
--
-- `F` is the type of Python's floats, with `float` and the default numbers of seconds as parameters; the
-- settings of that type are timeouts. `random` is the text of `secrets.token_urlsafe`.
pub mod Workers
pub mod Tests
use Prim.Native.Char.{code}
use opendss_designer_cloud.Base.{
  ℕ, ◌-◌, min, max, String, Bool, true, false, not, ◌&&◌, Option, none, some, List, [], ◌∷◌, ◌==◌,
  same, if◌then◌else◌, length,
}
use opendss_designer_cloud.Base.Int.{ℤ, pos, negsuc, pos_part}
use opendss_designer_cloud.Base.Text.{lower, strip}
use opendss_designer_cloud.Base.Text.Numbers.{int_of}
use opendss_designer_cloud.Base.Text.Split.{split_on}
use opendss_designer_cloud.Scheduler.{Scheduler, init}

-- `os.environ`
abbrev pub Env : Type 0
Env = String → Option String

abbrev pub present : Option String → String
present none = ""
present (some s) = strip s

-- `in ("1", "true", "yes", "on")`
unfoldable pub is_yes : String → Bool
is_yes s =
    if same s "1"
    then true
    else if same s "true"
    then true
    else if same s "yes"
    then true
    else same s "on"

unfoldable pub bool_of : Option String → Bool → Bool
bool_of raw default = if same (present raw) "" then default else is_yes (lower (present raw))

abbrev pub or_default {ℓ} : {A : Type ℓ} → Option A → A → A
or_default none d = d
or_default (some a) d = a

-- `_num`; `cast` is `none` where it raises.
unfoldable pub num {ℓ} : {A : Type ℓ} → Option String → A → (String → Option A) → A
num raw default cast =
    if same (present raw) "" then default else or_default (cast (present raw)) default

-- `s or default`
abbrev pub text_or : String → String → String
text_or s d = if same s "" then d else s

unfoldable pub str : Env → String → String → String
str env key default = text_or (present (env key)) default

-- `s.rstrip("/")`
abbrev slash_last : String → String
slash_last s = if same s "" then "" else String.◌∷◌ "/" s

unfoldable pub rstrip_slash : String → String
rstrip_slash String.[] = String.[]
rstrip_slash (String.◌∷◌ c s) =
    let rest = rstrip_slash s in
    if same rest "" && code c == b'/' then String.[] else String.◌∷◌ c rest

-- `s.startswith(prefix)`
unfoldable pub starts_with : String → String → Bool
starts_with s String.[] = true
starts_with String.[] (String.◌∷◌ c prefix) = false
starts_with (String.◌∷◌ d s) (String.◌∷◌ c prefix) = code d == code c && starts_with s prefix

pub record Config (F : Type 0) : Type 0 where
  pub workers : List String
  pub limits_header : String
  pub db_path : String
  pub plans_path : Option String
  pub client_ip_header : String
  pub max_queue : ℤ
  pub queue_wait_s : F
  pub guest_max_workers : Option ℤ
  pub upstream_timeout_s : F
  pub drain_s : F
  pub host : String
  pub port : ℤ
  pub log_json : Bool
  pub secret : String
  pub public_url : String
  pub cookie_secure : Option Bool
  pub github_client_id : String
  pub github_client_secret : String
  pub google_client_id : String
  pub google_client_secret : String
  pub email_mode : String
  pub email_from : String
  pub resend_api_key : String
  pub smtp_url : String
  pub magic_per_ip_hour : ℤ
  pub magic_per_email_hour : ℤ
  pub operator_name : String
  pub support_email : String
  pub stripe_secret_key : String
  pub stripe_webhook_secret : String
  pub stripe_price_id : String
  pub stripe_automatic_tax : Bool
  pub pro_price_text : String

-- `tuple(w.strip().rstrip("/") for w in parts if w.strip())`
unfoldable pub worker_urls : List String → List String
worker_urls [] = []
worker_urls (w ∷ ws) =
    let rest = worker_urls ws in if same (strip w) "" then rest else rstrip_slash (strip w) ∷ rest

abbrev pub default_workers : List String
default_workers = "http://127.0.0.1:8721" ∷ []

abbrev pub or_workers : List String → List String
or_workers [] = default_workers
or_workers (w ∷ ws) = w ∷ ws

abbrev pub or_none : String → Option String
or_none s = if same s "" then none else some s

-- `_num(raw, None, int)`
unfoldable pub optional_int : Option String → Option ℤ
optional_int raw = if same (present raw) "" then none else int_of (present raw)

unfoldable pub cookie_of : Option String → Option Bool
cookie_of raw = if same (present raw) "" then none else some (bool_of raw true)

unfoldable pub from_env : {F : Type 0} → (String → Option F) → (ℕ → F) → String → Env → Config F
from_env float seconds random env = record {
  workers = or_workers (worker_urls (split_on "," (or_default (env "GATEWAY_WORKERS") "")));
  limits_header = str env "GATEWAY_LIMITS_HEADER" "X-OpenDSS-Limits";
  db_path = str env "GATEWAY_DB" "gateway.sqlite";
  plans_path = or_none (str env "GATEWAY_PLANS" "");
  client_ip_header = lower (str env "GATEWAY_CLIENT_IP_HEADER" "x-forwarded-for");
  max_queue = num (env "GATEWAY_MAX_QUEUE") (pos 16) int_of;
  queue_wait_s = num (env "GATEWAY_QUEUE_WAIT_S") (seconds 45) float;
  guest_max_workers = optional_int (env "GATEWAY_GUEST_MAX_WORKERS");
  upstream_timeout_s = num (env "GATEWAY_UPSTREAM_TIMEOUT_S") (seconds 900) float;
  drain_s = num (env "GATEWAY_DRAIN_S") (seconds 200) float;
  host = str env "GATEWAY_HOST" "127.0.0.1";
  port = num (env "PORT") (pos 8730) int_of;
  log_json = bool_of (env "GATEWAY_LOG_JSON") false;
  secret = text_or (str env "GATEWAY_SECRET" "") random;
  public_url = rstrip_slash (str env "GATEWAY_PUBLIC_URL" "http://127.0.0.1:8730");
  cookie_secure = cookie_of (env "GATEWAY_COOKIE_SECURE");
  github_client_id = str env "GITHUB_CLIENT_ID" "";
  github_client_secret = str env "GITHUB_CLIENT_SECRET" "";
  google_client_id = str env "GOOGLE_CLIENT_ID" "";
  google_client_secret = str env "GOOGLE_CLIENT_SECRET" "";
  email_mode = lower (str env "GATEWAY_EMAIL_MODE" "log");
  email_from = str env "EMAIL_FROM" "OpenDSS Designer <no-reply@localhost>";
  resend_api_key = str env "RESEND_API_KEY" "";
  smtp_url = str env "SMTP_URL" "";
  magic_per_ip_hour = num (env "GATEWAY_MAGIC_PER_IP_HOUR") (pos 6) int_of;
  magic_per_email_hour = num (env "GATEWAY_MAGIC_PER_EMAIL_HOUR") (pos 3) int_of;
  operator_name = str env "GATEWAY_OPERATOR_NAME" "the operator";
  support_email = str env "GATEWAY_SUPPORT_EMAIL" "";
  stripe_secret_key = str env "STRIPE_SECRET_KEY" "";
  stripe_webhook_secret = str env "STRIPE_WEBHOOK_SECRET" "";
  stripe_price_id = str env "STRIPE_PRICE_ID" "";
  stripe_automatic_tax = bool_of (env "STRIPE_AUTOMATIC_TAX") false;
  pro_price_text = str env "GATEWAY_PRO_PRICE_TEXT" "$5 / month";
}

-- `max(1, min(n, len))`
unfoldable pub clamp : ℤ → ℕ → ℕ
clamp (pos n) len = max 1 (min n len)
clamp (negsuc n) len = 1

-- `guest_max_workers or len(workers)`
unfoldable pub asked : Option ℤ → ℕ → ℤ
asked none len = pos len
asked (some (pos n)) len = if n == 0 then pos len else pos n
asked (some (negsuc n)) len = negsuc n

unfoldable pub guest_workers : {F : Type 0} → Config F → ℕ
guest_workers cfg = clamp (asked cfg.guest_max_workers (length cfg.workers)) (length cfg.workers)

unfoldable pub secure_cookies : {F : Type 0} → Config F → Bool
secure_cookies cfg = or_default cfg.cookie_secure (starts_with cfg.public_url "https://")

-- `{"guest": n}`
abbrev pub guest_cap : ℕ → String → Option ℕ
guest_cap n p = if same p "guest" then some n else none

-- The scheduler that `Gateway.__init__` makes of the settings; a limit of the queue below 0 refuses
-- as 0 does.
unfoldable pub scheduler_of : {F : Type 0} → Config F → Option Scheduler
scheduler_of cfg = init cfg.workers (guest_cap (guest_workers cfg)) (pos_part cfg.max_queue)
