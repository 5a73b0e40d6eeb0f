-- ===== src/Gateway/StreamTests.antt =====
-- A stream whose report is cut by its chunks, and a message by an SMTP relay.
use opendss_designer_cloud.Base.{
  none, ℕ, ◌+◌, ◌≡◌, refl, true, false, ◌&&◌, Option, some, List, [], ◌∷◌, ◌++◌, same,
  if◌then◌else◌, length, arith,
}
use opendss_designer_cloud.Base.Text.Query.{codes}
use opendss_designer_cloud.Store.Ledger
use opendss_designer_cloud.Scheduler.Calls.{Lease}
use opendss_designer_cloud.Gateway.Body.{Bytes, concat}
use opendss_designer_cloud.Gateway.Callers.{Caller}
use opendss_designer_cloud.Gateway.Engine.{Request, job_of}
use opendss_designer_cloud.Gateway.Mail.{Message}
use opendss_designer_cloud.Gateway.Smtp.{
  SmtpUrl, connect_plain, starttls, login, send_message, smtp_steps, connect_steps, is_smtps,
  is_private, smtp_steps-is_private,
}
use opendss_designer_cloud.Gateway.Stream.{finish_stream, cancelled}
use opendss_designer_cloud.Gateway.Tail.{
  marker, find_all, match_here, match_marked, matched, strip_prefix, skip_blanks, numeral,
  behind_numeral, found_seconds, relay, keep_last, drop, last_of,
}
use opendss_designer_cloud.Gateway.Tail.Reports.{report_is_charged}
use opendss_designer_cloud.Gateway.Tests.{ada, gateway, plan}

abbrev caller : Caller
caller = record { client = "user:7"; plan = plan; user = some ada; refresh_session = false }

abbrev lease : Lease
lease = record { worker = "w1"; waited = 4; released = false }

abbrev request : Request
request = record { period = "2026-01"; used = 0; body = []; job = job_of caller }

abbrev chunks : List Bytes
chunks = codes "data: {\"step\": 2}\n\ndata: {\"engineSec" ∷ codes "onds\": 1.5}\n\n" ∷ []

abbrev front : Bytes
front = codes "data: {\"step\": 2}\n\ndata: {"

abbrev more : Bytes
more = codes " 1.5}\n\n"

-- Every numeral is 1500 milliseconds here.
abbrev float : Bytes → Option ℕ
float ds = some 1500

machine : Unit {0}
unfolding concat codes find_all match_here match_marked matched strip_prefix skip_blanks numeral
    behind_numeral relay keep_last drop last_of found_seconds
machine = tt

whole : concat chunks ≡ front ++ (marker ++ more)
unfolding machine
whole = refl

short : length (marker ++ more) ≡ 23
unfolding machine
short = refl

once : find_all 0 (marker ++ more) ≡ codes "1.5" ∷ []
unfolding machine
once = refl

-- The last of two numbers counts, and a name without one does not.
last_number :
    last_of (find_all 0 (codes "\"engineSeconds\":7,\"engineSeconds\": 12.5,\"engineSeconds\":x"))
    ≡ some (codes "12.5")
unfolding machine
last_number = refl

report_is_charged_example :
    Ledger.used
      (finish_stream gateway caller request 9 "/api/timeseries" cancelled true
        (found_seconds float chunks)
        700
        lease
        "r2").1.store
      "user:7"
      "2026-01"
    ≡ Ledger.used gateway.store "user:7" "2026-01"
      + (if same "user:7" "user:7" && same "2026-01" "2026-01" then 1500 else 0)
report_is_charged_example =
    report_is_charged gateway caller request 9 "/api/timeseries" cancelled float chunks front more
      (codes "1.5") 1500 700 lease "r2" "user:7" "2026-01" whole (omega (arith, short)) once refl
      refl

abbrev url : SmtpUrl
url = record {
  scheme = "smtp";
  hostname = some "mail.example";
  port = none;
  username = some "gw";
  password = none;
}

abbrev mail : Message
mail = record { to = "ada@example.com"; subject = "Hi"; body = "text" }

steps :
    smtp_steps "gw@example.com" url mail
    ≡ connect_plain "mail.example" 587
      ∷ starttls
      ∷ login "gw" ""
      ∷ send_message "gw@example.com" mail
      ∷ []
unfolding smtp_steps connect_steps is_smtps same
steps = refl

smtp_steps-is_private_example : is_private false (smtp_steps "gw@example.com" url mail) ≡ true
smtp_steps-is_private_example = smtp_steps-is_private "gw@example.com" url mail
