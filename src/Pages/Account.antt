-- ===== src/Pages/Account.antt =====
-- `account` of pages.py: the account page and its tables. Times are whole milliseconds.
use Prim.Native.Char.{code}
use opendss_designer_cloud.Base.{
  ℕ, ◌+◌, ◌*◌, ◌/◌, ◌%◌, min, String, Bool, false, Option, none, some, List, [], ◌∷◌, ◌++◌, ltb,
  ◌==◌, same, if◌then◌else◌, find?,
}
use opendss_designer_cloud.Base.Text.{join, decimal}
use opendss_designer_cloud.Store.{User, Identity, Run}
use opendss_designer_cloud.Gateway.Messages.{minutes, period_phrase, or_0}
use opendss_designer_cloud.Gateway.Plans.{Plan}
use opendss_designer_cloud.Pages.Template.{
  Template, Formats, raw, field, figure, plain, fixed, commas, is_empty,
}
use opendss_designer_cloud.Pages.Layout.{layout}
use opendss_designer_cloud.Pages.Billing.{BillingBlock, billing_section}

-- `_LIMIT_LABELS`
abbrev pub limit_labels : List (String × String)
limit_labels =
    ("maxNodes", "Elements per circuit")
    ∷ ("maxEdges", "Connections per circuit")
    ∷ ("maxTimeseriesCost", "Time-series size (steps × entities)")
    ∷ ("engineResultTimeoutS", "Longest snapshot solve")
    ∷ ("timeseriesTimeoutS", "Longest time-series run")
    ∷ ("maxShapes", "Load shapes")
    ∷ ("maxShapePoints", "Points per shape")
    ∷ ("maxTotalShapePoints", "Total shape points")
    ∷ ("maxImportFiles", "Files per import")
    ∷ ("maxImportBytes", "Bytes per imported file")
    ∷ []

-- `_PROVIDER_LABELS`
abbrev pub provider_labels : List (String × String)
provider_labels = ("email", "Email link") ∷ ("github", "GitHub") ∷ ("google", "Google") ∷ []

abbrev label_or : Option (String × String) → String → String
label_or none k = k
label_or (some e) k = e.1

-- `labels.get(k, k)`
unfoldable pub label_of : List (String × String) → String → String
label_of labels k = label_or (find? (λ e. same e.0 k) labels) k

-- `s.endswith("S")`
unfoldable pub ends_with_s : String → Bool
ends_with_s String.[] = false
ends_with_s (String.◌∷◌ c s) =
    let rest = ends_with_s s in if same s "" then code c == b'S' else rest

-- `_fmt_limit`
unfoldable pub fmt_limit : Formats → String → ℕ → String
fmt_limit f key value =
    if ends_with_s key then join (f.general value) " s" else commas (decimal value)

-- What is left behind a prefix, where the text has it.
unfoldable pub behind : String → String → Option String
behind String.[] s = some s
behind (String.◌∷◌ c prefix) String.[] = none
behind (String.◌∷◌ c prefix) (String.◌∷◌ d s) =
    let rest = behind prefix s in if code c == code d then rest else none

abbrev text_or_whole : Option String → String → String
text_or_whole none s = s
text_or_whole (some rest) s = rest

-- `s.removeprefix(prefix)`
unfoldable pub without_prefix : String → String → String
without_prefix prefix s = text_or_whole (behind prefix s) s

-- `round` of a quotient: a half goes to the even neighbour.
unfoldable pub round_quotient : ℕ → ℕ → ℕ
round_quotient num den =
    if ltb (2 * (num % den)) den
    then num / den
    else if ltb den (2 * (num % den))
    then num / den + 1
    else num / den + num / den % 2

-- The share of the meter that is full.
unfoldable pub percent : ℕ → ℕ → ℕ
percent used budget = if budget == 0 then 0 else min 100 (round_quotient (100 * used) budget)

unfoldable pub usage_meter : Formats → Plan → ℕ → ℕ → Template
usage_meter f plan used budget =
    if budget == 0
    then raw "<p>Unmetered.</p>" ∷ []
    else raw "<p>"
      ∷ field (minutes f.fixed used)
      ∷ raw " of "
      ∷ field (minutes f.fixed budget)
      ∷ raw " of solver time used "
      ∷ field (period_phrase plan)
      ∷ raw ".</p><div class=\"meter\"><i style=\"width:"
      ∷ figure (plain (percent used budget))
      ∷ raw "%\"></i></div>"
      ∷ []

unfoldable pub limit_rows : Formats → List (String × ℕ) → Template
limit_rows f [] = []
limit_rows f ((k, v) ∷ limits) =
    raw "<tr><td>"
    ∷ field (label_of limit_labels k)
    ∷ raw "</td><td>"
    ∷ field (fmt_limit f k v)
    ∷ raw "</td></tr>"
    ∷ limit_rows f limits

-- `i.email or i.subject`
abbrev email_or_subject : Identity → Option String → String
email_or_subject i none = i.subject
email_or_subject i (some email) = if same email "" then i.subject else email

unfoldable pub identity_rows : List Identity → Template
identity_rows [] = []
identity_rows (i ∷ identities) =
    raw "<tr><td>"
    ∷ field (label_of provider_labels i.provider)
    ∷ raw "</td><td>"
    ∷ field (email_or_subject i i.email)
    ∷ raw "</td></tr>"
    ∷ identity_rows identities

unfoldable pub rows_of_runs : List Run → Template
rows_of_runs [] = []
rows_of_runs (r ∷ recent) =
    raw "<tr><td>"
    ∷ field (without_prefix "/api/" r.path)
    ∷ raw "</td><td>"
    ∷ figure (fixed 2 r.engine_seconds 1000)
    ∷ raw " s</td><td>"
    ∷ field r.status
    ∷ raw "</td></tr>"
    ∷ rows_of_runs recent

unfoldable pub run_rows : List Run → Template
run_rows recent =
    let rows = rows_of_runs recent in
    if is_empty rows
    then raw "<tr><td colspan=\"3\" class=\"muted\">No runs yet.</td></tr>" ∷ []
    else rows

unfoldable pub support : String → Template
support support_email =
    if same support_email ""
    then []
    else raw "<p><small>Questions or want your account deleted? Email <a href=\"mailto:"
      ∷ field support_email
      ∷ raw "\">"
      ∷ field support_email
      ∷ raw "</a>.</small></p>"
      ∷ []

abbrev name_shown : String → Template
name_shown name = if same name "" then [] else raw " · " ∷ field name ∷ []

abbrev pub name_of : Option String → Template
name_of none = []
name_of (some name) = name_shown name

-- The page around the meter and the billing part.
unfoldable pub account_card :
    Formats
    → User
    → Plan
    → Template
    → Template
    → List Identity
    → String
    → List Run
    → String
    → Template
account_card f user plan meter billing_html identities csrf recent support_email =
    layout "Account"
      (raw "\n"
        ∷ raw "<div class=\"card\"><h1>Your account</h1>\n"
        ∷ raw "<p>"
        ∷ field user.email
        ∷ (name_of user.name
            ++ (raw "</p>\n"
                ∷ raw "<h2>"
                ∷ field plan.name
                ∷ raw " plan</h2>"
                ∷ (meter
                    ++ (raw "\n"
                        ∷ raw "<table><tbody>"
                        ∷ (limit_rows f plan.limits
                            ++ (raw "</tbody></table>\n"
                                ∷ (billing_html
                                    ++ (raw "\n"
                                        ∷ raw "<h2>Sign-in methods</h2><table><tbody>"
                                        ∷ (identity_rows identities
                                            ++ (raw "</tbody></table>\n"
                                                ∷ raw
                                                    "<p class=\"muted\"><small>Signing in another way with the same email address links it to this account.</small></p>\n"
                                                ∷ raw
                                                    "<h2>Recent runs</h2><table><thead><tr><th>Call</th><th>Engine time</th><th>Result</th></tr></thead><tbody>"
                                                ∷ (run_rows recent
                                                    ++ (raw "</tbody></table>\n"
                                                        ∷ raw
                                                            "<form method=\"post\" action=\"/auth/signout\" class=\"row\">\n"
                                                        ∷ raw
                                                            "  <input type=\"hidden\" name=\"csrf\" value=\""
                                                        ∷ field csrf
                                                        ∷ raw "\">\n"
                                                        ∷ raw
                                                            "  <button type=\"submit\">Sign out</button>\n"
                                                        ∷ raw
                                                            "  <button type=\"submit\" name=\"everywhere\" value=\"1\">Sign out everywhere</button>\n"
                                                        ∷ raw "</form>\n"
                                                        ∷ (support support_email
                                                            ++ (raw "\n"
                                                            ∷ raw "</div>"
                                                            ∷ [])))))))))))))))
      "/"

unfoldable pub account :
    Formats
    → (ℕ → String)
    → User
    → Plan
    → ℕ
    → List Identity
    → String
    → List Run
    → String
    → Option BillingBlock
    → Option Plan
    → Template
account f date user plan used identities csrf recent support_email block pro =
    account_card f user plan (usage_meter f plan used (or_0 plan.budget_seconds))
      (billing_section f date plan pro block csrf) identities csrf recent support_email
