-- ===== src/Pages/Billing.antt =====
-- `billing_section` of pages.py: the part of the account page that sells or manages Pro.
--
-- A date is a parameter: the text that `strftime("%d %B %Y")` makes of a time.
use Prim.Native.Char.{code}
use opendss_designer_cloud.Base.{
  ℕ, String, Bool, not, Option, none, some, [], ◌∷◌, ◌++◌, ◌==◌, same, if◌then◌else◌, find?,
}
use opendss_designer_cloud.Base.Text.{join}
use opendss_designer_cloud.Store.{Subscription}
use opendss_designer_cloud.Gateway.Messages.{minutes, period_phrase, or_0}
use opendss_designer_cloud.Gateway.Plans.{Plan}
use opendss_designer_cloud.Pages.Template.{
  Template, Formats, raw, field, figure, plain, grouped, general,
}

-- The dict that the account page is given.
pub record BillingBlock : Type 0 where
  pub enabled : Bool
  pub price_text : String
  pub subscription : Option Subscription

-- `limits.get(key, 0)`
abbrev pub value_or_0 : Option (String × ℕ) → ℕ
value_or_0 none = 0
value_or_0 (some e) = e.1

unfoldable pub limit : Plan → String → ℕ
limit p key = value_or_0 (find? (λ e. same e.0 key) p.limits)

-- `s.lstrip("0")`
unfoldable pub lstrip_zeros : String → String
lstrip_zeros String.[] = ""
lstrip_zeros (String.◌∷◌ c s) =
    let rest = lstrip_zeros s in if code c == b'0' then rest else String.◌∷◌ c s

-- `when_` of a paid plan; a period's end of 0 is falsy.
unfoldable pub when_text : (ℕ → String) → Subscription → Option ℕ → String
when_text date sub none = ""
when_text date sub (some end) =
    if end == 0
    then ""
    else if sub.cancel_at_period_end
    then join "Access continues until " (join (lstrip_zeros (date end)) ", then returns to Free.")
    else join "Renews on " (join (lstrip_zeros (date end)) ".")

unfoldable pub payment_note : Subscription → Template
payment_note sub =
    if same sub.status "past_due"
    then raw
        "<p class=\"err\">The last payment did not go through. Update the card under Manage billing to keep Pro.</p>"
      ∷ []
    else []

unfoldable pub manage_section : (ℕ → String) → Subscription → String → Template
manage_section date sub csrf =
    raw "<h2>Billing</h2><p>"
    ∷ field (when_text date sub sub.current_period_end)
    ∷ raw "</p>"
    ∷ (payment_note sub
        ++ (raw "\n"
            ∷ raw
                "<form method=\"post\" action=\"/billing/portal\"><input type=\"hidden\" name=\"csrf\" value=\""
            ∷ field csrf
            ∷ raw "\">\n"
            ∷ raw "<button type=\"submit\">Manage billing</button></form>\n"
            ∷ raw
                "<p><small>Change the card, download invoices, or cancel. Cancelling keeps Pro until the end of the paid period.</small></p>"
            ∷ []))

unfoldable pub upgrade_section : Formats → BillingBlock → Plan → String → Template
upgrade_section f block pro csrf =
    raw "<h2>Pro · "
    ∷ field block.price_text
    ∷ raw "</h2>\n"
    ∷ raw "<p>"
    ∷ figure (grouped (limit pro "maxNodes"))
    ∷ raw " elements per circuit, time-series runs up to\n"
    ∷ figure (general (limit pro "timeseriesTimeoutS"))
    ∷ raw " s and cost "
    ∷ figure (grouped (limit pro "maxTimeseriesCost"))
    ∷ raw ",\n"
    ∷ field (minutes f.fixed (or_0 pro.budget_seconds))
    ∷ raw " of solver time "
    ∷ field (period_phrase pro)
    ∷ raw ", "
    ∷ figure (plain pro.concurrency)
    ∷ raw " runs at once,\n"
    ∷ raw "first in the queue.</p>\n"
    ∷ raw
        "<form method=\"post\" action=\"/billing/checkout\"><input type=\"hidden\" name=\"csrf\" value=\""
    ∷ field csrf
    ∷ raw "\">\n"
    ∷ raw "<button type=\"submit\" class=\"primary\">Upgrade to Pro</button></form>\n"
    ∷ raw
        "<p><small>Payment is handled by Stripe; no card details reach this site. Cancel any time from this page.</small></p>"
    ∷ []

-- The last two tests of `billing_section`, which also come where there is no subscription.
abbrev pub offer : Formats → BillingBlock → Option Plan → String → Template
offer f block none csrf = []
offer f block (some pro) csrf = upgrade_section f block pro csrf

unfoldable pub paid_or_offer :
    Formats
    → (ℕ → String)
    → Plan
    → Option Plan
    → BillingBlock
    → Option Subscription
    → String
    → Template
paid_or_offer f date plan pro block none csrf = offer f block pro csrf
paid_or_offer f date plan pro block (some sub) csrf =
    if same plan.id "pro" then manage_section date sub csrf else offer f block pro csrf

-- No block is the empty dict.
unfoldable pub billing_section :
    Formats → (ℕ → String) → Plan → Option Plan → Option BillingBlock → String → Template
billing_section f date plan pro none csrf = []
billing_section f date plan pro (some block) csrf =
    if not block.enabled then [] else paid_or_offer f date plan pro block block.subscription csrf
