-- ===== src/Pages/Sections.antt =====
-- The parts of the account page keep their fields out of their tags.
use opendss_designer_cloud.Base.{
  ℕ, refl, String, not, Option, none, some, List, [], ◌∷◌, same, ◌==◌,
}
use opendss_designer_cloud.Store.{User, Identity, Run, Subscription}
use opendss_designer_cloud.Gateway.Plans.{Plan}
use opendss_designer_cloud.Pages.Template.{Template, Formats, is_empty}
use opendss_designer_cloud.Pages.Billing.{
  BillingBlock, billing_section, manage_section, payment_note, offer, upgrade_section,
  paid_or_offer,
}
use opendss_designer_cloud.Pages.Account.{
  usage_meter, limit_rows, identity_rows, rows_of_runs, run_rows, support, name_of, account_card,
}
use opendss_designer_cloud.Pages.Markup.{next, end, thread}
use opendss_designer_cloud.Pages.Closed.{
  IsClosed, append-IsClosed, layout-IsClosed, either-IsClosed,
}

pub payment_note-IsClosed : (sub : Subscription) → IsClosed (payment_note sub)
unfolding IsClosed thread end next payment_note
payment_note-IsClosed sub = either-IsClosed (same sub.status "past_due") _ _ refl refl

pub manage_section-IsClosed :
    (date : ℕ → String) (sub : Subscription) (csrf : String)
    → IsClosed (manage_section date sub csrf)
unfolding IsClosed thread end next manage_section
manage_section-IsClosed date sub csrf =
    append-IsClosed (payment_note sub) _ (payment_note-IsClosed sub) refl

pub upgrade_section-IsClosed :
    (f : Formats) (block : BillingBlock) (pro : Plan) (csrf : String)
    → IsClosed (upgrade_section f block pro csrf)
unfolding IsClosed thread end next upgrade_section
upgrade_section-IsClosed f block pro csrf = refl

pub offer-IsClosed :
    (f : Formats) (block : BillingBlock) (pro : Option Plan) (csrf : String)
    → IsClosed (offer f block pro csrf)
unfolding IsClosed thread
offer-IsClosed f block none csrf = refl
offer-IsClosed f block (some pro) csrf = upgrade_section-IsClosed f block pro csrf

pub paid_or_offer-IsClosed :
    (f : Formats) (date : ℕ → String) (plan : Plan) (pro : Option Plan) (block : BillingBlock)
    (sub : Option Subscription) (csrf : String)
    → IsClosed (paid_or_offer f date plan pro block sub csrf)
unfolding paid_or_offer
paid_or_offer-IsClosed f date plan pro block none csrf = offer-IsClosed f block pro csrf
paid_or_offer-IsClosed f date plan pro block (some sub) csrf =
    either-IsClosed (same plan.id "pro") _ _ (manage_section-IsClosed date sub csrf)
      (offer-IsClosed f block pro csrf)

pub billing_section-IsClosed :
    (f : Formats) (date : ℕ → String) (plan : Plan) (pro : Option Plan)
    (block : Option BillingBlock) (csrf : String)
    → IsClosed (billing_section f date plan pro block csrf)
unfolding billing_section IsClosed thread
billing_section-IsClosed f date plan pro none csrf = refl
billing_section-IsClosed f date plan pro (some block) csrf =
    either-IsClosed (not block.enabled) [] _ refl
      (paid_or_offer-IsClosed f date plan pro block block.subscription csrf)

pub usage_meter-IsClosed :
    (f : Formats) (plan : Plan) (used budget : ℕ) → IsClosed (usage_meter f plan used budget)
unfolding IsClosed thread end next usage_meter
usage_meter-IsClosed f plan used budget = either-IsClosed (budget == 0) _ _ refl refl

pub limit_rows-IsClosed :
    (f : Formats) (limits : List (String × ℕ)) → IsClosed (limit_rows f limits)
unfolding IsClosed thread end next limit_rows
limit_rows-IsClosed f [] = refl
limit_rows-IsClosed f ((k, v) ∷ limits) = limit_rows-IsClosed f limits

pub identity_rows-IsClosed : (identities : List Identity) → IsClosed (identity_rows identities)
unfolding IsClosed thread end next identity_rows
identity_rows-IsClosed [] = refl
identity_rows-IsClosed (i ∷ identities) = identity_rows-IsClosed identities

pub rows_of_runs-IsClosed : (recent : List Run) → IsClosed (rows_of_runs recent)
unfolding IsClosed thread end next rows_of_runs
rows_of_runs-IsClosed [] = refl
rows_of_runs-IsClosed (r ∷ recent) = rows_of_runs-IsClosed recent

pub run_rows-IsClosed : (recent : List Run) → IsClosed (run_rows recent)
unfolding IsClosed thread end next run_rows
run_rows-IsClosed recent =
    either-IsClosed (is_empty (rows_of_runs recent)) _ _ refl (rows_of_runs-IsClosed recent)

pub support-IsClosed : (email : String) → IsClosed (support email)
unfolding IsClosed thread end next support
support-IsClosed email = either-IsClosed (same email "") _ _ refl refl

pub name_of-IsClosed : (name : Option String) → IsClosed (name_of name)
unfolding IsClosed thread end next
name_of-IsClosed none = refl
name_of-IsClosed (some name) = either-IsClosed (same name "") _ _ refl refl

pub account_card-IsClosed :
    (f : Formats) (user : User) (plan : Plan) (meter billing_html : Template)
    (identities : List Identity) (csrf : String) (recent : List Run) (email : String)
    → IsClosed meter
    → IsClosed billing_html
    → IsClosed (account_card f user plan meter billing_html identities csrf recent email)
unfolding IsClosed thread end next account_card
account_card-IsClosed f user plan meter billing_html identities csrf recent email m b =
    layout-IsClosed "Account" _ "/" (
      append-IsClosed (name_of user.name) _ (name_of-IsClosed user.name) (
        append-IsClosed meter _ m (
          append-IsClosed (limit_rows f plan.limits) _ (limit_rows-IsClosed f plan.limits) (
            append-IsClosed billing_html _ b (
              append-IsClosed (identity_rows identities) _ (identity_rows-IsClosed identities) (
                append-IsClosed (run_rows recent) _ (run_rows-IsClosed recent)
                  (append-IsClosed (support email) _ (support-IsClosed email) refl)))))))
