-- ===== src/Pages/Page.antt =====
-- The pages that the handlers of app.py ask for.
use opendss_designer_cloud.Base.{ℕ, String, Bool, Option, List}
use opendss_designer_cloud.Store.{User, Identity, Run}
use opendss_designer_cloud.Gateway.Plans.{Plan}
use opendss_designer_cloud.Pages.Template.{Template, Formats}
use opendss_designer_cloud.Pages.Forms.{
  magic_confirm, signin, check_email, message, billing_message,
}
use opendss_designer_cloud.Pages.Legal.{privacy, terms}
use opendss_designer_cloud.Pages.Billing.{BillingBlock}
use opendss_designer_cloud.Pages.Account.{account}

-- What the account page is about.
pub record Account : Type 0 where
  pub user : User
  pub plan : Plan
  pub used : ℕ
  pub identities : List Identity
  pub csrf : String
  pub recent : List Run
  pub support_email : String
  pub billing : Option BillingBlock
  pub pro : Option Plan

pub data Page : Type 0 where
  signin_page :
      (providers : List (String × String)) (error : Option String) (email_enabled : Bool) → Page
  confirm_page : (token : String) → Page
  email_page : (email : String) → Page
  message_page : (title text : String) (error : Bool) (link link_text : String) → Page
  billing_page : (title text : String) (error : Bool) → Page
  account_page : Account → Page
  privacy_page terms_page : (operator support_email public_host : String) → Page

unfoldable pub template : Formats → (ℕ → String) → Page → Template
template f date (signin_page providers error on) = signin providers error on
template f date (confirm_page token) = magic_confirm token
template f date (email_page email) = check_email email
template f date (message_page title words error link label) = message title words error link label
template f date (billing_page title words error) = billing_message title words error
template f date (account_page a) =
    account f date a.user a.plan a.used a.identities a.csrf a.recent a.support_email a.billing a.pro
template f date (privacy_page operator email host) = privacy operator email host
template f date (terms_page operator email host) = terms operator email host
