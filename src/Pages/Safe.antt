-- ===== src/Pages/Safe.antt =====
-- No field of a page reaches its tags.
use opendss_designer_cloud.Base.{ℕ, ◌≡◌, String}
use opendss_designer_cloud.Gateway.Messages.{or_0}
use opendss_designer_cloud.Pages.Template.{Formats, render}
use opendss_designer_cloud.Pages.Forms.{billing_message}
use opendss_designer_cloud.Pages.Account.{account}
use opendss_designer_cloud.Pages.Markup.{text, end, blank, markup, Plain, thread-Agree, Agree}
use opendss_designer_cloud.Pages.Closed.{IsClosed, signin-IsClosed}
use opendss_designer_cloud.Pages.Page.{
  Page, template, signin_page, confirm_page, email_page, message_page, billing_page, account_page,
  privacy_page, terms_page,
}
use opendss_designer_cloud.Pages.Closed.{
  magic_confirm-IsClosed, check_email-IsClosed, message-IsClosed, privacy-IsClosed, terms-IsClosed,
}
use opendss_designer_cloud.Pages.Sections.{
  account_card-IsClosed, usage_meter-IsClosed, billing_section-IsClosed,
}

template-IsClosed : (f : Formats) (date : ℕ → String) (p : Page) → IsClosed (template f date p)
unfolding template account billing_message
template-IsClosed f date (signin_page providers error on) = signin-IsClosed providers error on
template-IsClosed f date (confirm_page token) = magic_confirm-IsClosed token
template-IsClosed f date (email_page email) = check_email-IsClosed email
template-IsClosed f date (message_page title words error link label) =
    message-IsClosed title words error link label
template-IsClosed f date (billing_page title words error) =
    message-IsClosed title words error "/account" "Back to your account"
template-IsClosed f date (account_page a) =
    account_card-IsClosed f a.user a.plan _ _ a.identities a.csrf a.recent a.support_email
      (usage_meter-IsClosed f a.plan a.used (or_0 a.plan.budget_seconds))
      (billing_section-IsClosed f date a.plan a.pro a.billing a.csrf)
template-IsClosed f date (privacy_page operator email host) = privacy-IsClosed operator email host
template-IsClosed f date (terms_page operator email host) = terms-IsClosed operator email host

-- No page's tags depend on a field: whatever the account, the provider, the request and the settings put into
-- a page, its markup is that of the same page with its fields empty, and it ends outside every tag. The
-- formats of floats have no character of markup.
pub template-safe :
    (f : Formats)
    → Plain f
    → (date : ℕ → String) (p : Page)
    → (markup text (render f (template f date p))
        ≡ markup text (render f (blank (template f date p))))
      × (end text (render f (template f date p)) ≡ text)
unfolding Agree IsClosed
template-safe f ok date p =
    let (e, m) = thread-Agree f ok text text (template f date p) (template-IsClosed f date p) in
    (m, e)
