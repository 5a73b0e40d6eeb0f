-- ===== src/Gateway/MailTests.antt =====
-- A magic link at concrete inputs: asked for, sent, used.
use opendss_designer_cloud.Base.{ℕ, ◌≡◌, refl, String, Bool, false, Option, some, same, arith}
use opendss_designer_cloud.Base.Text.{join, lower, strip}
use opendss_designer_cloud.Base.Text.Split.{split_once}
use opendss_designer_cloud.Config.{Config, starts_with}
use opendss_designer_cloud.Config.Tests.{cfg}
use opendss_designer_cloud.Store.{User}
use opendss_designer_cloud.Store.Users
use opendss_designer_cloud.Store.Users.Valid.{IsValid}
use opendss_designer_cloud.Gateway.Callers.{Gateway}
use opendss_designer_cloud.Gateway.Emails.{
  valid_email, is_address, text_length, is_plain, has_point,
}
use opendss_designer_cloud.Gateway.Headers.{email_signin, mailer_of}
use opendss_designer_cloud.Gateway.Mail.{Mailer, Message, configured, send, resend}
use opendss_designer_cloud.Gateway.Links.{magic_form, magic_post, Mailed, link_signs_in}
use opendss_designer_cloud.Gateway.SignIn.{
  MagicReply, check_email, signed_in, link_used, magic_request, request_allowed, allow_both,
  send_link,
}
use opendss_designer_cloud.Gateway.Tests.{gateway}
use opendss_designer_cloud.Gateway.Trials.{Token, signer, signer-Signs}
use opendss_designer_cloud.Gateway.Window.{allow, drop_old}

-- The public address is an argument of its own here, so that no setting has to be read.
abbrev settings : Config ℕ
settings = record cfg {
  email_mode = "resend";
  email_from = "no-reply@grid.example";
  resend_api_key = "re";
  smtp_url = "";
  public_url = "https://grid.example";
}

abbrev delivered : Mailer → Message → Option ℕ
delivered m mail = some 200

abbrev no_relay : Mailer → Message → Bool
no_relay m mail = false

abbrev shown : Token → String
shown token = "TOKEN"

abbrev form : MagicReply × Gateway × Mailer
form =
    magic_form signer settings shown delivered no_relay gateway (mailer_of settings) 5000 "9.9.9.9"
      "n1" " Ada@Example.com"

sending : Unit {0}
unfolding magic_form magic_request request_allowed allow_both allow drop_old send_link valid_email
    is_address text_length is_plain has_point split_once strip lower same email_signin configured
    mailer_of starts_with send resend Users.issue_magic
sending = tt

form_sent : form ≡ (check_email, form.1, form.2)
unfolding sending
form_sent = refl

gateway-IsValid : IsValid gateway.store
unfolding lower
gateway-IsValid = record { users = (refl, refl, refl, tt); identities = tt; owned = tt; magic = tt }

link_signs_in_example :
    (address : String) × (token : Token) × (u : User) × (after : Gateway) × (valid_email
        " Ada@Example.com"
      ≡ some address)
    × Mailed delivered no_relay
        (mailer_of settings)
        form.2
        address
        (join settings.public_url (join "/auth/magic/verify?t=" (shown token)))
    × (magic_post signer form.1 60000 token ≡ (signed_in u, after))
    × (Users.identity_user after.store "email" address ≡ some u)
    × ((magic_post signer after 70000 token).0 ≡ link_used)
link_signs_in_example =
    link_signs_in signer signer-Signs settings shown delivered no_relay gateway form.1
      (mailer_of settings) form.2 5000 60000 70000 "9.9.9.9" "n1" " Ada@Example.com" gateway-IsValid
      form_sent (omega arith) (omega arith) (omega arith) (omega arith)
