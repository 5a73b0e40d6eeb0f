-- ===== src/Pages/Closed.antt =====
-- The pages of sign-in, those with a message and the legal ones keep their fields out of their tags.
use opendss_designer_cloud.Base.{
  ◌≡◌, refl, ◌∙◌, String, Bool, true, false, not, ◌&&◌, Option, none, some, List, [], ◌∷◌, ◌++◌,
  same, if◌then◌else◌, arith,
}
use opendss_designer_cloud.Pages.Template.{Template, is_empty}
use opendss_designer_cloud.Pages.Layout.{layout}
use opendss_designer_cloud.Pages.Forms.{
  error_line, buttons, email_form, divider, not_switched_on, signin_card, signin, magic_confirm,
  check_email, message,
}
use opendss_designer_cloud.Pages.Markup.{text, next, end, thread, thread-append}
use opendss_designer_cloud.Pages.Legal.{contact_of, privacy, terms}

-- The template begins and ends in the text of a page.
unfoldable pub IsClosed : Template → Type 0
IsClosed ps = thread text ps ≡ some text

pub append-IsClosed : (ps qs : Template) → IsClosed ps → IsClosed qs → IsClosed (ps ++ qs)
unfolding IsClosed
append-IsClosed ps qs h k = thread-append text text ps qs h ∙ k

pub layout-IsClosed :
    (title : String) (body : Template) (app_url : String)
    → IsClosed body
    → IsClosed (layout title body app_url)
unfolding IsClosed layout thread end next
layout-IsClosed title body app_url h = append-IsClosed body _ h refl

error_line-IsClosed : (error : Option String) → IsClosed (error_line error)
unfolding error_line IsClosed thread end next
error_line-IsClosed none = refl
error_line-IsClosed (some error) = ground arith

buttons-IsClosed : (providers : List (String × String)) → IsClosed (buttons providers)
unfolding IsClosed thread end next buttons
buttons-IsClosed [] = refl
buttons-IsClosed ((pid, label) ∷ providers) = buttons-IsClosed providers

email_form-IsClosed : (on : Bool) → IsClosed (email_form on)
unfolding IsClosed thread end next
email_form-IsClosed true = refl
email_form-IsClosed false = refl

divider-IsClosed : (on : Bool) → IsClosed (divider on)
unfolding IsClosed thread end next
divider-IsClosed true = refl
divider-IsClosed false = refl

pub either-IsClosed :
    (b : Bool) (ps qs : Template) → IsClosed ps → IsClosed qs → IsClosed (if b then ps else qs)
either-IsClosed true ps qs h k = h
either-IsClosed false ps qs h k = k

not_switched_on-IsClosed : IsClosed not_switched_on
unfolding IsClosed thread end next
not_switched_on-IsClosed = refl

signin_card-IsClosed :
    (err form line links : Template)
    → IsClosed err
    → IsClosed form
    → IsClosed line
    → IsClosed links
    → IsClosed (signin_card err form line links)
unfolding IsClosed signin_card thread end next
signin_card-IsClosed err form line links e f l b = layout-IsClosed "Sign in" _ "/" (
    append-IsClosed err _ e
      (append-IsClosed form _ f (append-IsClosed line _ l (append-IsClosed links _ b refl))))

pub signin-IsClosed :
    (providers : List (String × String)) (error : Option String) (on : Bool)
    → IsClosed (signin providers error on)
unfolding signin
signin-IsClosed providers error on =
    signin_card-IsClosed _ _ _ _
      (either-IsClosed (is_empty (buttons providers) && is_empty (email_form on)) not_switched_on
        (error_line error) not_switched_on-IsClosed (error_line-IsClosed error))
      (email_form-IsClosed on)
      (divider-IsClosed (not (is_empty (buttons providers)) && not (is_empty (email_form on))))
      (buttons-IsClosed providers)

pub magic_confirm-IsClosed : (token : String) → IsClosed (magic_confirm token)
unfolding IsClosed thread end next magic_confirm
magic_confirm-IsClosed token = layout-IsClosed "Sign in" _ "/" refl

pub check_email-IsClosed : (email : String) → IsClosed (check_email email)
unfolding IsClosed thread end next check_email
check_email-IsClosed email = layout-IsClosed "Check your email" _ "/" refl

pub message-IsClosed :
    (title words : String) (error : Bool) (link label : String)
    → IsClosed (message title words error link label)
unfolding IsClosed thread end next message
message-IsClosed title words true link label = layout-IsClosed title _ "/" refl
message-IsClosed title words false link label = layout-IsClosed title _ "/" refl

pub contact_of-IsClosed : (email : String) → IsClosed (contact_of email)
unfolding IsClosed thread end next contact_of
contact_of-IsClosed email = either-IsClosed (same email "") _ _ refl refl

pub privacy-IsClosed : (operator email host : String) → IsClosed (privacy operator email host)
unfolding IsClosed thread end next privacy
privacy-IsClosed operator email host =
    layout-IsClosed "Privacy" _ "/"
      (append-IsClosed (contact_of email) _ (contact_of-IsClosed email) refl)

pub terms-IsClosed : (operator email host : String) → IsClosed (terms operator email host)
unfolding IsClosed thread end next terms
terms-IsClosed operator email host =
    let contact = contact_of-IsClosed email in
    layout-IsClosed "Terms" _ "/" (
      append-IsClosed (contact_of email) _ contact (
        append-IsClosed (contact_of email) _ contact
          (append-IsClosed (contact_of email) _ contact refl)))
