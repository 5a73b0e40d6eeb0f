-- ===== src/Pages/Forms.antt =====
-- The pages of sign-in, and those with a message, of pages.py.
use opendss_designer_cloud.Base.{
  String, Bool, true, false, not, ◌&&◌, Option, none, some, List, [], ◌∷◌, ◌++◌, same,
  if◌then◌else◌,
}
use opendss_designer_cloud.Pages.Template.{Template, raw, field, is_empty}
use opendss_designer_cloud.Pages.Layout.{layout}

unfoldable pub error_line : Option String → Template
error_line none = []
error_line (some error) =
    if same error "" then [] else raw "<p class=\"err\">" ∷ field error ∷ raw "</p>" ∷ []

-- The links to the providers, which are pairs of an id and a label.
unfoldable pub buttons : List (String × String) → Template
buttons [] = []
buttons ((pid, label) ∷ providers) =
    raw "<a class=\"btn\" href=\"/auth/"
    ∷ field pid
    ∷ raw "\">Continue with "
    ∷ field label
    ∷ raw "</a>"
    ∷ buttons providers

abbrev pub email_form : Bool → Template
email_form true =
    raw "\n"
    ∷ raw "<form method=\"post\" action=\"/auth/magic\">\n"
    ∷ raw "  <label for=\"email\">Email address</label>\n"
    ∷ raw
        "  <input id=\"email\" name=\"email\" type=\"email\" required autocomplete=\"email\" placeholder=\"you@example.com\">\n"
    ∷ raw
        "  <div class=\"row\"><button class=\"primary\" type=\"submit\">Email me a sign-in link</button></div>\n"
    ∷ raw "  <p><small>No password. The link works once and expires in 15 minutes.</small></p>\n"
    ∷ raw "</form>"
    ∷ []
email_form false = []

abbrev pub divider : Bool → Template
divider true = raw "<p class=\"muted\" style=\"text-align:center\">or</p>" ∷ []
divider false = []

abbrev pub not_switched_on : Template
not_switched_on =
    raw
      "<p class=\"err\">Sign-in is not switched on for this instance yet. Everything works without an account; the guest limits apply.</p>"
    ∷ []

-- The page around what the tests choose.
unfoldable pub signin_card : Template → Template → Template → Template → Template
signin_card err form line links =
    layout "Sign in"
      (raw "\n"
        ∷ raw "<div class=\"card\"><h1>Sign in to OpenDSS Designer</h1>\n"
        ∷ raw
            "<p class=\"muted\">A free account raises the guest limits: bigger circuits, longer time-series runs,\n"
        ∷ raw
            "and a monthly solver budget instead of a daily one. Nothing you draw is stored on the server in any plan.</p>\n"
        ∷ (err
            ++ ((form
                ++ ((line
                    ++ (raw "<div class=\"row\">"
                        ∷ (links
                            ++ (raw "</div>\n"
                                ∷ raw
                                    "<p><small>By signing in you agree to the <a href=\"/legal/terms\">terms</a> and <a href=\"/legal/privacy\">privacy policy</a>.</small></p>\n"
                                ∷ raw "</div>"
                                ∷ [])))))))))
      "/"

unfoldable pub signin : List (String × String) → Option String → Bool → Template
signin providers error email_enabled =
    let links = buttons providers in
    let form = email_form email_enabled in
    signin_card (if is_empty links && is_empty form then not_switched_on else error_line error) form
      (divider (not (is_empty links) && not (is_empty form))) links

unfoldable pub magic_confirm : String → Template
magic_confirm token =
    layout "Sign in"
      (raw "\n"
        ∷ raw "<div class=\"card\"><h1>Finish signing in</h1>\n"
        ∷ raw "<p class=\"muted\">Click once to sign in to OpenDSS Designer in this browser.</p>\n"
        ∷ raw
            "<form method=\"post\" action=\"/auth/magic/verify\"><input type=\"hidden\" name=\"t\" value=\""
        ∷ field token
        ∷ raw "\">\n"
        ∷ raw
            "<div class=\"row\"><button class=\"primary\" type=\"submit\">Sign in</button></div></form>\n"
        ∷ raw
            "<p><small>The link works once and expires 15 minutes after it was sent. If it has expired,\n"
        ∷ raw "<a href=\"/auth/signin\">request a new one</a>.</small></p></div>"
        ∷ [])
      "/"

unfoldable pub check_email : String → Template
check_email email =
    layout "Check your email"
      (raw "\n"
        ∷ raw "<div class=\"card\"><h1>Check your email</h1>\n"
        ∷ raw "<p class=\"ok\">If <strong>"
        ∷ field email
        ∷ raw "</strong> can receive mail, a sign-in link is on its way.</p>\n"
        ∷ raw
            "<p class=\"muted\">It expires in 15 minutes. Look in spam if it does not arrive within a minute or two;\n"
        ∷ raw "you can also <a href=\"/auth/signin\">try another way</a>.</p></div>"
        ∷ [])
      "/"

abbrev pub class_of : Bool → String
class_of error = if error then "err" else "ok"

unfoldable pub message : String → String → Bool → String → String → Template
message title text error link link_text =
    layout title
      (raw "<div class=\"card\"><h1>"
        ∷ field title
        ∷ raw "</h1><p class=\""
        ∷ raw (class_of error)
        ∷ raw "\">"
        ∷ field text
        ∷ raw "</p>\n"
        ∷ raw "<p><a class=\"btn\" href=\""
        ∷ field link
        ∷ raw "\">"
        ∷ field link_text
        ∷ raw "</a></p></div>"
        ∷ [])
      "/"

unfoldable pub billing_message : String → String → Bool → Template
billing_message title text error = message title text error "/account" "Back to your account"
