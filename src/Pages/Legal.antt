-- ===== src/Pages/Legal.antt =====
-- `privacy` and `terms` of pages.py.
use opendss_designer_cloud.Base.{String, [], ◌∷◌, ◌++◌, same, if◌then◌else◌}
use opendss_designer_cloud.Pages.Template.{Template, raw, field}
use opendss_designer_cloud.Pages.Layout.{layout}

unfoldable pub contact_of : String → Template
contact_of support_email =
    if same support_email ""
    then raw "the address on the site" ∷ []
    else raw "<a href=\"mailto:"
      ∷ field support_email
      ∷ raw "\">"
      ∷ field support_email
      ∷ raw "</a>"
      ∷ []

unfoldable pub privacy : String → String → String → Template
privacy operator support_email public_host =
    layout "Privacy"
      (raw "\n"
        ∷ raw "<div class=\"card\"><h1>Privacy policy</h1>\n"
        ∷ raw "<p class=\"muted\">For the hosted instance at "
        ∷ field public_host
        ∷ raw ", operated by "
        ∷ field operator
        ∷ raw ". Last updated 2026-09-05.</p>\n"
        ∷ raw "\n"
        ∷ raw "<h2>The short version</h2>\n"
        ∷ raw
            "<p>Your circuits are never stored on the server. Every solve sends the circuit to the solver, which works on it in\n"
        ∷ raw
            "memory and returns the result; nothing about it is written to disk or logged. What the service does keep is the\n"
        ∷ raw
            "minimum needed to run accounts and fair-use limits: an email address, how you signed in, and how many seconds of\n"
        ∷ raw "solver time you have used.</p>\n"
        ∷ raw "\n"
        ∷ raw "<h2>What is collected, and why</h2>\n"
        ∷ raw "<table><tbody>\n"
        ∷ raw
            "<tr><td><strong>Without an account</strong></td><td>Your IP address, used as the key for the guest solver budget and\n"
        ∷ raw
            "kept in a usage log with the time, the API call, and the solver seconds it took. Standard web-server access logs are\n"
        ∷ raw "kept for a short period for security and debugging.</td></tr>\n"
        ∷ raw
            "<tr><td><strong>With an account</strong></td><td>Your email address; a display name if GitHub or Google supplied one;\n"
        ∷ raw
            "which sign-in methods you have used and their provider identifiers; the plan you are on; and the same usage log,\n"
        ∷ raw "keyed to your account instead of your address.</td></tr>\n"
        ∷ raw
            "<tr><td><strong>Never</strong></td><td>Circuits, load shapes, results, or anything you draw. No passwords (there are\n"
        ∷ raw
            "none). No analytics or advertising trackers. No third-party scripts on the pages.</td></tr>\n"
        ∷ raw "</tbody></table>\n"
        ∷ raw "\n"
        ∷ raw "<h2>Cookies</h2>\n"
        ∷ raw
            "<p>One cookie holds your signed-in session for up to 30 days; one short-lived cookie protects the sign-in flow. The\n"
        ∷ raw
            "designer itself keeps your work in your own browser's storage, which never leaves your device.</p>\n"
        ∷ raw "\n"
        ∷ raw "<h2>Third parties</h2>\n"
        ∷ raw
            "<p>Sign-in links are delivered by an email provider, which sees the address and the message. GitHub or Google, if\n"
        ∷ raw
            "you choose them, tell the service your verified email address and a stable identifier; the service asks for\n"
        ∷ raw
            "nothing else. Payments for the paid plan are taken by Stripe on Stripe's own pages: card details go to Stripe\n"
        ∷ raw
            "and never to this service, which keeps only a Stripe customer id, a subscription id and its status (active,\n"
        ∷ raw
            "past due, cancelled) so it knows which plan you are on. Cloudflare sits in front of the site and sees traffic the way any CDN does. Optional data fetchers\n"
        ∷ raw
            "in the designer (NREL load profiles, NSRDB irradiance) contact those public services only when you ask them to,\n"
        ∷ raw
            "and an NSRDB API key you enter is sent to NSRDB and cached results are shared; it is not stored by this service.</p>\n"
        ∷ raw "\n"
        ∷ raw "<h2>Retention and deletion</h2>\n"
        ∷ raw
            "<p>The usage log is kept for up to 13 months for capacity planning and abuse handling. Accounts are kept until you\n"
        ∷ raw
            "ask for deletion, which removes the account, its sign-in identities and its usage rows. Email "
        ∷ (contact_of support_email
            ++ (raw " from the\n"
                ∷ raw "address on the account.</p>\n"
                ∷ raw "\n"
                ∷ raw "<h2>Your rights</h2>\n"
                ∷ raw
                    "<p>You can see what is held about you on your account page. You can ask for a copy or for deletion at any time.\n"
                ∷ raw
                    "If you are in a jurisdiction with data-protection rights (GDPR, UK GDPR, CCPA and similar), those rights apply\n"
                ∷ raw "and the same address is the way to exercise them.</p>\n"
                ∷ raw "\n"
                ∷ raw "<h2>Changes</h2>\n"
                ∷ raw
                    "<p>Changes to this policy are noted here with a new date. Nothing in it will be changed to start storing circuits\n"
                ∷ raw "without a clear, separate announcement.</p>\n"
                ∷ raw "</div>"
                ∷ [])))
      "/"

unfoldable pub terms : String → String → String → Template
terms operator support_email public_host =
    layout "Terms"
      (raw "\n"
        ∷ raw "<div class=\"card\"><h1>Terms of service</h1>\n"
        ∷ raw "<p class=\"muted\">For the hosted instance at "
        ∷ field public_host
        ∷ raw ", operated by "
        ∷ field operator
        ∷ raw ". Last updated 2026-09-05.</p>\n"
        ∷ raw "\n"
        ∷ raw "<h2>What this is</h2>\n"
        ∷ raw
            "<p>A hosted copy of OpenDSS Designer, free software released under the GNU AGPL v3. You may also run the same\n"
        ∷ raw
            "software yourself, without limits and without these terms; see the project's source repository. These terms\n"
        ∷ raw "cover only the use of this hosted instance.</p>\n"
        ∷ raw "\n"
        ∷ raw "<h2>Fair use</h2>\n"
        ∷ raw
            "<p>Each plan has published limits on circuit size, run length and solver time, and they are enforced\n"
        ∷ raw
            "automatically. Do not try to work around them, share one account between many people, or run automated load\n"
        ∷ raw "against the service. Accounts that do may be limited or removed.</p>\n"
        ∷ raw "\n"
        ∷ raw "<h2>Your work</h2>\n"
        ∷ raw
            "<p>Circuits you draw are yours. The service does not store them and claims no rights over them or over results.\n"
        ∷ raw
            "Because they are not stored, the service cannot recover them for you: keep your own copies (the designer's Save\n"
        ∷ raw "button, and its autosave in your browser).</p>\n"
        ∷ raw "\n"
        ∷ raw "<h2>Accounts</h2>\n"
        ∷ raw
            "<p>You need a working email address. Keep it current; it is the only way sign-in links and notices reach you. You\n"
        ∷ raw "may delete your account at any time by emailing "
        ∷ (contact_of support_email
            ++ (raw ".</p>\n"
                ∷ raw "\n"
                ∷ raw "<h2>No warranty</h2>\n"
                ∷ raw
                    "<p>The service is provided as is, without warranty of any kind. Power-flow results depend on the model you build;\n"
                ∷ raw
                    "check them before relying on them for any engineering decision. The operator is not liable for losses arising\n"
                ∷ raw
                    "from the use of the service or its unavailability, to the fullest extent the law allows.</p>\n"
                ∷ raw "\n"
                ∷ raw "<h2>Paid plan and billing</h2>\n"
                ∷ raw
                    "<p>The Pro plan is a subscription billed by Stripe at the price and interval shown at checkout, in advance,\n"
                ∷ raw
                    "renewing automatically until cancelled. You can cancel at any time from your account page; access continues to the end\n"
                ∷ raw
                    "of the period already paid for and no further charges are made. Payments already made are not refunded for\n"
                ∷ raw
                    "partial periods, except where the law requires or where the service was unavailable for a substantial part of a\n"
                ∷ raw "period, in which case email "
                ∷ (contact_of support_email
                    ++ (raw
                          ". If a renewal payment fails, Pro continues for a short grace period while\n"
                        ∷ raw
                            "Stripe retries, after which the account returns to the Free plan. Prices and limits may change with notice on\n"
                        ∷ raw "this page; a change applies from your next renewal.</p>\n"
                        ∷ raw "\n"
                        ∷ raw "<h2>Availability and changes</h2>\n"
                        ∷ raw
                            "<p>This is a small service run on modest hardware. It may be interrupted for maintenance or by failure, and the\n"
                        ∷ raw
                            "limits, plans and these terms may change; material changes are announced on this page with a new date.</p>\n"
                        ∷ raw "\n"
                        ∷ raw "<h2>Contact</h2>\n"
                        ∷ raw "<p>"
                        ∷ (contact_of support_email ++ (raw ".</p>\n" ∷ raw "</div>" ∷ [])))))))
      "/"
