-- ===== src/Pages/Tests.antt =====
-- The properties of the pages at one input, and a page as it is sent.
use opendss_designer_cloud.Base.{ℕ, ◌/◌, ◌≡◌, refl, String, false, none, some, [], ◌∷◌}
use opendss_designer_cloud.Base.Text.{decimal}
use opendss_designer_cloud.Base.Text.Numbers.{decimal-all_digits}
use opendss_designer_cloud.Store.{User, Identity, Run}
use opendss_designer_cloud.Gateway.Plans.{Plan}
use opendss_designer_cloud.Pages.Escape.{escape, unescape, unescape-escape}
use opendss_designer_cloud.Pages.Template.{Formats, render}
use opendss_designer_cloud.Pages.Account.{percent, round_quotient}
use opendss_designer_cloud.Pages.Page.{Page, template, account_page}
use opendss_designer_cloud.Pages.Markup.{text, end, markup, blank, Plain, digits-inert}
use opendss_designer_cloud.Pages.Safe.{template-safe}

-- Floats without their fractions.
abbrev whole : Formats
whole = record { fixed = λ digits n d. decimal (n / d); general = decimal }

whole-Plain : Plain whole
whole-Plain = record {
  fixed-inert = λ digits n d. digits-inert (decimal (n / d)) (decimal-all_digits (n / d));
  general-inert = λ n. digits-inert (decimal n) (decimal-all_digits n);
}

abbrev a_date : ℕ → String
a_date t = "05 June 2026"

abbrev a_plan : Plan
a_plan = record {
  id = "free";
  name = "Free";
  priority = 5;
  limits = ("maxNodes", 2500) ∷ ("timeseriesTimeoutS", 90) ∷ ("<b>", 1) ∷ [];
  budget_seconds = some 30000;
  budget_period = "day";
  concurrency = 1;
  pool = "member";
  message = "";
  links = [];
}

abbrev a_user : User
a_user = record {
  id = 7;
  email = "eve@example.com";
  name = some "\"><script>alert(1)</script>";
  plan = "free";
  created = 0;
  last_seen = 0;
  session_epoch = 0;
  disabled = false;
}

abbrev an_identity : Identity
an_identity = record {
  provider = "email";
  subject = "'eve'";
  user_id = 7;
  email = none;
  created = 0;
}

abbrev a_run : Run
a_run = record {
  ts = 0;
  client = "user:7";
  plan = "free";
  path = "/api/solve";
  engine_seconds = 1250;
  queue_seconds = 0;
  status = "ok";
  worker = none;
  request_id = none;
}

abbrev a_page : Page
a_page = account_page (record {
  user = a_user;
  plan = a_plan;
  used = 10000;
  identities = an_identity ∷ [];
  csrf = "abc";
  recent = a_run ∷ [];
  support_email = "help@example.com";
  billing = none;
  pro = none;
})

template-safe_example :
    (markup text (render whole (template whole a_date a_page))
      ≡ markup text (render whole (blank (template whole a_date a_page))))
    × (end text (render whole (template whole a_date a_page)) ≡ text)
template-safe_example = template-safe whole whole-Plain a_date a_page

unescape-escape_test : unescape (escape "<b>&amp;") ≡ "<b>&amp;"
unescape-escape_test = unescape-escape "<b>&amp;"

thirds : (percent 10000 30000 ≡ 33) × (percent 5 8 ≡ 62) × (percent 9 8 ≡ 100)
unfolding percent round_quotient
thirds = (refl, refl, refl)
