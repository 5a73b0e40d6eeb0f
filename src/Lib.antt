-- ===== src/Lib.antt =====
-- The gateway in front of the OpenDSS Designer's solver workers: src/opendss_gateway.
--
-- A request is identified (a signed-in user, or a guest by address), checked against the budget of the
-- caller's plan, given one of the worker slots, forwarded, and charged to the ledger. Accounts, magic
-- links, subscriptions, Stripe's events and the ledger are tables of one SQLite file; Stripe
-- reports changes of subscriptions through a webhook.
--
-- Which file is which part:
-- - Scheduler (src/opendss_gateway/scheduler.py): `Scheduler` is the class with its private fields,
--   `acquire` the method up to its `await`, `dispatch`, `eligible`, `release_worker`, `remove_waiter`
--   and `drain` the methods `_dispatch`, `_eligible`, `_release`, `_forget` and `drain`. Scheduler.Calls
--   holds what the event loop holds: the suspended calls of `acquire` and the leases, and
--   `step`, one step of any of them. A run is any list of events, so every interleaving at the
--   `await` points is one. Slots, Dispatch, Books, Limits, Invariant, Arrival, Steps, Forget, Expiry,
--   Drain and Reachable prove the invariant for `step`, Induction lifts it to runs, and
--   Guarantees, Callers, Priority, Settle, Rest and Lost draw what it promises. Refines
--   has the specification of `_dispatch`. Wait is the loop of `drain`.
-- - Store (src/opendss_gateway/store.py): the tables; Store.Users and Store.Subscriptions are the classes
--   `Users` and `Subscriptions`. Store.Ledger is src/opendss_gateway/ledger.py.
-- - Billing (src/opendss_gateway/billing.py): from `PRO_STATUSES` on, `_period_end` to `apply_event`;
--   Billing.Signature is `verify_signature` and `sign`. Billing.Webhook is `billing_webhook` of
--   src/opendss_gateway/app.py.
-- - Config (src/opendss_gateway/config.py): `Config`, `from_env` and the settings that follow from others.
-- - Gateway (src/opendss_gateway/app.py): Callers is `Gateway.identify`, `Gateway.usage` and `signout`,
--   Body is `_read_body`, Window is `_RateWindow` (Rates has its histories), Engine is `_engine_call` and
--   `_record`, Waits and Stream are `_stream_call`, Checkout is `billing_checkout`, `billing_success` and `billing_portal`, SignIn is
--   `magic_request` and `magic_verify`, Headers is `upstream_headers`, `downstream_headers`, `plan_block`, `client_ip` and
--   `request_id_for`, Proxy is `finish`, `/api/me`, `/gw/health`, the routing of `proxy` and `_passthrough`.
--   Gateway.Plans and Gateway.Messages are src/opendss_gateway/plans.py, Gateway.Mail is
--   src/opendss_gateway/mailer.py.
-- - Gateway.Tokens, Gateway.Emails and Gateway.Providers are src/opendss_gateway/auth.py: the signed tokens,
--   `valid_email`, and the providers with `exchange_code`. Gateway.OAuth is `oauth_start` and
--   `oauth_callback` of app.py, and Gateway.Links (with Issued) puts the magic link's handlers, tokens and mail
--   together. Purposes, Identity, Flow, Trust and Slides prove what these promise.
-- - Pages (src/opendss_gateway/pages.py): a page is the list of the parts of its f-strings (Template), in Layout,
--   Forms, Legal, Billing and Account, and Page is any of them. Escape is `html.escape`. Markup has the
--   scan of tags, and Closed, Sections and Safe prove that no field reaches them.
-- - What the browser is sent: Gateway.Site and Gateway.Account are the answers of the handlers, Cookies their
--   cookies, Shapes what `proxy` forwards and Served all of them, with `signin_page`, `magic_confirm`, `account_page` and the legal
--   pages of app.py; Guarded and Own say what these promise. Gateway.Authorize is `authorize_url` of auth.py,
--   with `urlencode` in Base.Text.Query.
-- - Billing.Client is the dataclass `Stripe` of billing.py, and Gateway.Payments and Redirects put its calls into the
--   handlers of Gateway.Checkout.
-- - Gateway.Tail is the end of a relayed stream in `_stream_call` and the search of `_ENGINE_SECONDS` in it,
--   Gateway.Events is `_sse_error`, and Gateway.Answers is `_busy`, `_too_large` and the start of `_stream_call`.
--   Gateway.Smtp is `_smtp` of mailer.py, and Main is src/opendss_gateway/__main__.py.
-- - Gateway.Reach is any sequence of calls of the handlers that write the store: the sign-ins, `signout`, `billing_webhook`,
--   `billing_success` and the ends of engine calls and streams. Store.Users.Grown, Billing.Kept and Gateway.Kept
--   prove what these keep of it.
-- - Base: texts, Boolean tests, lists measured by native numbers, counters.
--
-- How the state is modelled:
-- - Numbers are natural numbers, but for the settings and what is read from a text (Base.Int). What the code holds as seconds in a float (times, engine seconds,
--   budgets) is whole milliseconds, so sums are exact. A `Counter` is a function; its `-= 1` stops
--   at 0, where Python's goes below.
-- - `heapq` orders waiters by (priority, seq), and no two have the same seq, so the heap is its
--   sorted list. A future is the entry of a map at its waiter's seq, because the
--   queue and the suspended call share it.
-- - A call whose time is up, or that is cancelled, is two steps: the future is cancelled unless it is
--   done, and the `except` block runs later; a worker may be granted in between.
-- - A table is the list of its rows, newest first. A method under the store's lock is one step. A
--   violated constraint is an error that leaves the tables as they were.
-- - Texts are compared as written; `lower` and `strip` are those of ASCII.
-- - A handler that awaits is cut at its `await`: `admit` and `finish_call` of Gateway.Engine,
--   and `finish_stream` of Gateway.Stream.
--   `billing_webhook` and `billing_success`, which ask Stripe between what they read and what they write, are one step each.
-- - The serializer of itsdangerous counts whole seconds; a token's clock is the time divided by 1000.
--
-- Loops are structural recursion. Two have fuel: `decimal`, one more than the number, which is at least
-- the count of its digits; and the wait of `drain`, one more than the milliseconds of its
-- timeout, as each of its sleeps takes 200 or more.
--
-- Parameters, because they are not code of the repository: Stripe's answers (`Fetch`, the calls of
-- Gateway.Checkout, and `Post` and `Gets` for the HTTP client), the worker's answer (`Upstream`, `Response`), what a provider, Resend and the SMTP relay
-- answer, the serializer of itsdangerous (`Signer`, with its documented behaviour in `Signs`), HMAC, Python's
-- formatting and reading of floats, random texts, and the text of a date. The handlers of
-- Gateway.SignIn and Billing.Webhook take the results of the mailer and of the signature test.
--
-- Not modelled: an `x-engine-seconds` that `float` reads as negative, infinite or nan (the worker writes a time that
-- passed); what the libraries do with what they are given: the SMTP relay's answers but for whether the message
-- was taken, the server that main starts, and the log.
pub mod Base
pub mod Scheduler
pub mod Store
pub mod Billing
pub mod Gateway
pub mod Config
pub mod Pages
pub mod Main
