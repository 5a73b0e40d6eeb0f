-- ===== src/Gateway/Reach.antt =====
-- The handlers of app.py that write the store, as the calls of one gateway in the order in which
-- they take effect, and what holds of the store after any such calls.
use opendss_designer_cloud.Base.{true, false, ℕ, String, Bool, Option, List, [], ◌∷◌}
use opendss_designer_cloud.Scheduler.Calls.{Lease}
use opendss_designer_cloud.Billing.{Fetch}
use opendss_designer_cloud.Billing.Webhook.{Delivery, webhook}
use opendss_designer_cloud.Billing.Kept.{Kept, record_run-Kept}
use opendss_designer_cloud.Gateway.Callers.{Gateway, Caller, signout}
use opendss_designer_cloud.Gateway.Tokens.{Signer}
use opendss_designer_cloud.Gateway.Providers.{Provider, Answers}
use opendss_designer_cloud.Gateway.OAuth.{oauth_callback, find_provider}
use opendss_designer_cloud.Gateway.SignIn.{magic_request, magic_verify}
use opendss_designer_cloud.Gateway.Checkout.{Looked, billing_success}
use opendss_designer_cloud.Gateway.Engine.{Request, Upstream, finish_call}
use opendss_designer_cloud.Gateway.Stream.{StreamEnd, finish_stream, stream_status, stream_seconds}
use opendss_designer_cloud.Gateway.Kept.{stream_store-Kept}
use opendss_designer_cloud.Gateway.Kept.SignIn.{
  magic_request-Kept, magic_verify-Kept, signout-Kept, callback-Kept,
}
use opendss_designer_cloud.Gateway.Kept.Paid.{webhook-Kept, billing_success-Kept}

-- A call of a handler with what it reads, the answers of the mailer, of the providers and of Stripe among it; a
-- call of an engine at its end, where it is charged.
pub data Call (Token : Type 0) : Type 0 where
  asks_link : ℕ → Bool → String → String → Option String → Bool → Call Token
  uses_link : ℕ → Option (String × String) → Call Token
  comes_back : List Provider → ℕ → String → Token → Token → Bool → (Provider → Answers) → Call Token
  signs_out : Option Caller → Bool → Bool → Call Token
  delivers : Bool → Fetch → ℕ → Delivery → Call Token
  confirms : (String → Option Looked) → Fetch → Bool → ℕ → Caller → String → Call Token
  ends_call : Caller → Request → ℕ → String → Upstream → Lease → String → Call Token
  ends_stream :
      Caller
      → Request
      → ℕ
      → String
      → StreamEnd
      → Bool
      → Option (Option ℕ)
      → ℕ
      → Lease
      → String
      → Call Token

module _ {Token : Type 0} (s : Signer Token) where
  -- The gateway after a call.
  unfoldable pub handle : Call Token → Gateway → Gateway
  handle (asks_link now on ip nonce address sent) g =
      (magic_request g now on ip nonce address sent).1
  handle (uses_link now link) g = (magic_verify g now link).1
  handle (comes_back ps now k state cookie error answers) g =
      (oauth_callback s ps g now k state cookie error answers).1
  handle (signs_out caller csrf everywhere) g = signout g caller csrf everywhere
  handle (delivers enabled fetch now d) g = record g {
    store = (webhook enabled fetch g.store now d).1;
  }
  handle (confirms look fetch enabled now caller id) g =
      (billing_success look fetch enabled g now caller id).1
  handle (ends_call caller r now path up lease id) g =
      (finish_call g caller r now path up lease id).2
  handle (ends_stream caller r now path end closes found elapsed lease id) g =
      (finish_stream g caller r now path end closes found elapsed lease id).1

  unfoldable pub handle_all : List (Call Token) → Gateway → Gateway
  handle_all [] g = g
  handle_all (c ∷ cs) g = handle_all cs (handle c g)

  handle-Kept : (c : Call Token) (g : Gateway) → Kept g.store → Kept (handle c g).store
  unfolding handle oauth_callback finish_call finish_stream
  handle-Kept (asks_link now on ip nonce address sent) g h =
      magic_request-Kept g now on ip nonce address sent h
  handle-Kept (uses_link now link) g h = magic_verify-Kept g now link h
  handle-Kept (comes_back ps now k state cookie error answers) g h =
      callback-Kept s g now k state cookie error answers (find_provider ps k) h
  handle-Kept (signs_out caller csrf everywhere) g h = signout-Kept g caller csrf everywhere h
  handle-Kept (delivers enabled fetch now d) g h = webhook-Kept enabled fetch g.store now d h
  handle-Kept (confirms look fetch enabled now caller id) g h =
      billing_success-Kept look fetch enabled g now caller id h
  handle-Kept (ends_call caller r now path up lease id) g h = record_run-Kept g.store r.period _ h
  handle-Kept (ends_stream caller r now path end false found elapsed lease id) g h = h
  handle-Kept (ends_stream caller r now path end true found elapsed lease id) g h =
      stream_store-Kept _ caller r now path (stream_status end) lease id
        (stream_seconds found (stream_status end) elapsed) h

  -- From a store that is Kept, after whatever calls of the handlers, in whatever order and whatever the
  -- mailer, the providers and Stripe answer, the store is Kept: ids, emails and identities are
  -- well formed, every user's plan is the one of the user's subscription, every subscription has its
  -- user, and the totals of usage are the sums over the runs.
  pub handle_all-Kept :
      (cs : List (Call Token)) (g : Gateway) → Kept g.store → Kept (handle_all cs g).store
  unfolding handle_all
  handle_all-Kept [] g h = h
  handle_all-Kept (c ∷ cs) g h = handle_all-Kept cs (handle c g) (handle-Kept c g h)
