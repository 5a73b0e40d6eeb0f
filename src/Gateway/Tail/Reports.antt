-- ===== src/Gateway/Tail/Reports.antt =====
-- The report of a stream's last event is what is charged.
use opendss_designer_cloud.Base.{
  ℕ, zero, ◌+◌, ◌-◌, ◌≤◌, ◌≡◌, refl, ap, ◌∙◌, String, true, false, ◌&&◌, Option, some, List, [],
  ◌∷◌, ◌++◌, if◌then◌else◌, length, arith,
}
use opendss_designer_cloud.Base.{same}
use opendss_designer_cloud.Store.Ledger
use opendss_designer_cloud.Scheduler.Calls.{Lease}
use opendss_designer_cloud.Gateway.Callers.{Gateway, Caller}
use opendss_designer_cloud.Gateway.Engine.{Request}
use opendss_designer_cloud.Gateway.Stream.{StreamEnd, finish_stream, cost, finish_stream-cost}
use opendss_designer_cloud.Gateway.Body.{Bytes, concat}
use opendss_designer_cloud.Gateway.Tail.{
  tail_limit, drop, keep_last, relay, marker, find_all, found_seconds,
}
use opendss_designer_cloud.Gateway.Tail.Kept.{relay-concat, keep_last-append}
use opendss_designer_cloud.Gateway.Tail.Found.{find_all-report}

-- The engine seconds of a stream are those of its last report, however the stream is cut into chunks and whatever
-- comes before: if the stream ends in a text that begins with the marker, that is no longer than the tail, and
-- in which the pattern is found once, with a numeral, then that numeral is the number that is charged.
pub found_seconds-report :
    (float : Bytes → Option ℕ) (chunks : List Bytes) (front more ds : Bytes)
    → concat chunks ≡ front ++ (marker ++ more)
    → length (marker ++ more) ≤ tail_limit
    → find_all 0 (marker ++ more) ≡ ds ∷ []
    → found_seconds float chunks ≡ some (float ds)
unfolding found_seconds
found_seconds-report float chunks front more ds c l h =
    let kept = drop (length (front ++ (marker ++ more)) - tail_limit) front in
    let tail : relay [] chunks ≡ kept ++ (marker ++ more) =
      relay-concat chunks
      ∙ ap (keep_last tail_limit) c
      ∙ keep_last-append tail_limit front (marker ++ more) l in
    rw (tail, find_all-report more ds zero kept h (omega arith)) refl

-- However a stream ends, also where it is cancelled or cut off, if the report of its last event has come and the
-- closing of the worker's answer returns, then the caller's usage of the period grows by what that report says, and no other client's or period's usage changes:
-- the cut into chunks, what came before and the time that passed make no difference.
pub report_is_charged :
    (g : Gateway) (caller : Caller) (r : Request) (now : ℕ) (path : String) (end : StreamEnd)
    (float : Bytes → Option ℕ) (chunks : List Bytes) (front more ds : Bytes) (n elapsed : ℕ)
    (lease : Lease) (request_id c p : String)
    → concat chunks ≡ front ++ (marker ++ more)
    → length (marker ++ more) ≤ tail_limit
    → find_all 0 (marker ++ more) ≡ ds ∷ []
    → float ds ≡ some n
    → lease.released ≡ false
    → Ledger.used
        (finish_stream g caller r now path end true
          (found_seconds float chunks)
          elapsed
          lease
          request_id).1.store
        c
        p
      ≡ Ledger.used g.store c p + (if same caller.client c && same r.period p then n else 0)
unfolding cost
report_is_charged g caller r now path end float chunks front more ds n elapsed lease request_id c p
      w l h f o =
    let found : found_seconds float chunks ≡ some (some n) =
      found_seconds-report float chunks front more ds w l h ∙ ap (λ x. some x) f in
    let (_, _, used) =
      finish_stream-cost g caller r now path end (found_seconds float chunks) elapsed lease
        request_id c p o in
    used
    ∙ ap
        (λ x.
          Ledger.used g.store c p
          + (if same caller.client c && same r.period p then cost end x elapsed else 0))
        found
