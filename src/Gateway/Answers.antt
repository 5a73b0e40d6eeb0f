-- ===== src/Gateway/Answers.antt =====
-- The JSON answers of the solver's routes in app.py (`_busy`, `_too_large`, the 429), and `_stream_call` from its
-- guards to the headers of its answer.
use opendss_designer_cloud.Base.{
  ℕ, zero, suc, String, Option, none, some, List, [], ◌∷◌, same, if◌then◌else◌,
}
use opendss_designer_cloud.Base.Text.{decimal}
use opendss_designer_cloud.Gateway.Body.{Bytes}
use opendss_designer_cloud.Gateway.Callers.{Gateway, Caller}
use opendss_designer_cloud.Gateway.Engine.{
  Reply, over_budget, too_large, busy, relayed, crashed, Request, Admitted, answered, admitted,
  admit,
}
use opendss_designer_cloud.Gateway.Events.{sse_error}
use opendss_designer_cloud.Gateway.Headers.{Headers}
use opendss_designer_cloud.Gateway.Messages.{Fixed, exhausted_message}
use opendss_designer_cloud.Gateway.Plans.{Today}

-- `JSONResponse({"detail": detail}, status_code=status, headers=headers)`
pub record JsonAnswer : Type 0 where
  pub status : ℕ
  pub detail : String
  pub headers : List (String × String)

unfoldable pub busy_answer : String → ℕ → JsonAnswer
busy_answer detail retry = record {
  status = 503;
  detail = detail;
  headers = ("Retry-After", decimal retry) ∷ [];
}

unfoldable pub too_large_answer : JsonAnswer
too_large_answer = record {
  status = 413;
  detail = "Request too large (limit 12 MB).";
  headers = [];
}

unfoldable pub over_budget_answer : Fixed → Caller → String → JsonAnswer
over_budget_answer fixed caller request_id = record {
  status = 429;
  detail = exhausted_message fixed caller.plan;
  headers = ("X-Request-ID", request_id) ∷ [];
}

-- The worker's own answer, with its status, and a 500.
pub data EngineAnswer : Type 0 where
  json : JsonAnswer → EngineAnswer
  from_worker : ℕ → EngineAnswer
  server_error : EngineAnswer

unfoldable pub engine_answer : Fixed → Caller → String → Reply → EngineAnswer
engine_answer fixed caller request_id over_budget =
    json (over_budget_answer fixed caller request_id)
engine_answer fixed caller request_id too_large = json too_large_answer
engine_answer fixed caller request_id (busy detail retry) = json (busy_answer detail retry)
engine_answer fixed caller request_id (relayed code) = from_worker code
engine_answer fixed caller request_id crashed = server_error

-- `_stream_call`: a JSON answer, or a stream for a request with the headers for the worker and those of the
-- answer; `none` is an exception of `upstream_headers`.
pub data StreamStart : Type 0 where
  not_streamed : EngineAnswer → StreamStart
  streaming : Request → Headers → List (String × String) → StreamStart

unfoldable pub stream_headers : String → List (String × String)
stream_headers request_id =
    ("Cache-Control", "no-cache") ∷ ("X-Accel-Buffering", "no") ∷ ("X-Request-ID", request_id) ∷ []

unfoldable pub start_with : String → Request → Option Headers → StreamStart
start_with request_id r none = not_streamed server_error
start_with request_id r (some headers) = streaming r headers (stream_headers request_id)

unfoldable pub start_admitted : Fixed → Caller → String → Option Headers → Admitted → StreamStart
start_admitted fixed caller request_id headers (answered reply) =
    not_streamed (engine_answer fixed caller request_id reply)
start_admitted fixed caller request_id headers (admitted r) = start_with request_id r headers

unfoldable pub stream_call :
    Fixed → Gateway → Caller → Today → Option ℕ → List Bytes → String → Option Headers → StreamStart
stream_call fixed g caller today declared chunks request_id headers =
    start_admitted fixed caller request_id headers (admit g caller today declared chunks)

-- `s[:n]`
unfoldable pub first_chars : ℕ → String → String
first_chars zero s = ""
first_chars (suc n) String.[] = ""
first_chars (suc n) (String.◌∷◌ c s) = String.◌∷◌ c (first_chars n s)

abbrev text_or : Option String → String → String
text_or none raw = raw
text_or (some detail) raw = if same detail "" then raw else detail

-- The event for a worker that refuses: the `detail` of its JSON object, where the body is one that has it, or
-- the text of the body.
unfoldable pub refused_event : Option String → String → String
refused_event detail raw = sse_error (first_chars 500 (text_or detail raw))

-- The event for a connection that breaks.
unfoldable pub dropped_event : String
dropped_event = sse_error "The solver connection dropped. Try again in a moment."
