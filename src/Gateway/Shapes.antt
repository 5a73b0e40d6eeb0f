-- ===== src/Gateway/Shapes.antt =====
-- The three forwarding shapes of `proxy` in app.py, by what they answer.
use opendss_designer_cloud.Base.{ℕ, Option, none, some}
use opendss_designer_cloud.Gateway.Answers.{
  EngineAnswer, json, from_worker, server_error, StreamStart, not_streamed, streaming,
}
use opendss_designer_cloud.Gateway.Proxy.{PassReply, pass_too_large, pass_crashed, passed}

pub data Shape : Type 0 where
  by_engine : EngineAnswer → Shape
  by_stream : StreamStart → Shape
  by_pass : PassReply → Shape

abbrev engine_status : EngineAnswer → Option ℕ
engine_status (json answer) = some answer.status
engine_status (from_worker code) = some code
engine_status server_error = none

-- The status of the answer; `none` is an exception.
unfoldable pub shape_status : Shape → Option ℕ
shape_status (by_engine answer) = engine_status answer
shape_status (by_stream (not_streamed answer)) = engine_status answer
shape_status (by_stream (streaming request sent headers)) = some 200
shape_status (by_pass pass_too_large) = some 413
shape_status (by_pass pass_crashed) = none
shape_status (by_pass (passed worker sent code headers)) = some code
