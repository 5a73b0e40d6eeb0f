-- ===== src/Main.antt =====
-- __main__.py: `main`, which serves the application of the settings, and the lines of the JSON log.
--
-- The floats of the settings are those of Config; `whole` is Python's `int` of one.
mod Tests
use opendss_designer_cloud.Base.{
  String, Bool, true, Option, none, some, List, [], ◌∷◌, ◌++◌, if◌then◌else◌, ℕ, ◌≡◌, refl,
}
use opendss_designer_cloud.Base.Int.{ℤ, pos, negsuc, add}
use opendss_designer_cloud.Config.{Config, Env, from_env}

-- The arguments of `uvicorn.run`.
pub record Serve : Type 0 where
  pub app : String
  pub host : String
  pub port : ℤ
  pub proxy_headers : Bool
  pub forwarded_allow_ips : String
  pub log_level : String
  pub timeout_graceful_shutdown : ℤ

-- The handler of the logger `opendss_gateway`: JSON, or one line of text in a format.
pub data LogFormat : Type 0 where
  json_lines : LogFormat
  text_lines : String → LogFormat

unfoldable pub log_format : Bool → LogFormat
log_format log_json =
    if log_json then json_lines else text_lines "%(asctime)s %(levelname)-7s %(name)s: %(message)s"

unfoldable pub serve_of : {F : Type 0} → (F → ℤ) → Config F → Serve
serve_of whole cfg = record {
  app = "opendss_gateway.asgi:app";
  host = cfg.host;
  port = cfg.port;
  proxy_headers = true;
  forwarded_allow_ips = "*";
  log_level = "warning";
  timeout_graceful_shutdown = add (whole cfg.drain_s) 5;
}

unfoldable pub main :
    {F : Type 0} → (String → Option F) → (ℕ → F) → (F → ℤ) → String → Env → LogFormat × Serve
main float seconds whole random env =
    let cfg = from_env float seconds random env in (log_format cfg.log_json, serve_of whole cfg)

-- What `_JsonFormatter` reads of a `LogRecord`: its texts, the formatted time, and the formatted exception.
pub record LogRecord : Type 0 where
  pub level : String
  pub logger : String
  pub message : String
  pub time : String
  pub exception : Option String

abbrev exc_field : Option String → List (String × String)
exc_field none = []
exc_field (some exc) = ("exc", exc) ∷ []

-- The dict that `format` dumps.
unfoldable pub payload : LogRecord → List (String × String)
payload r =
    ("level", r.level)
    ∷ ("logger", r.logger)
    ∷ ("message", r.message)
    ∷ ("time", r.time)
    ∷ exc_field r.exception
