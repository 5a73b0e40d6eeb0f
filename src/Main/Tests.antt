-- ===== src/Main/Tests.antt =====
-- The server of the default settings, but for a port.
use opendss_designer_cloud.Base.{none, some, same, if◌then◌else◌, ◌≡◌, refl}
use opendss_designer_cloud.Base.Int.{pos, add}
use opendss_designer_cloud.Base.Text.{strip}
use opendss_designer_cloud.Base.Text.Numbers.{int_of, read_int, read_digits}
use opendss_designer_cloud.Config.{Env, from_env, num, str, bool_of}
use opendss_designer_cloud.Main.{LogFormat, Serve, log_format, serve_of, main}

abbrev env : Env
env k = if same k "PORT" then some "9000" else none

abbrev served : LogFormat × Serve
served = main (λ s. none) (λ n. n) pos "secret" env

machine : Unit {0}
unfolding main from_env num str bool_of same strip int_of read_int read_digits serve_of add
    log_format
machine = tt

graceful : served.1.timeout_graceful_shutdown ≡ pos 205
unfolding machine
graceful = refl

port : served.1.port ≡ pos 9000
unfolding machine
port = refl
