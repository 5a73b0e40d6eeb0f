-- ===== src/Store/Ledger.antt =====
-- ledger.py: `runs` is the audit trail, `usage` the running total that admission reads.
pub mod Totals
use opendss_designer_cloud.Base.{
  ℕ, ◌+◌, String, Bool, true, false, ◌&&◌, Option, none, some, List, [], ◌∷◌, same, if◌then◌else◌,
  find?, select, take, update_where, is_some,
}
use opendss_designer_cloud.Store.{Run, Usage, Store}

abbrev pub is_usage : String → String → Usage → Bool
is_usage client period u = same u.client client && same u.period period

unfoldable pub used : Store → String → String → ℕ
used s client period = elim (find? (is_usage client period) s.usage) [
  | none ↦ 0
  | some u ↦ u.engine_seconds
]

abbrev pub charge : ℕ → Usage → Usage
charge seconds u = record u { engine_seconds = u.engine_seconds + seconds; calls = u.calls + 1 }

-- `INSERT ... ON CONFLICT(client, period) DO UPDATE`
unfoldable pub debit : List Usage → String → String → ℕ → List Usage
debit usage client period seconds =
    if is_some (find? (is_usage client period) usage)
    then update_where (is_usage client period) (charge seconds) usage
    else record { client = client; period = period; engine_seconds = seconds; calls = 1 } ∷ usage

-- `record`: both writes of the transaction. Neither can violate a constraint.
unfoldable pub record_run : Store → String → Run → Store
record_run s period run = record s {
  runs = run ∷ s.runs;
  usage = debit s.usage run.client period run.engine_seconds;
}

-- `recent`: the newest runs, of all clients or of one.
unfoldable pub recent : Store → ℕ → Option String → List Run
recent s limit none = take limit s.runs
recent s limit (some client) = take limit (select (λ r. same r.client client) s.runs)
