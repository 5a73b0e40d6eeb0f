-- ===== src/Store/Ledger/Totals.antt =====
-- The running totals of `usage` agree with the audit trail in `runs`.
use mathlib.Core.Path.{subst₂}
use opendss_designer_cloud.Base.{
  ap, Option-cases, ℕ, ◌+◌, ◌≡◌, refl, ◌∙◌, String, true, false, ◌&&◌, inl, inr, none, some, List,
  [], ◌∷◌, arith, same, same_iff, same_refl, if◌then◌else◌, find?, update_where, is_some, total,
  Bool-cases,
}
use opendss_designer_cloud.Store.{Run, Usage, Store, empty}
use opendss_designer_cloud.Store.Ledger.{is_usage, used, charge, debit, record_run}

-- `PRIMARY KEY (client, period)`
abbrev pub IsKeyed : List Usage → Type 0
IsKeyed [] = Unit {0}
IsKeyed (u ∷ us) = (find? (is_usage u.client u.period) us ≡ none) × IsKeyed us

charged :
    (client period c p : String) (n : ℕ) (us : List Usage)
    → find? (is_usage c p) (update_where (is_usage client period) (charge n) us)
      ≡ elim (find? (is_usage c p) us) [
        | none ↦ none
        | some u ↦ some (if same client c && same period p then charge n u else u)
      ]
charged client period c p n [] = refl
charged client period c p n (u ∷ us) = ground (
  arith,
  charged client period c p n us,
  same_iff u.client client,
  same_iff u.period period,
  same_iff u.client c,
  same_iff u.period p,
  same_iff client c,
  same_iff period p,
)

used_self :
    (s : Store) (period : String) (run : Run)
    → used (record_run s period run) run.client period
      ≡ used s run.client period + run.engine_seconds
unfolding used record_run debit
used_self s period run = elim (Option-cases (find? (is_usage run.client period) s.usage)) [
  | inl e ↦ ground (arith, same_refl run.client, same_refl period)
  | inr (u, e) ↦ ground (
    arith,
    charged run.client period run.client period run.engine_seconds s.usage,
    same_refl run.client,
    same_refl period,
  )
]

used_other :
    (s : Store) (period : String) (run : Run) (c p : String)
    → (same run.client c && same period p) ≡ false
    → used (record_run s period run) c p ≡ used s c p
unfolding used record_run debit
used_other s period run c p h = elim (Option-cases (find? (is_usage run.client period) s.usage)) [
  | inl e ↦ ground arith
  | inr (u, e) ↦ ground (arith, charged run.client period c p run.engine_seconds s.usage)
]

-- After a run is recorded, `used` of its client and period has grown by the run's engine seconds,
-- and that of any other client or period is as before.
pub used-record_run :
    (s : Store) (period : String) (run : Run) (c p : String)
    → used (record_run s period run) c p
      ≡ used s c p + (if same run.client c && same period p then run.engine_seconds else 0)
used-record_run s period run c p = elim (Bool-cases (same run.client c && same period p)) [
  | inl e ↦
      let a : run.client ≡ c = ground (arith, same_iff run.client c) in
      let b : period ≡ p = ground (arith, same_iff period p) in
      rw (e, ← a, ← b) (used_self s period run)
  | inr e ↦ rw e (used_other s period run c p e ∙ omega arith)
]

-- The engine seconds and the calls of a client, over all periods, and over the audit trail.
abbrev pub seconds_of : String → Usage → ℕ
seconds_of c u = if same u.client c then u.engine_seconds else 0

abbrev pub calls_of : String → Usage → ℕ
calls_of c u = if same u.client c then u.calls else 0

abbrev pub ran_seconds : String → Run → ℕ
ran_seconds c r = if same r.client c then r.engine_seconds else 0

abbrev pub ran_once : String → Run → ℕ
ran_once c r = if same r.client c then 1 else 0

find?-charge :
    (client period c p : String) (n : ℕ) (us : List Usage)
    → find? (is_usage c p) us ≡ none
    → find? (is_usage c p) (update_where (is_usage client period) (charge n) us) ≡ none
find?-charge client period c p n us h = ground (arith, charged client period c p n us)

absent_seconds :
    (client period c : String) (n : ℕ) (us : List Usage)
    → find? (is_usage client period) us ≡ none
    → update_where (is_usage client period) (charge n) us ≡ us
absent_seconds client period c n [] h = refl
absent_seconds client period c n (u ∷ us) h = ground (arith, absent_seconds client period c n us)

module _ (client period c : String) (n : ℕ) where
  abbrev due : ℕ → ℕ
  due m = if same client c then m else 0

  charge-total :
      (us : List Usage)
      → IsKeyed us
      → is_some (find? (is_usage client period) us) ≡ true
      → let vs = update_where (is_usage client period) (charge n) us in
        (total (seconds_of c) vs ≡ total (seconds_of c) us + due n)
        × (total (calls_of c) vs ≡ total (calls_of c) us + due 1)
  charge-total [] k h = cc
  charge-total (u ∷ us) k h = elim (Bool-cases (is_usage client period u)) [
    | inl e ↦
        let a : u.client ≡ client = ground (arith, same_iff u.client client) in
        let b : u.period ≡ period = ground (arith, same_iff u.period period) in
        let f : find? (is_usage client period) us ≡ none =
          subst₂ (λ x y. find? (is_usage x y) us ≡ none) a b k.0 in
        ground (arith, absent_seconds client period c n us f, ap (λ x. same x c) a)
    | inr e ↦ ground (arith, charge-total us k.1)
  ]

debit-IsKeyed :
    (us : List Usage) (client period : String) (n : ℕ)
    → IsKeyed us
    → IsKeyed (debit us client period n)
unfolding debit
debit-IsKeyed us client period n k = elim (Option-cases (find? (is_usage client period) us)) [
  | inl e ↦ rw e (e, k)
  | inr (u, e) ↦ rw e (keys us k)
]
  where
    keys :
        (vs : List Usage)
        → IsKeyed vs
        → IsKeyed (update_where (is_usage client period) (charge n) vs)
    keys [] h = tt
    keys (v ∷ vs) h = (
      elim (Bool-cases (is_usage client period v)) [
        | inl e ↦ rw e (find?-charge client period v.client v.period n vs h.0)
        | inr e ↦ rw e (find?-charge client period v.client v.period n vs h.0)
      ],
      keys vs h.1,
    )

-- The tables agree: for every client the totals of `usage` are the sums over `runs`.
pub record Balanced (s : Store) : Type 0 where
  pub keyed : IsKeyed s.usage
  pub seconds : (c : String) → total (seconds_of c) s.usage ≡ total (ran_seconds c) s.runs
  pub calls : (c : String) → total (calls_of c) s.usage ≡ total (ran_once c) s.runs

debit-total :
    (us : List Usage) (client period c : String) (n : ℕ)
    → IsKeyed us
    → (total (seconds_of c) (debit us client period n)
        ≡ total (seconds_of c) us + due client period c n n)
      × (total (calls_of c) (debit us client period n)
          ≡ total (calls_of c) us + due client period c n 1)
unfolding debit
debit-total us client period c n k = elim (Option-cases (find? (is_usage client period) us)) [
  | inl e ↦ rw e (omega arith, omega arith)
  | inr (u, e) ↦ rw e (charge-total client period c n us k (rw e))
]

pub record_run-Balanced :
    (s : Store) (period : String) (run : Run) → Balanced s → Balanced (record_run s period run)
unfolding record_run
record_run-Balanced s period run b = record {
  keyed = debit-IsKeyed s.usage run.client period run.engine_seconds b.keyed;
  seconds = λ c.
      ground
        (arith, b.seconds c, debit-total s.usage run.client period c run.engine_seconds b.keyed);
  calls = λ c.
      ground (arith, b.calls c, debit-total s.usage run.client period c run.engine_seconds b.keyed);
}

unfoldable pub record_all : Store → List (String × Run) → Store
record_all s [] = s
record_all s ((period, run) ∷ rest) = record_all (record_run s period run) rest

record_all-Balanced :
    (s : Store) (entries : List (String × Run)) → Balanced s → Balanced (record_all s entries)
unfolding record_all
record_all-Balanced s [] b = b
record_all-Balanced s ((period, run) ∷ rest) b =
    record_all-Balanced (record_run s period run) rest (record_run-Balanced s period run b)

-- A ledger that starts empty, after any runs are recorded: each client and period has one row of
-- `usage`, and for every client the seconds and the calls in `usage` are those of the audit trail.
pub ledger_balances : (entries : List (String × Run)) → Balanced (record_all empty entries)
ledger_balances entries =
    record_all-Balanced empty entries
      (record { keyed = tt; seconds = λ c. refl; calls = λ c. refl })
