-- ===== src/Gateway/Plans.antt =====
-- plans.py: the limits that a caller gets. Seconds are whole milliseconds.
use Prim.Native.Char.{code}
use opendss_designer_cloud.Base.{
  ℕ, ◌≡◌, refl, subst, ap, sym, ◌∙◌, String, Bool, true, false, ◌&&◌, Option, none, some, List, [],
  ◌∷◌, ◌==◌, same, same_iff, if◌then◌else◌, find?, is_some, arith, Bool-cases, inl, inr,
}

pub record Plan : Type 0 where
  pub id : String
  pub name : String
  pub priority : ℕ
  pub limits : List (String × ℕ)
  pub budget_seconds : Option ℕ
  pub budget_period : String
  pub concurrency : ℕ
  pub pool : String
  pub message : String
  pub links : List (String × String)

-- `strftime("%Y-%m")` and `strftime("%Y-%m-%d")` of a time.
pub record Today : Type 0 where
  pub month : String
  pub date : String

unfoldable pub period_key : Plan → Today → String
period_key p now = if same p.budget_period "month" then now.month else now.date

-- A `dict` of plans: its entries in the order of their insertion.
abbrev pub PlanDict : Type 0
PlanDict = List (String × Plan)

abbrev pub has_key {ℓ} : {V : Type ℓ} → String → String × V → Bool
has_key k e = same e.0 k

unfoldable pub lookup : PlanDict → String → Option Plan
lookup d k = elim (find? (has_key k) d) [ none ↦ none | some e ↦ some e.1 ]

-- `plans[key] = value`
unfoldable pub assign_plan : PlanDict → String → Plan → PlanDict
assign_plan [] k p = (k, p) ∷ []
assign_plan ((j, q) ∷ d) k p =
    let rest = assign_plan d k p in if same j k then (j, p) ∷ d else (j, q) ∷ rest

abbrev guest : Plan
guest = record {
  id = "guest";
  name = "Guest";
  priority = 10;
  limits =
      ("maxNodes", 10)
      ∷ ("maxEdges", 20)
      ∷ ("maxTimeseriesCost", 250000)
      ∷ ("engineResultTimeoutS", 30)
      ∷ ("timeseriesTimeoutS", 30)
      ∷ [];
  budget_seconds = some 10000;
  budget_period = "day";
  concurrency = 1;
  pool = "guest";
  message = "No account needed. {used} of {budget} of solver time used {period}.";
  links = ("Sign in", "/auth/signin") ∷ [];
}

abbrev free : Plan
free = record {
  id = "free";
  name = "Free";
  priority = 5;
  limits =
      ("maxNodes", 50)
      ∷ ("maxEdges", 100)
      ∷ ("maxTimeseriesCost", 1000000)
      ∷ ("engineResultTimeoutS", 90)
      ∷ ("timeseriesTimeoutS", 90)
      ∷ [];
  budget_seconds = some 30000;
  budget_period = "day";
  concurrency = 1;
  pool = "member";
  message = "{used} of {budget} of solver time used {period}.";
  links = ("Account", "/account") ∷ [];
}

abbrev pro : Plan
pro = record {
  id = "pro";
  name = "Pro";
  priority = 1;
  limits =
      ("maxNodes", 1000)
      ∷ ("maxEdges", 2000)
      ∷ ("maxTimeseriesCost", 3000000)
      ∷ ("engineResultTimeoutS", 90)
      ∷ ("timeseriesTimeoutS", 600)
      ∷ [];
  budget_seconds = some 3600000;
  budget_period = "month";
  concurrency = 2;
  pool = "member";
  message = "{used} of {budget} of solver time used {period}.";
  links = ("Account", "/account") ∷ [];
}

abbrev pub default_plans : PlanDict
default_plans = ("guest", guest) ∷ ("free", free) ∷ ("pro", pro) ∷ []

-- The text begins with an underscore.
abbrev is_comment : String → Bool
is_comment String.[] = false
is_comment (String.◌∷◌ c s) = code c == b'_'

-- The entries of a plans file, in their order. `none` is a value that is no object.
abbrev pub PlansFile : Type 0
PlansFile = List (String × Option Plan)

unfoldable pub add_plans : PlanDict → PlansFile → PlanDict
add_plans d [] = d
add_plans d ((k, none) ∷ raw) = add_plans d raw
add_plans d ((k, some spec) ∷ raw) =
    add_plans (if is_comment k then d else assign_plan d k (record spec { id = k })) raw

unfoldable pub has_plan : PlanDict → String → Bool
has_plan d k = is_some (lookup d k)

-- `load_plans`: `none` is its `ValueError`; no path is `none`.
unfoldable pub load_plans : Option PlansFile → Option PlanDict
load_plans none = some default_plans
load_plans (some raw) =
    let d = add_plans [] raw in
    if has_plan d "guest" && (has_plan d "free" && has_plan d "pro") then some d else none

-- Every plan of the dict stands under its own id.
abbrev pub Named : PlanDict → Type 0
Named [] = Unit
Named ((k, p) ∷ d) = (p.id ≡ k) × Named d

default_plans-Named :
    Named default_plans
    × (has_plan default_plans "guest" ≡ true)
    × (has_plan default_plans "free" ≡ true)
    × (has_plan default_plans "pro" ≡ true)
unfolding has_plan lookup same
default_plans-Named = ((refl, (refl, (refl, tt))), refl, refl, refl)

kept {ℓ} :
    {A : Type ℓ} (a b c : Bool) (x y : A)
    → (if a && (b && c) then some x else none) ≡ some y
    → (x ≡ y) × (a ≡ true) × (b ≡ true) × (c ≡ true)
kept a b c x y h = ground arith

assign_plan-Named :
    (d : PlanDict) (k : String) (p : Plan) → p.id ≡ k → Named d → Named (assign_plan d k p)
unfolding assign_plan
assign_plan-Named [] k p h v = (h, tt)
assign_plan-Named ((j, q) ∷ d) k p h (u, v) = elim (Bool-cases (same j k)) [
  | inl e ↦ rw e (ground (arith, same_iff j k), v)
  | inr e ↦ rw e (u, assign_plan-Named d k p h v)
]

add_plans-Named : (d : PlanDict) (raw : PlansFile) → Named d → Named (add_plans d raw)
unfolding add_plans
add_plans-Named d [] v = v
add_plans-Named d ((k, none) ∷ raw) v = add_plans-Named d raw v
add_plans-Named d ((k, some spec) ∷ raw) v = elim (Bool-cases (is_comment k)) [
  | inl e ↦ rw e (add_plans-Named d raw v)
  | inr e ↦ rw e (
      add_plans-Named (assign_plan d k (record spec { id = k })) raw
        (assign_plan-Named d k (record spec { id = k }) refl v))
]

-- A file that loads gives a dict in which every plan has its key as its id and in which the plans that
-- the code takes for granted are found: "guest", "free" and "pro".
pub load_plans-Named :
    (file : Option PlansFile) (d : PlanDict)
    → load_plans file ≡ some d
    → Named d × (has_plan d "guest" ≡ true) × (has_plan d "free" ≡ true) × (has_plan d "pro" ≡ true)
unfolding load_plans
load_plans-Named none d h =
    subst
      (λ e.
        Named e
        × (has_plan e "guest" ≡ true)
        × (has_plan e "free" ≡ true)
        × (has_plan e "pro" ≡ true))
      (kept true true true default_plans d h).0 default_plans-Named
load_plans-Named (some raw) d h =
    let e = add_plans [] raw in
    let (same_dict, g, f, p) =
      kept (has_plan e "guest") (has_plan e "free") (has_plan e "pro") e d h in
    (
      subst Named same_dict (add_plans-Named [] raw tt),
      ap (λ x. has_plan x "guest") (sym same_dict) ∙ g,
      ap (λ x. has_plan x "free") (sym same_dict) ∙ f,
      ap (λ x. has_plan x "pro") (sym same_dict) ∙ p,
    )
