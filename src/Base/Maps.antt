-- ===== src/Base/Maps.antt =====
-- A Python `Counter` keyed by texts, and the futures of the event loop keyed by number, as functions.
use Prim.Native.Nat.{ℕ, ◌+◌, ◌-◌}
use Prim.Native.String.{String}
use opendss_designer_cloud.Base.Tests.{same, ◌==◌, if◌then◌else◌}

abbrev pub Counter : Type 0
Counter = String → ℕ

-- `counter[key] += 1`
abbrev pub increment : String → Counter → Counter
increment k c j = if same k j then c j + 1 else c j

-- `counter[key] -= 1`, which stops at 0 here.
abbrev pub decrement : String → Counter → Counter
decrement k c j = if same k j then c j - 1 else c j

abbrev pub assign {ℓ} : {V : Type ℓ} → ℕ → V → (ℕ → V) → ℕ → V
assign k v m j = if k == j then v else m j
