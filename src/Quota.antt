-- ===== src/Quota.antt =====
-- tobiko/openstack/nova/_quota_set.py and tobiko/openstack/neutron/_quota_set.py: the limits of a
-- project, raised where they are below what a fixture requires. The service is a parameter.
pub mod Ensuring
pub mod Fitting
pub mod Settling
pub mod Converging
mod Examples
use Prim.Native.Nat.{◌/◌}
use tobiko.Prelude.{
  ℕ, ◌+◌, String, Bool, true, false, not, Option, none, some, List, [], ◌∷◌, Result, ok, err, ◌>>=◌,
  ltb, map, if◌then◌else◌,
}
use tobiko.Prelude.Dict.{Dict}
use tobiko.Time.{ℤ, pos, negsuc, clamp}
use tobiko.Retry.Loop.{Clock}

-- A quota of a detailed quota set; a negative limit is none. Nova says `in_use`, Neutron `used`.
pub record Quota : Type 0 where
  pub limit : ℤ
  pub in_use : ℤ
  pub reserved : ℤ

-- The quota of a name, where the set has one.
abbrev pub QuotaSet : Type 0
QuotaSet = String → Option Quota

-- `actual_limits` and `expected_limits`, which have the same names.
abbrev pub Increase : Type 0
Increase = Dict (ℕ × ℕ)

pub data QuotaError (E : Type 0) : Type 0 where
  -- EnsureNovaQuotaLimitsError and EnsureNeutronQuotaLimitsError
  quota_limits : Increase → QuotaError E
  -- the set has no quota of the name
  no_quota : String → QuotaError E
  service : E → QuotaError E
  broken_loop : QuotaError E
  -- a loop that did not end within the fuel
  out_of_fuel : QuotaError E

-- `required_limit >= limit`
abbrev pub nova_over : ℕ → ℕ → Bool
nova_over required limit = not (ltb required limit)

-- `required_limit > limit`
abbrev pub neutron_over : ℕ → ℕ → Bool
neutron_over required limit = ltb limit required

abbrev pub required_limit : Quota → ℕ → ℕ
required_limit quota needed = clamp quota.in_use + clamp quota.reserved + needed

-- The calls for a project, or for a user of it.
pub record QuotaService (W E : Type 0) : Type 0 where
  pub clock : Clock W
  pub get_quota_set : Option String → W → Result E QuotaSet × W
  pub set_quota_set : Option String → Dict ℕ → W → Result E (Unit {0}) × W

-- `required_quotas` is a dictionary: its names, and a number for each.
module _ (over : ℕ → ℕ → Bool) (needed : String → ℕ) (extra_increase : ℕ) where
  abbrev pub judge : ℤ → ℕ → Option (ℕ × ℕ)
  judge (negsuc n) required = none
  judge (pos limit) required =
      if over required limit then some (limit, required + extra_increase) else none

  abbrev pub quota_increase : Quota → String → Option (ℕ × ℕ)
  quota_increase quota name = judge quota.limit (required_limit quota (needed name))

  abbrev entry : {E : Type 0} → Option Quota → String → Result (QuotaError E) (Option (ℕ × ℕ))
  entry none name = err (no_quota name)
  entry (some quota) name = ok (quota_increase quota name)

  abbrev pub add : String → Option (ℕ × ℕ) → Increase → Increase
  add name none rest = rest
  add name (some limits) rest = (name, limits) ∷ rest

  unfoldable pub get_quota_limits_increase :
      {E : Type 0} → QuotaSet → List String → Result (QuotaError E) Increase
  get_quota_limits_increase quotas [] = ok []
  get_quota_limits_increase quotas (name ∷ names) = do
    limits ← entry (quotas name) name
    rest ← get_quota_limits_increase quotas names
    ok (add name limits rest)

abbrev pub expected_limits : Increase → Dict ℕ
expected_limits [] = []
expected_limits ((name, limits) ∷ rest) = (name, limits.1) ∷ expected_limits rest
