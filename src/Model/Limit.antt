-- ===== src/Model/Limit.antt =====
-- Limits of a tenant (model/limit.go). A value is a uint64, a number below 2^64.
use deployments.Shared.{ℕ, String, Bool, List, [], ◌∷◌, ◌==◌}
use deployments.Shared.Tests.{ltb}
use deployments.Shared.Lists.{any}

pub record Limit : Type 0 where
  pub name : String
  pub value : ℕ

abbrev pub valid_limits : List String
valid_limits = "storage" ∷ []

unfoldable pub is_less : Limit → ℕ → Bool
is_less l what = ltb what l.value

unfoldable pub is_valid_limit : String → Bool
is_valid_limit name = any (λ n. name == n) valid_limits
