-- ===== src/Model/Stats.antt =====
-- Stats of model/device_deployment.go: the counters of a deployment, a Go map from the text of a
-- status to an `int`. A missing key reads as 0. (The bound of the 64-bit `int` is left out.)
pub mod Laws
use deployments.Shared.{ℕ, ◌≡◌, String, List, [], ◌∷◌, Option, none, some, ◌==◌}
use deployments.Shared.Tests.{if◌then◌else◌}
use deployments.Shared.Int.{ℤ, pos, ◌+ℤ◌}
use deployments.Model.Status.{Status, to_string, all_statuses}

abbrev pub Stats : Type 0
Stats = List (String × ℤ)

-- m[key]
unfoldable pub get_key : String → Stats → ℤ
get_key key [] = pos 0
get_key key ((k, n) ∷ rest) = if k == key then n else get_key key rest

-- m[key] = n
unfoldable pub set_key : String → ℤ → Stats → Stats
set_key key n [] = (key, n) ∷ []
set_key key n ((k, m) ∷ rest) = if k == key then (key, n) ∷ rest else (k, m) ∷ set_key key n rest

unfoldable pub set : Stats → Status → ℤ → Stats
set s status count = set_key (to_string status) count s

unfoldable pub inc : Stats → Status → Stats
inc s status =
    let key = to_string status in let count = get_key key s in set_key key (count +ℤ pos 1) s

unfoldable pub get : Stats → Status → ℤ
get s status = get_key (to_string status) s

zero_all : List Status → Stats → Stats
zero_all [] s = s
zero_all (k ∷ rest) s = zero_all rest (set_key (to_string k) (pos 0) s)

-- NewDeviceDeploymentStats
unfoldable pub new_stats : Stats
unfolding zero_all
new_stats = zero_all all_statuses []
