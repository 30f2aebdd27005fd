-- ===== src/Model/Stats/Laws.antt =====
-- The counters as a total function of the status (model/device_deployment.go).
use deployments.Shared.{String, ◌≡◌, refl, List, [], ◌∷◌, arith, ◌==◌, eq_iff}
use deployments.Shared.Tests.{if◌then◌else◌}
use deployments.Shared.Int.{ℤ, pos, ◌+ℤ◌}
use deployments.Model.Status.{Status, to_string, status_eq, all_statuses}
use deployments.Model.Status.Laws.{to_string-status_eq}
use deployments.Model.Stats.{Stats, get_key, set_key, set, inc, get, zero_all, new_stats}

pub get_key-set_key :
    (key j : String) (n : ℤ) (s : Stats)
    → get_key j (set_key key n s) ≡ (if key == j then n else get_key j s)
unfolding get_key set_key
get_key-set_key key j n [] = refl
get_key-set_key key j n ((k, m) ∷ rest) =
    ground (arith, eq_iff k key, eq_iff k j, eq_iff key j, get_key-set_key key j n rest)

-- Setting one status's counter is read back, and changes no other status's counter.
pub get-set :
    (s : Stats) (a b : Status) (n : ℤ) → get (set s a n) b ≡ (if status_eq a b then n else get s b)
unfolding get set
get-set s a b n = simp (get_key-set_key, to_string-status_eq)

-- Incrementing one status's counter adds one to it, and changes no other status's counter.
pub get-inc :
    (s : Stats) (a b : Status)
    → get (inc s a) b ≡ (if status_eq a b then get s a +ℤ pos 1 else get s b)
unfolding get inc
get-inc s a b = simp (get_key-set_key, to_string-status_eq)

zero_all-get :
    (l : List Status) (s : Stats) (b : Status) → get s b ≡ pos 0 → get (zero_all l s) b ≡ pos 0
unfolding zero_all
zero_all-get [] s b h = h
zero_all-get (k ∷ l) s b h =
    zero_all-get l (set_key (to_string k) (pos 0) s) b
      (unfold get in rw get_key-set_key (ground (arith, h)))

-- all counters of a new deployment are 0
pub get-new_stats : (b : Status) → get new_stats b ≡ pos 0
unfolding new_stats
get-new_stats b = zero_all-get all_statuses [] b (unfold get get_key in refl)
