-- ===== src/Model/Samples.antt =====
-- Validation rules that meet the documentation of the library, for the tests.
use Prim.Native.String.{len}
use deployments.Shared.{
  ℕ, ◌≤◌, ◌≡◌, ◌≢◌, ◌↔◌, ◌⊎◌, String, Bool, true, not, ◌&&◌, ◌||◌, ◌==◌, eq_iff, arith,
}
use deployments.Shared.Tests.{leb}
use deployments.Model.Validation.{Rules}

abbrev required : String → Bool
required s = not (s == "")

pub required_iff : (s : String) → (required s ≡ true) ↔ (s ≢ "")
required_iff s = (λ h e. ground (arith, eq_iff s ""), λ n. ground (arith, eq_iff s "", n))

abbrev length_in : ℕ → ℕ → String → Bool
length_in lo hi s = s == "" || (leb lo (len s) && leb (len s) hi)

pub length_in_iff :
    (lo hi : ℕ) (s : String)
    → (length_in lo hi s ≡ true) ↔ ((s ≡ "") ⊎ ((lo ≤ len s) × (len s ≤ hi)))
length_in_iff lo hi s = (λ h. ground (arith, eq_iff s ""), λ h. ground (arith, eq_iff s ""))

abbrev pub rules : Rules
rules = record {
  required = required;
  required_iff = required_iff;
  length_in = length_in;
  length_in_iff = length_in_iff;
  is_uuid = λ s. true;
}
