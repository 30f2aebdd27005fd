-- ===== src/Model/Validation.antt =====
-- The rules of the validation library that the service's structs name. The library is not part of
-- the service: its rules are a parameter, with what its documentation says of them.
use Prim.Native.String.{len}
use deployments.Shared.{ℕ, ◌≤◌, ◌≡◌, ◌↔◌, ◌≢◌, ◌⊎◌, String, Bool, true}

pub record Rules : Type 0 where
  -- validation.Required on a text: it is not the empty text
  pub required : String → Bool
  pub required_iff : (s : String) → (required s ≡ true) ↔ (s ≢ "")
  -- validation.Length(lo, hi): the length in bytes is in the range; an empty text passes
  pub length_in : ℕ → ℕ → String → Bool
  pub length_in_iff :
      (lo hi : ℕ) (s : String)
      → (length_in lo hi s ≡ true) ↔ ((s ≡ "") ⊎ ((lo ≤ len s) × (len s ≤ hi)))
  -- is.UUID
  pub is_uuid : String → Bool
