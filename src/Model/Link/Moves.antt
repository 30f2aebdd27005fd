-- ===== src/Model/Link/Moves.antt =====
-- How the status of an upload link changes: the step relation of the statuses, and what it keeps
-- (model/link.go, app/app.go, app/app_cmd.go).
use Prim.Native.Nat.{bit_or}
use deployments.Shared.{ℕ, ◌≤◌, arith}
use deployments.Model.Link.{
  link_status_pending, link_status_processing, link_status_completed, link_status_aborted,
  link_status_processed_bit,
}

-- one change of status
pub data Move : ℕ → ℕ → Type 0 where
  begin : Move link_status_pending link_status_processing
  beat : Move link_status_processing link_status_processing
  complete : Move link_status_processing link_status_completed
  abort : Move link_status_processing link_status_aborted
  retry : Move link_status_processing link_status_pending
  give_up : Move link_status_pending (bit_or link_status_aborted link_status_processed_bit)
  settle_completed :
      Move link_status_completed (bit_or link_status_completed link_status_processed_bit)
  settle_aborted : Move link_status_aborted (bit_or link_status_aborted link_status_processed_bit)

pub data Moves (s : ℕ) : ℕ → Type 0 where
  here : Moves s s
  next : {t u : ℕ} → Moves s t → Move t u → Moves s u

pub Moves-trans : {s t u : ℕ} → Moves s t → Moves t u → Moves s u
Moves-trans m here = m
Moves-trans m (next n step) = next (Moves-trans m n) step

-- a status from which no change leads on
pub Move-processed : {s t : ℕ} → Move s t → link_status_processed_bit ≤ s → ⊥
Move-processed begin h = omega arith
Move-processed beat h = omega arith
Move-processed complete h = omega arith
Move-processed abort h = omega arith
Move-processed retry h = omega arith
Move-processed give_up h = omega arith
Move-processed settle_completed h = omega arith
Move-processed settle_aborted h = omega arith
