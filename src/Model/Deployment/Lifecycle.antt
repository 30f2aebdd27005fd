-- ===== src/Model/Deployment/Lifecycle.antt =====
-- The status of a deployment as a view of its devices (GetStatus of model/deployment.go).
use deployments.Shared.{◌+◌, ◌≤◌, ◌<◌, ◌≡◌, refl, Bool, not, ◌&&◌, ◌||◌, none, List, [], ◌∷◌, arith}
use deployments.Shared.Tests.{ltb, leb, nat_eq, is_some, if◌then◌else◌}
use deployments.Shared.Lists.{length, count, any}
use deployments.Shared.Int.{pos, +ℤ-pos, ltb_ℤ}
use deployments.Model.Status
use deployments.Model.Status.{Status, status_eq}
use deployments.Model.Stats
use deployments.Model.Stats.{Stats}
use deployments.Model.Deployment.{
  Deployment, finished, in_progress, pending, is_finished, is_not_pending, get_status,
}

-- the counters count the statuses of a list of device deployments
abbrev pub Tallies : Stats → List Status → Type 0
Tallies stats l = (s : Status) → Stats.get stats s ≡ pos (count (status_eq s) l)

finished_count :
    (l : List Status)
    → count (status_eq Status.already_inst) l
        + count (status_eq Status.success) l
        + count (status_eq Status.failure) l
        + count (status_eq Status.no_artifact) l
        + count (status_eq Status.decommissioned) l
        + count (status_eq Status.aborted) l
      ≡ count Status.is_finished l
unfolding count status_eq Status.is_finished
finished_count [] = refl
finished_count (Status.null ∷ l) = omega (arith, finished_count l)
finished_count (_ ∷ l) = omega (arith, finished_count l)

any-or {ℓ} :
    {A : Type ℓ} (p q : A → Bool) (l : List A) → any (λ x. p x || q x) l ≡ (any p l || any q l)
unfolding any
any-or p q [] = refl
any-or p q (x ∷ l) = ground (arith, any-or p q l)

positive-count {ℓ} :
    {A : Type ℓ} (p : A → Bool) (l : List A) → ltb_ℤ (pos 0) (pos (count p l)) ≡ any p l
unfolding any count
positive-count p [] = refl
positive-count p (x ∷ l) = ground (arith, positive-count p l)

-- how many entries pass a test, against how many there are
count-length {ℓ} :
    {A : Type ℓ} (p : A → Bool) (l : List A)
    → (count p l ≤ length l) × (nat_eq (count p l) (length l) ≡ not (any (λ x. not (p x)) l))
unfolding any count
count-length p [] = (omega arith, refl)
count-length p (x ∷ l) = ground (arith, count-length p l)

-- the statuses that make a deployment more than pending
abbrev pub begun : Status → Bool
begun s =
    status_eq Status.downloading s
    || status_eq Status.installing s
    || status_eq Status.rebooting s
    || status_eq Status.success s
    || status_eq Status.already_inst s
    || status_eq Status.failure s
    || status_eq Status.aborted s
    || status_eq Status.no_artifact s
    || status_eq Status.pause_before_install s
    || status_eq Status.pause_before_commit s
    || status_eq Status.pause_before_reboot s

module _ (d : Deployment) (l : List Status) (tallied : Tallies d.stats l) where
  is_not_pending-any : is_not_pending d ≡ any begun l
  unfolding is_not_pending
  is_not_pending-any = simp (tallied, any-or, positive-count)

  is_finished-count : is_finished d ≡ (
      is_some d.finished_at
      || (ltb 0 d.max_devices && leb d.max_devices (count Status.is_finished l)))
  unfolding is_finished
  is_finished-count = simp (tallied, +ℤ-pos, finished_count) (ground arith)

-- Let the counters of an unfinished deployment count the statuses of its device deployments, at most
-- as many as the deployment targets, which is at least one device. Then the deployment's status is
-- finished exactly when every targeted device has a device deployment and all of these are finished;
-- else it is in progress if some device has begun, and pending if none has.
pub get_status-view :
    (d : Deployment) (l : List Status)
    → Tallies d.stats l
    → d.finished_at ≡ none
    → 0 < d.max_devices
    → length l ≤ d.max_devices
    → get_status d ≡ (
        if nat_eq (length l) d.max_devices && not (any (λ s. not (Status.is_finished s)) l)
        then finished
        else if any begun l
        then in_progress
        else pending)
unfolding get_status
get_status-view d l tallied open_ended targeted fits =
    rw (is_not_pending-any d l tallied, is_finished-count d l tallied)
      (ground (arith, count-length Status.is_finished l))
