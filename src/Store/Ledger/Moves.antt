-- ===== src/Store/Ledger/Moves.antt =====
-- One device deployment changes its status, and the deployment's counters follow.
use deployments.Shared.{◌+◌, String, ◌≡◌, inl, inr, true, false, List, [], ◌∷◌, ◌==◌, eq_iff, arith}
use deployments.Shared.Tests.{if◌then◌else◌, Bool-cases}
use deployments.Shared.Lists.{All, count}
use deployments.Shared.Int.{ℤ, ◌+ℤ◌}
use deployments.Model.Status.{Status, null, status_eq}
use deployments.Model.Status.Laws.{to_string-status_eq, status_eq_iff}
use deployments.Model.Stats
use deployments.Model.Stats.{Stats}
use deployments.Model.Stats.Laws.{get_key-set_key}
use deployments.Model.Deployment.{Deployment}
use deployments.Model.DeviceDeployment.{DeviceDeployment, DeviceDeploymentState}
use deployments.Store.Devices.{of_device, with_state}
use deployments.Store.Deployments.{add_to, move_count}
use deployments.Store.Mongo.{Replaced}
use deployments.Store.Mongo.Laws.{count-Replaced, Replaced-passes, Replaced-All}
use deployments.Store.Ledger.{in_status, Counts, UniqueIds}

-- `$inc` on one counter changes that counter, and no other
pub get-add_to :
    (s : Stats) (a b : Status) (n : ℤ)
    → Stats.get (add_to s a n) b ≡ (if status_eq a b then Stats.get s a +ℤ n else Stats.get s b)
unfolding Stats.get
get-add_to s a b n = simp (get_key-set_key, to_string-status_eq)

-- the deployment whose device has moved
Counts-move_count :
    (ds ds' : List DeviceDeployment) (dep : Deployment) (from to : Status)
    → ((s : Status)
        → count (in_status dep.id s) ds' + (if status_eq s from then 1 else 0)
          ≡ count (in_status dep.id s) ds + (if status_eq s to then 1 else 0))
    → (status_eq from to ≡ false)
    → Counts ds dep
    → Counts ds' (move_count from to dep)
unfolding ◌+ℤ◌
Counts-move_count ds ds' dep from to moved differ counts s named =
    elim (Bool-cases (status_eq from null)) [
      | inl absent ↦ rw absent (
          simp get-add_to (
            ground (
              arith,
              moved s,
              counts s named,
              status_eq_iff from null,
              status_eq_iff s from,
              status_eq_iff s to,
              status_eq_iff to s,
              named,
            )))
      | inr present ↦ rw present (
          simp get-add_to (
            ground (
              arith,
              moved s,
              counts s named,
              status_eq_iff from to,
              status_eq_iff s from,
              status_eq_iff from s,
              status_eq_iff s to,
              status_eq_iff to s,
            )))
    ]

-- a deployment whose devices have not moved
Counts-frame :
    (ds ds' : List DeviceDeployment) (dep : Deployment)
    → ((s : Status) → count (in_status dep.id s) ds' ≡ count (in_status dep.id s) ds)
    → Counts ds dep
    → Counts ds' dep
Counts-frame ds ds' dep same counts s named = rw (same s) (counts s named)

-- a document beside the one that is updated has another id
other_id :
    (id own : String) (u : Deployment → Deployment) (dep : Deployment) (deps rest : List Deployment)
    → Replaced (λ d. d.id == id) u dep deps rest
    → All (λ e. (e.id == own) ≡ false) deps
    → (own == id) ≡ false
other_id id own u dep deps rest h distinct = ground (
  arith,
  Replaced-All (λ e. (e.id == own) ≡ false) (λ d. d.id == id) u dep deps rest h distinct,
  Replaced-passes (λ d. d.id == id) u dep deps rest h,
  eq_iff dep.id own,
  eq_iff dep.id id,
  eq_iff own id,
)

-- One device deployment of the deployment `id` takes the status of `state`.
module _ (device_id id : String) (state : DeviceDeploymentState) (old : DeviceDeployment)
    (ds ds' : List DeviceDeployment)
    (replaced : Replaced (of_device device_id id) (with_state state) old ds ds') where
  moved :
      (s : Status)
      → count (in_status id s) ds' + (if status_eq s old.status then 1 else 0)
        ≡ count (in_status id s) ds + (if status_eq s state.status then 1 else 0)
  moved s = ground (
    arith,
    count-Replaced (of_device device_id id) (with_state state) old ds ds' (in_status id s) replaced,
    Replaced-passes (of_device device_id id) (with_state state) old ds ds' replaced,
  )

  unmoved :
      (other : String) (s : Status)
      → (other == id) ≡ false
      → count (in_status other s) ds' ≡ count (in_status other s) ds
  unmoved other s differs = ground (
    arith,
    count-Replaced (of_device device_id id) (with_state state) old ds ds' (in_status other s)
        replaced,
    Replaced-passes (of_device device_id id) (with_state state) old ds ds' replaced,
    eq_iff old.deployment_id other,
    eq_iff old.deployment_id id,
    eq_iff other id,
  )

  same_counts :
      (other : String) (s : Status)
      → status_eq old.status state.status ≡ true
      → count (in_status other s) ds' ≡ count (in_status other s) ds
  same_counts other s same = ground (
    arith,
    count-Replaced (of_device device_id id) (with_state state) old ds ds' (in_status other s)
        replaced,
    status_eq_iff old.status state.status,
  )

  pub Counts-others :
      (deps : List Deployment)
      → All (λ e. (e.id == id) ≡ false) deps
      → All (Counts ds) deps
      → All (Counts ds') deps
  Counts-others [] others counts = tt
  Counts-others (e ∷ deps) others counts = (
    Counts-frame ds ds' e (λ s. unmoved e.id s others.0) counts.0,
    Counts-others deps others.1 counts.1,
  )

  pub Counts-same_status :
      (deps : List Deployment)
      → status_eq old.status state.status ≡ true
      → All (Counts ds) deps
      → All (Counts ds') deps
  Counts-same_status [] same counts = tt
  Counts-same_status (e ∷ deps) same counts = (
    Counts-frame ds ds' e (λ s. same_counts e.id s same) counts.0,
    Counts-same_status deps same counts.1,
  )

  -- The counters of the deployment `id` are moved along, and no other deployment has that id.
  pub Counts-Replaced :
      (deps deps' : List Deployment) (dep : Deployment)
      → status_eq old.status state.status ≡ false
      → UniqueIds deps
      → Replaced (λ d. d.id == id) (move_count old.status state.status) dep deps deps'
      → All (Counts ds) deps
      → All (Counts ds') deps'
  Counts-Replaced [] deps' dep differ unique h counts = absurd h
  Counts-Replaced (e ∷ deps) deps' dep differ unique (inl (here, same_dep, result)) counts =
      let same_id : e.id ≡ id = (eq_iff e.id id).0 here in
      rw result (
        Counts-move_count ds ds' e old.status state.status (rw same_id moved) differ counts.0,
        Counts-others deps (rw same_id at unique.0) counts.1,
      )
  Counts-Replaced (e ∷ deps) deps' dep differ unique (inr (rest, later, result)) counts =
      rw result (
        Counts-frame ds ds' e
            (λ s.
              unmoved e.id s (
                other_id id e.id (move_count old.status state.status) dep deps rest later unique.0))
            counts.0,
        Counts-Replaced deps rest dep differ unique.1 later counts.1,
      )
