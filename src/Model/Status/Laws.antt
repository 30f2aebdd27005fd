-- ===== src/Model/Status/Laws.antt =====
-- Laws of the device deployment statuses (model/device_deployment.go).
use deployments.Shared.{
  String, ◌≡◌, refl, sym, ap, ◌∙◌, ◌↔◌, ◌≢◌, true, not, Option, some, inl, inr, arith, ◌==◌, eq_iff,
}
use mathlib.Core.Option.{some-injective}
use deployments.Shared.Tests.{Bool_ext, Bool-cases, if◌then◌else◌}
use mathlib.Core.Path.{subst}
use deployments.Shared.Lists.{any}
use deployments.Model.Status.{
  Status, null, failure, pause_before_install, pause_before_commit, pause_before_reboot,
  downloading, installing, rebooting, pending, success, aborted, no_artifact, already_inst,
  decommissioned, status_eq, active, marshal_text, to_string, unmarshal_text, new_status,
  all_statuses, is_finished, active_statuses, inactive_statuses,
}

-- Reading back the text of a status gives the status; the zero value is read from its text, which
-- is no status's name.
pub new_status-to_string : (s : Status) → new_status (to_string s) ≡ s
unfolding new_status to_string
new_status-to_string null = refl
new_status-to_string _ = refl

pub status_eq_refl : (s : Status) → status_eq s s ≡ true
unfolding status_eq
status_eq_refl null = refl
status_eq_refl _ = refl

pub to_string_injective : (a b : Status) → to_string a ≡ to_string b → a ≡ b
to_string_injective a b e = sym (new_status-to_string a) ∙ ap new_status e ∙ new_status-to_string b

pub status_eq→eq : (a b : Status) → status_eq a b ≡ true → a ≡ b
unfolding status_eq
status_eq→eq a b h = ground arith

pub status_eq_iff : (a b : Status) → (status_eq a b ≡ true) ↔ (a ≡ b)
status_eq_iff a b = (status_eq→eq a b, λ e. ap (status_eq a) (sym e) ∙ status_eq_refl a)

-- two statuses have one name exactly when they are one status
pub to_string-status_eq : (a b : Status) → (to_string a == to_string b) ≡ status_eq a b
to_string-status_eq a b = Bool_ext _ _ (
  λ h. (status_eq_iff a b).1 (to_string_injective a b ((eq_iff _ _).0 h)),
  λ h. (eq_iff _ _).1 (ap to_string (status_eq→eq a b h)),
)

-- one case of the `switch` of UnmarshalText
read_case :
    (name : String) (x : Status) (t : String) (s : Status) {rest : Option Status}
    → marshal_text x ≡ some name
    → (rest ≡ some s → marshal_text s ≡ some t)
    → (if t == name then some x else rest) ≡ some s
    → marshal_text s ≡ some t
read_case name x t s m otherwise h = elim (Bool-cases (t == name)) [
  | inl same ↦ cc (m, (eq_iff t name).0 same, rw same at h)
  | inr differs ↦ otherwise (rw differs at h)
]

unmarshal_text→marshal_text :
    (t : String) (s : Status) → unmarshal_text t ≡ some s → marshal_text s ≡ some t
unfolding unmarshal_text marshal_text
unmarshal_text→marshal_text t s =
    (read_case "failure" failure t s refl (
      read_case "pause_before_installing" pause_before_install t s refl (
        read_case "pause_before_committing" pause_before_commit t s refl (
          read_case "pause_before_rebooting" pause_before_reboot t s refl (
            read_case "downloading" downloading t s refl (
              read_case "installing" installing t s refl (
                read_case "rebooting" rebooting t s refl (
                  read_case "pending" pending t s refl (
                    read_case "success" success t s refl (
                      read_case "aborted" aborted t s refl (
                        read_case "noartifact" no_artifact t s refl (
                          read_case "already-installed" already_inst t s refl (
                            read_case "decommissioned" decommissioned t s refl
                              (λ h. cc))))))))))))))

marshal_text→unmarshal_text :
    (t : String) (s : Status) → marshal_text s ≡ some t → unmarshal_text t ≡ some s
unfolding unmarshal_text marshal_text
marshal_text→unmarshal_text t null h = cc
marshal_text→unmarshal_text t s h =
    subst (λ u. unmarshal_text u ≡ some s) (some-injective _ _ h) refl

-- A text is read as a status exactly when it is the text that the status is written as.
pub unmarshal_text-marshal_text :
    (t : String) (s : Status) → (unmarshal_text t ≡ some s) ↔ (marshal_text s ≡ some t)
unmarshal_text-marshal_text t s = (unmarshal_text→marshal_text t s, marshal_text→unmarshal_text t s)

-- Every status but the zero value is either active or finished, never both; it is in the list of all
-- statuses, and in just one of the lists of active and of inactive statuses, as its flags say.
pub active_or_finished :
    (s : Status)
    → s ≢ null
    → (is_finished s ≡ not (active s))
      × (any (status_eq s) all_statuses ≡ true)
      × (any (status_eq s) active_statuses ≡ active s)
      × (any (status_eq s) inactive_statuses ≡ is_finished s)
unfolding is_finished active any status_eq active_statuses inactive_statuses
active_or_finished null h = absurd (h refl)
active_or_finished _ h = (refl, refl, refl, refl)
