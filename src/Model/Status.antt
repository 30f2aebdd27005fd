-- ===== src/Model/Status.antt =====
-- DeviceDeploymentStatus of model/device_deployment.go: the status of a device within a deployment.
pub mod Laws
use deployments.Shared.{
  ℕ, ◌*◌, String, ◌≡◌, Bool, ◌&&◌, ◌||◌, Option, none, some, List, [], ◌∷◌, ◌==◌,
}
use deployments.Shared.Tests.{leb, nat_eq, if◌then◌else◌}

-- The constants in the order of their `iota`. Values of the int32 outside them are not represented.
pub data Status : Type 0 where
  null failure aborted pause_before_install pause_before_commit pause_before_reboot : Status
  downloading installing rebooting pending success no_artifact already_inst : Status
  decommissioned : Status

-- `iota`
abbrev ordinal : Status → ℕ
ordinal null = 0
ordinal failure = 1
ordinal aborted = 2
ordinal pause_before_install = 3
ordinal pause_before_commit = 4
ordinal pause_before_reboot = 5
ordinal downloading = 6
ordinal installing = 7
ordinal rebooting = 8
ordinal pending = 9
ordinal success = 10
ordinal no_artifact = 11
ordinal already_inst = 12
ordinal decommissioned = 13

-- the int32 value, `iota << 8`
unfoldable pub code : Status → ℕ
code s = ordinal s * 256

-- Go's `==` on two statuses
unfoldable pub status_eq : Status → Status → Bool
unfolding code
status_eq a b = nat_eq (code a) (code b)

abbrev active_low : Status
active_low = pause_before_install

abbrev active_high : Status
active_high = pending

unfoldable pub active : Status → Bool
unfolding code
active s = leb (code active_low) (code s) && leb (code s) (code active_high)

-- `none` is the error; null is the value 0, "variable not initialized"
unfoldable pub marshal_text : Status → Option String
marshal_text failure = some "failure"
marshal_text pause_before_install = some "pause_before_installing"
marshal_text pause_before_commit = some "pause_before_committing"
marshal_text pause_before_reboot = some "pause_before_rebooting"
marshal_text downloading = some "downloading"
marshal_text installing = some "installing"
marshal_text rebooting = some "rebooting"
marshal_text pending = some "pending"
marshal_text success = some "success"
marshal_text aborted = some "aborted"
marshal_text no_artifact = some "noartifact"
marshal_text already_inst = some "already-installed"
marshal_text decommissioned = some "decommissioned"
marshal_text null = none

abbrev or_invalid : Option String → String
or_invalid none = "invalid"
or_invalid (some s) = s

-- String()
unfoldable pub to_string : Status → String
unfolding marshal_text
to_string s = or_invalid (marshal_text s)

-- `none` is the error, which leaves the receiver as it was
unfoldable pub unmarshal_text : String → Option Status
unmarshal_text s =
    if s == "failure"
    then some failure
    else if s == "pause_before_installing"
    then some pause_before_install
    else if s == "pause_before_committing"
    then some pause_before_commit
    else if s == "pause_before_rebooting"
    then some pause_before_reboot
    else if s == "downloading"
    then some downloading
    else if s == "installing"
    then some installing
    else if s == "rebooting"
    then some rebooting
    else if s == "pending"
    then some pending
    else if s == "success"
    then some success
    else if s == "aborted"
    then some aborted
    else if s == "noartifact"
    then some no_artifact
    else if s == "already-installed"
    then some already_inst
    else if s == "decommissioned"
    then some decommissioned
    else none

abbrev or_null : Option Status → Status
or_null none = null
or_null (some s) = s

-- NewStatus ignores the error, so the variable keeps its zero value
unfoldable pub new_status : String → Status
unfolding unmarshal_text
new_status s = or_null (unmarshal_text s)

abbrev pub all_statuses : List Status
all_statuses =
    failure ∷ pause_before_install ∷ pause_before_commit ∷ pause_before_reboot ∷ downloading
    ∷ installing ∷ rebooting ∷ pending ∷ success ∷ aborted ∷ no_artifact ∷ already_inst
    ∷ decommissioned ∷ []

-- IsDeviceDeploymentStatusFinished
unfoldable pub is_finished : Status → Bool
unfolding status_eq
is_finished s =
    status_eq s failure
    || status_eq s success
    || status_eq s no_artifact
    || status_eq s already_inst
    || status_eq s aborted
    || status_eq s decommissioned

unfoldable pub active_statuses : List Status
active_statuses =
    pending ∷ downloading ∷ installing ∷ rebooting ∷ pause_before_install ∷ pause_before_commit
    ∷ pause_before_reboot ∷ []

unfoldable pub inactive_statuses : List Status
inactive_statuses =
    already_inst ∷ success ∷ failure ∷ no_artifact ∷ already_inst ∷ aborted ∷ decommissioned ∷ []
