-- ===== src/Model/Log.antt =====
-- The logs of device deployments (model/device_deployment_log.go). A nil slice of messages is the
-- empty one; a text of a time is a parameter.
use Prim.Native.String.{◌++◌ as append}
use deployments.Shared.{ℕ, String, Bool, true, false, not, ◌&&◌, Option, none, some, List, [], ◌∷◌}
use deployments.Shared.Tests.{if◌then◌else◌, nat_eq}
use deployments.Model.Validation.{Rules}

pub record LogMessage : Type 0 where
  pub timestamp : Option ℕ
  pub level : String
  pub message : String

pub record DeploymentLog : Type 0 where
  pub device_id : String
  pub deployment_id : String
  pub messages : List LogMessage

-- the zero time is none that is given
abbrev given : Option ℕ → Bool
given none = false
given (some t) = not (nat_eq t 0)

-- Validate of a LogMessage
unfoldable pub validate_message : Rules → LogMessage → Bool
validate_message rules m = given m.timestamp && rules.required m.level && rules.required m.message

abbrev validate_messages : Rules → List LogMessage → Bool
validate_messages rules [] = true
validate_messages rules (m ∷ ms) = validate_message rules m && validate_messages rules ms

abbrev is_filled : List LogMessage → Bool
is_filled [] = false
is_filled (m ∷ ms) = true

-- Validate of a DeploymentLog; the library validates each message of the list
unfoldable pub validate_log : Rules → DeploymentLog → Bool
validate_log rules log =
    rules.required log.device_id
    && (rules.required log.deployment_id && rules.is_uuid log.deployment_id)
    && (is_filled log.messages && validate_messages rules log.messages)

-- UnmarshalJSON of a DeploymentLog and of its messages, whose fields are decoded
unfoldable pub unmarshal_messages : Rules → List LogMessage → Option (List LogMessage)
unmarshal_messages rules ms = if validate_messages rules ms && is_filled ms then some ms else none

abbrev or_zero : Option ℕ → ℕ
or_zero none = 0
or_zero (some t) = t

-- String of a LogMessage that is validated
unfoldable pub message_to_string : (ℕ → String) → LogMessage → String
message_to_string time_text m =
    append (time_text (or_zero m.timestamp)) (append " " (append m.level (append ": " m.message)))
