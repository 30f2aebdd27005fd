-- ===== src/Model/Link.antt =====
-- Links to the object storage, and the states of an upload link (model/link.go). A LinkStatus is a
-- uint32, a number below 2^32.
pub mod Moves
pub mod Texts
use Prim.Native.Nat.{bit_and, bit_or}
use deployments.Shared.{ℕ, String, ◌≡◌, Bool, true, false, Option, none, some, List, ◌==◌}
use deployments.Shared.Tests.{if◌then◌else◌, nat_eq}

pub record Link : Type 0 where
  pub uri : String
  pub expire : ℕ
  pub method : String
  pub header : List (String × String)
  pub tenant_id : String

abbrev pub link_status_pending : ℕ
link_status_pending = 0

abbrev pub link_status_processing : ℕ
link_status_processing = 16

abbrev pub link_status_completed : ℕ
link_status_completed = 32

abbrev pub link_status_aborted : ℕ
link_status_aborted = 48

abbrev pub link_status_processed_bit : ℕ
link_status_processed_bit = 128

-- ^LinkStatus(LinkStatusProcessedBit)
abbrev pub link_status_processed_mask : ℕ
link_status_processed_mask = 4294967167

pub record UploadLink : Type 0 where
  pub artifact_id : String
  pub link : Link
  pub open link use *
  pub issued_at : ℕ
  pub updated_ts : ℕ
  pub status : ℕ

-- MarshalText of a LinkStatus
unfoldable pub marshal_link_status : ℕ → Option String
marshal_link_status status =
    let s = bit_and status link_status_processed_mask in
    if nat_eq s link_status_pending
    then some "pending"
    else if nat_eq s link_status_processing
    then some "processing"
    else if nat_eq s link_status_completed
    then some "completed"
    else if nat_eq s link_status_aborted
    then some "aborted"
    else none

module _ (to_lower : String → String) where
  -- UnmarshalText of a LinkStatus, after strings.ToLower
  unfoldable pub unmarshal_link_status : String → Option ℕ
  unmarshal_link_status b =
      let value = to_lower b in
      if value == "pending"
      then some link_status_pending
      else if value == "processing"
      then some link_status_processing
      else if value == "completed"
      then some link_status_completed
      else if value == "aborted"
      then some link_status_aborted
      else none

unfoldable pub new_link : String → ℕ → Link
new_link uri expire = record {
  uri = uri;
  expire = expire;
  method = "";
  header = List.[];
  tenant_id = "";
}
