-- ===== src/Model/Settings.antt =====
-- Settings of the object storage (model/storage_settings.go). A pointer to a text is an option. The
-- type is a uint32.
use deployments.Shared.{ℕ, String, Bool, true, ◌&&◌, ◌||◌, Option, none, some, ◌==◌}
use deployments.Shared.Tests.{if◌then◌else◌, ltb, nat_eq, is_none}
use deployments.Model.Validation.{Rules}

abbrev pub storage_type_s3 : ℕ
storage_type_s3 = 0

abbrev pub storage_type_azure : ℕ
storage_type_azure = 1

abbrev pub storage_type_max : ℕ
storage_type_max = 2

unfoldable pub unmarshal_storage_type : String → Option ℕ
unmarshal_storage_type b =
    if b == "s3"
    then some storage_type_s3
    else if b == "azure"
    then some storage_type_azure
    else none

unfoldable pub marshal_storage_type : ℕ → Option String
marshal_storage_type typ =
    if nat_eq typ storage_type_s3
    then some "s3"
    else if nat_eq typ storage_type_azure
    then some "azure"
    else none

pub record StorageSettings : Type 0 where
  pub type : ℕ
  pub region : String
  pub bucket : String
  pub uri : String
  pub external_uri : String
  pub proxy_uri : Option String
  pub key : String
  pub secret : String
  pub token : String
  pub connection_string : Option String
  pub force_path_style : Bool
  pub use_accelerate : Bool

module _ (rules : Rules) where
  open rules use {required, length_in}

  -- Validate
  unfoldable pub validate_settings : StorageSettings → Bool
  validate_settings s =
      ltb s.type storage_type_max
      && (if nat_eq s.type storage_type_s3
          then required s.region && length_in 5 20 s.region
          else true)
      && (required s.bucket && length_in 5 100 s.bucket)
      && (if nat_eq s.type storage_type_s3 || is_none s.connection_string
          then required s.key && length_in 5 50 s.key
          else true)
      && (if nat_eq s.type storage_type_s3 || is_none s.connection_string
          then required s.secret && length_in 5 100 s.secret
          else true)
      && length_in 3 2000 s.uri
      && length_in 3 2000 s.external_uri
      && length_in 5 100 s.token
