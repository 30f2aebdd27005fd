-- ===== src/Model/Image.antt =====
-- Image, its metadata and its update files (model/image.go, model/update.go), without the index
-- fields that only the database's own indexes read.
use deployments.Shared.{ℕ, String, Bool, true, not, ◌&&◌, ◌||◌, Option, none, some, List}
use deployments.Shared.Tests.{ltb, leb, nat_eq}
use deployments.Shared.Lists.{any, length}
use deployments.Model.Validation.{Rules}

pub record ArtifactInfo : Type 0 where
  pub format : String
  pub version : ℕ

-- `depends` holds the keys of the map besides "device_type", which Validate always sets
pub record ArtifactMeta : Type 0 where
  pub name : String
  pub device_types_compatible : List String
  pub info : Option ArtifactInfo
  pub signed : Bool
  pub update_types : List (Option String)
  pub depends : List String

pub record Image : Type 0 where
  pub id : String
  pub description : String
  pub meta : ArtifactMeta
  pub size : ℕ
  pub modified : Option ℕ

module _ (rules : Rules) where
  open rules use {required, length_in}

  -- Validate of an ArtifactInfo; an optional version that is 0 passes
  unfoldable pub validate_info : ArtifactInfo → Bool
  validate_info i =
      required i.format
      && (nat_eq i.version 0 || nat_eq i.version 1 || nat_eq i.version 2 || nat_eq i.version 3)

  -- Validate of an ArtifactMeta; the rule of a length on the list of device types counts them
  unfoldable pub validate_meta : ArtifactMeta → Bool
  unfolding validate_info
  validate_meta m =
      required m.name
      && length_in 1 4096 m.name
      && ltb 0 (length m.device_types_compatible)
      && leb (length m.device_types_compatible) 200
      && not (any (λ t. not (length_in 1 4096 t)) m.device_types_compatible)
      && elim m.info [ none ↦ true | some i ↦ validate_info i ]

  -- Validate of an ImageMeta and of an Image
  unfoldable pub validate_image_meta : String → Bool
  validate_image_meta description = length_in 0 4096 description

  unfoldable pub validate_image : Image → Bool
  unfolding validate_meta validate_image_meta
  validate_image i =
      required i.id
      && rules.is_uuid i.id
      && validate_image_meta i.description
      && validate_meta i.meta

-- NewImage: `now` is what time.Now() gives
unfoldable pub new_image : ℕ → String → String → ArtifactMeta → ℕ → Image
new_image now id description meta size = record {
  id = id;
  description = description;
  meta = meta;
  size = size;
  modified = some now;
}
