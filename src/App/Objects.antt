-- ===== src/App/Objects.antt =====
-- The object storage and the library that reads artifacts, as the application layer calls them
-- (storage/objectstore.go, contextWithStorageSettings of app/app.go). The backends and the library
-- are not part of the model: a backend is a record of calls, none of which touches the database.
use deployments.Shared.{ℕ, String, Bool, false, not, Option, none, some, List}
use deployments.Model.Validation.{Rules}
use deployments.Model.Image.{Image, ArtifactMeta}
use deployments.Model.Link.{Link}
use deployments.Model.Settings.{StorageSettings, validate_settings}
use deployments.Store.Errors.{invalid_settings}
use deployments.Store.World.{Database}
use deployments.Store.Exec.{Exec, pure, refuse_if, ◌>>=◌, ◌>>◌}
use deployments.Store.Exec.Keeps.{Keeps}
use deployments.Store.Settings.{get_storage_settings}

abbrev pub Settings : Type 0
Settings = Option StorageSettings

-- ObjectStorage, without its health check and the signing of deletions; a call takes the settings that
-- its context holds
pub record ObjectStorage : Type 1 where
  pub get_object : Settings → String → Exec String
  -- a content of `none` is a stream that ends with an error
  pub put_object : Settings → String → Option String → Exec (Unit {0})
  pub delete_object : Settings → String → Exec (Unit {0})
  pub stat_object : Settings → String → Exec (Unit {0})
  pub get_request : Settings → String → String → ℕ → Exec Link
  pub put_request : Settings → String → ℕ → Exec Link
  pub get_object-Keeps :
      (calm : Bool) (P : Database → Type 0) (s : Settings) (path : String)
      → Keeps calm P (get_object s path)
  pub put_object-Keeps :
      (calm : Bool) (P : Database → Type 0) (s : Settings) (path : String) (content : Option String)
      → Keeps calm P (put_object s path content)
  pub delete_object-Keeps :
      (calm : Bool) (P : Database → Type 0) (s : Settings) (path : String)
      → Keeps calm P (delete_object s path)
  pub stat_object-Keeps :
      (calm : Bool) (P : Database → Type 0) (s : Settings) (path : String)
      → Keeps calm P (stat_object s path)
  pub get_request-Keeps :
      (calm : Bool) (P : Database → Type 0) (s : Settings) (path name : String) (expire : ℕ)
      → Keeps calm P (get_request s path name expire)
  pub put_request-Keeps :
      (calm : Bool) (P : Database → Type 0) (s : Settings) (path : String) (expire : ℕ)
      → Keeps calm P (put_request s path expire)

-- The libraries: the rules of validation, the reader of artifacts, whose argument says that only
-- the headers are read, with the number of bytes it read, and `size` of all the bytes of a
-- stream, `none` when reading it fails; uuid.Parse with its canonical text; path.Join; and
-- whether the unique index on names and dependencies refuses a new artifact.
pub record Library : Type 0 where
  pub rules : Rules
  pub parse : Bool → String → Option (ArtifactMeta × ℕ)
  pub size : String → Option ℕ
  pub parse_uuid : String → Option String
  pub join : String → String → String
  pub clashes : Image → List Image → Bool

-- ImagePathFromContext; the identity is that of the context, by its tenant
unfoldable pub image_path : (String → String → String) → Option String → String → String
image_path join none id = id
image_path join (some tenant) id = join tenant id

abbrev pub invalid : Rules → Settings → Bool
invalid rules none = false
invalid rules (some s) = not (validate_settings rules s)

-- the settings that the context holds already, or those of the database
abbrev pub settings_from : Option Settings → Exec Settings
settings_from none = get_storage_settings
settings_from (some s) = pure s

-- The result is what the new context holds.
unfoldable pub context_with_storage_settings : Rules → Option Settings → Exec Settings
context_with_storage_settings rules context = do
  settings ← settings_from context
  refuse_if (invalid rules settings) invalid_settings
  pure settings
