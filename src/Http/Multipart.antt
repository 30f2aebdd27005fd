-- ===== src/Http/Multipart.antt =====
-- The forms of an upload (ParseMultipart and ParseGenerateImageMultipart of
-- api/http/api_deployments.go, MultipartUploadMsg and MultipartGenerateImageMsg of model/image.go).
pub mod Accepted
use deployments.Shared.{String, Bool, not, ◌&&◌, Option, none, some, List, ◌==◌}
use deployments.Shared.Tests.{if◌then◌else◌, is_some, nat_eq}
use deployments.Shared.Lists.{length}
use deployments.Shared.Int.{ℤ, pos, ltb_ℤ}
use deployments.Model.Validation.{Rules}
use deployments.Model.Text.{parse_int}
use deployments.Http.Request.{Parsed, invalid, parsed, ◌>>=◌}
use deployments.Http.View.{
  artifact_file_missing, artifact_file_too_large, invalid_size, invalid_body, id_not_uuid,
}

-- What NextPart gives: the end of the form, an error, or a part with its name and its content, which
-- is `none` where reading it fails.
pub data Form : Type 0 where
  eof broken : Form
  part : String → Option String → Form → Form

-- utils.ReadExactly and utils.ReadAtMost, on the content of a part
pub data Reader : Type 0 where
  exactly at_most : ℤ → Option String → Reader

pub record MultipartUploadMsg : Type 0 where
  pub description : String
  pub artifact_id : String
  pub artifact_reader : Option Reader

pub record MultipartGenerateImageMsg : Type 0 where
  pub name : String
  pub description : String
  pub device_types_compatible : List String
  pub type : String
  pub args : String
  pub token : String
  pub file_reader : Option Reader

-- io.ReadAll of a part
abbrev pub read_all : Option String → Parsed String
read_all none = invalid invalid_body
read_all (some s) = parsed s

abbrev pub whole_number : Option ℤ → Parsed ℤ
whole_number none = invalid invalid_size
whole_number (some n) = parsed n

abbrev pub within : ℤ → ℤ → Parsed ℤ
within limit size = if ltb_ℤ limit size then invalid artifact_file_too_large else parsed size

-- the part "size": a number, at most the largest size of an image
abbrev pub read_size : ℤ → Option String → Parsed ℤ
read_size limit content = do
  text ← read_all content
  size ← whole_number (parse_int text)
  within limit size

abbrev pub read_id : Rules → Option String → Parsed String
read_id rules content = do
  id ← read_all content
  if not (rules.is_uuid id) then invalid id_not_uuid else parsed id

abbrev pub reader_of : ℤ → ℤ → Option String → Reader
reader_of limit size content =
    if ltb_ℤ (pos 0) size then exactly size content else at_most limit content

module _ (rules : Rules) (to_lower : String → String) (limit : ℤ) where
  -- the loop of ParseMultipart; `size` is the last one that the form gave, 0 before
  unfoldable pub parse_multipart : Form → MultipartUploadMsg → ℤ → Parsed MultipartUploadMsg
  parse_multipart eof msg size = invalid artifact_file_missing
  parse_multipart broken msg size = invalid invalid_body
  parse_multipart (part name content form) msg size =
      let key = to_lower name in
      if key == "description"
      then (do
        text ← read_all content
        parse_multipart form (record msg { description = text }) size)
      else if key == "size"
      then (do n ← read_size limit content; parse_multipart form msg n)
      else if key == "artifact_id"
      then (do
        id ← read_id rules content
        parse_multipart form (record msg { artifact_id = id }) size)
      else if key == "artifact"
      then parsed (record msg { artifact_reader = some (reader_of limit size content) })
      else parse_multipart form msg size

  -- Validate of a MultipartGenerateImageMsg
  unfoldable pub validate_generate : MultipartGenerateImageMsg → Bool
  validate_generate msg =
      rules.required msg.name
      && not (nat_eq (length msg.device_types_compatible) 0)
      && rules.required msg.type
      && is_some msg.file_reader

  abbrev checked : MultipartGenerateImageMsg → Parsed MultipartGenerateImageMsg
  checked msg = if validate_generate msg then parsed msg else invalid invalid_body

  -- ParseGenerateImageMultipart; `split` is strings.Split at commas
  unfoldable pub parse_generate_image_multipart :
      (String → List String)
      → Form
      → MultipartGenerateImageMsg
      → ℤ
      → Parsed MultipartGenerateImageMsg
  parse_generate_image_multipart split eof msg size = checked msg
  parse_generate_image_multipart split broken msg size = invalid invalid_body
  parse_generate_image_multipart split (part name content form) msg size =
      let key = to_lower name in
      if key == "args"
      then (do
        text ← read_all content
        parse_generate_image_multipart split form (record msg { args = text }) size)
      else if key == "description"
      then (do
        text ← read_all content
        parse_generate_image_multipart split form (record msg { description = text }) size)
      else if key == "device_types_compatible"
      then (do
        text ← read_all content
        parse_generate_image_multipart split form
            (record msg { device_types_compatible = split text }) size)
      else if key == "file"
      then checked (record msg { file_reader = some (reader_of limit size content) })
      else if key == "name"
      then (do
        text ← read_all content
        parse_generate_image_multipart split form (record msg { name = text }) size)
      else if key == "type"
      then (do
        text ← read_all content
        parse_generate_image_multipart split form (record msg { type = text }) size)
      else if key == "size"
      then (do n ← read_size limit content; parse_generate_image_multipart split form msg n)
      else parse_generate_image_multipart split form msg size
