-- ===== src/Model/Signature.antt =====
-- The signature of a request (model/signature.go). What is used of Go's libraries is a record: the
-- digest, its text, and the text of a time, which keeps whole seconds. A query is a list of keys and
-- values, where Set leaves one value of a key and Get reads the first.
pub mod Signed
use Prim.Native.Nat.{◌/◌}
use Prim.Native.String.{◌++◌ as append}
use deployments.Shared.{
  ℕ, ◌*◌, String, ◌≡◌, Bool, true, false, not, ◌||◌, Option, none, some, List, [], ◌∷◌, ◌==◌,
}
use deployments.Shared.Tests.{if◌then◌else◌, ltb}
use deployments.Shared.Lists.{any}

pub record Codec : Type 0 where
  -- the digest of a text with a secret
  pub hmac : String → String → String
  pub encode : String → String
  -- what is read of a text, which is what stands before an error in it
  pub decode : String → String
  pub decode-encode : (s : String) → decode (encode s) ≡ s
  -- a time, in nanoseconds, in RFC 3339
  pub format_time : ℕ → String
  pub parse_time : String → Option ℕ
  pub parse-format_time : (t : ℕ) → parse_time (format_time t) ≡ some (t / 1000000000 * 1000000000)

abbrev pub Values : Type 0
Values = List (String × String)

unfoldable pub get : String → Values → String
get key [] = ""
get key ((k, v) ∷ q) = let rest = get key q in if k == key then v else rest

abbrev pub has : String → Values → Bool
has key q = any (λ kv. kv.0 == key) q

unfoldable pub without : String → Values → Values
without key [] = []
without key ((k, v) ∷ q) = let rest = without key q in if k == key then rest else (k, v) ∷ rest

unfoldable pub set : String → String → Values → Values
unfolding without
set key value q = (key, value) ∷ without key q

-- what a signature reads of a request
pub record Address : Type 0 where
  pub method : String
  pub path : String
  pub query : Values

abbrev pub param_expire : String
param_expire = "x-men-expire"

abbrev pub param_signature : String
param_signature = "x-men-signature"

abbrev pub param_tenant_id : String
param_tenant_id = "tenant_id"

pub data SignatureError : Type 0 where
  bad_parameters link_expired : SignatureError

-- Bytes: the method, the path, and two parameters, each on its line
unfoldable pub bytes : Address → String
bytes a = append a.method (
    append "\n" (
      append a.path (
        append "\n" (
          append (append param_expire (append "=" (get param_expire a.query))) (
            append "\n"
              (append (append param_tenant_id (append "=" (get param_tenant_id a.query))) "\n"))))))

module _ (codec : Codec) where
  open codec use {hmac, encode, decode, format_time, parse_time}

  unfoldable pub set_expire : ℕ → Address → Address
  set_expire expire a = record a { query = set param_expire (format_time expire) a.query }

  -- HMAC256
  unfoldable pub hmac256 : String → Address → String
  hmac256 secret a = hmac secret (bytes a)

  -- PresignURL: the address that its result is the text of
  unfoldable pub presign_url : String → Address → Address
  presign_url secret a = record a {
    query = set param_signature (encode (hmac256 secret a)) a.query;
  }

  abbrev expired : ℕ → Option ℕ → Option SignatureError
  expired now none = some bad_parameters
  expired now (some t) = if ltb t now then some link_expired else none

  -- Validate, at the time `now`
  unfoldable pub validate : ℕ → Address → Option SignatureError
  validate now a =
      if not (has param_expire a.query) || not (has param_signature a.query)
      then some bad_parameters
      else expired now (parse_time (get param_expire a.query))

  unfoldable pub verify_hmac256 : String → Address → Bool
  verify_hmac256 secret a = hmac256 secret a == decode (get param_signature a.query)
