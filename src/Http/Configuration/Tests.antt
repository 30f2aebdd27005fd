-- ===== src/Http/Configuration/Tests.antt =====
-- A link to a configuration and its download, with a time that is written in unary and an address
-- that is written as a text with marks.
use Prim.Native.Nat.{◌/◌}
use Prim.Native.Char.{code}
use Prim.Native.String.{◌++◌ as append}
use deployments.Shared.{
  ℕ, zero, suc, ◌*◌, String, ◌≡◌, refl, ap, true, Option, none, some, [], ◌∷◌, ◌==◌,
}
use deployments.Shared.Tests.{if◌then◌else◌, nat_eq}
use deployments.Shared.Lists.{length}
use deployments.Model.Deployment.{Deployment, configuration}
use deployments.Model.Link.{Link, new_link}
use deployments.Model.Request.{InstalledDeviceDeployment}
use deployments.Model.Instructions.{DeploymentInstructions}
use deployments.Model.Signature.{Codec, Values, Address, verify_hmac256, validate, link_expired}
use deployments.Model.Signature.Signed.{signed, presign_url-verified}
use deployments.Store.Exec.{◌>>=◌}
use deployments.Http.Request.{Request, Identity}
use deployments.Http.Configuration.{Presign, config_address}

abbrev unary : ℕ → String
unary zero = String.[]
unary (suc n) = String.◌∷◌ "i" (unary n)

abbrev count : String → ℕ
count String.[] = 0
count (String.◌∷◌ c s) = suc (count s)

count-unary : (n : ℕ) → count (unary n) ≡ n
count-unary zero = refl
count-unary (suc n) = ap (λ k. suc k) (count-unary n)

abbrev codec : Codec
codec = record {
  hmac = λ secret s. append secret s;
  encode = λ s. s;
  decode = λ s. s;
  decode-encode = λ s. refl;
  format_time = λ t. unary (t / 1000000000);
  parse_time = λ s. some (count s * 1000000000);
  parse-format_time = λ t. ap (λ k. some (k * 1000000000)) (count-unary (t / 1000000000));
}

abbrev device : Identity
device = record { subject = "one"; tenant = "acme" }

abbrev address : Address
address = config_address "dep" "box" device

-- 3.5 seconds
abbrev expire : ℕ
expire = 3500000000

presign_url-verified_example :
    (verify_hmac256 codec "key" (signed codec "key" address expire) ≡ true)
    × (validate codec 3200000000 (signed codec "key" address expire) ≡ some link_expired)
presign_url-verified_example = presign_url-verified codec "key" address expire 3200000000

abbrev conf : Presign
conf = record { secret = some "key"; scheme = "https"; hostname = "host"; expire = 900000000000 }

abbrev write_artifact : String → Deployment → Option String
write_artifact device_type d = some (append device_type d.constructor.artifact_name)

-- the request that the link leads to
abbrev request : Request
request = record {
  method = "GET";
  path = address.path;
  identity = none;
  param = λ name.
      if name == "deployment_id" then "dep" else if name == "device_type" then "box" else "one";
  query = λ name. "";
  ids = [];
  paging = some (1, 20);
  forwarded_host = "";
}

-- A text of an address: each character after a mark, and an end of each part. The number of the
-- query's entries is in unary.
abbrev written : String → String → String
written String.[] rest = String.◌∷◌ "." rest
written (String.◌∷◌ c s) rest = String.◌∷◌ ":" (String.◌∷◌ c (written s rest))

abbrev split : String → String × String
split String.[] = (String.[], String.[])
split (String.◌∷◌ m String.[]) = (String.[], String.[])
split (String.◌∷◌ m (String.◌∷◌ c t)) =
    let (s, rest) = split t in
    if nat_eq (code m) b':' then (String.◌∷◌ c s, rest) else (String.[], String.◌∷◌ c t)

abbrev entries_text : Values → String
entries_text [] = String.[]
entries_text ((k, v) ∷ q) = written k (written v (entries_text q))

abbrev entries : ℕ → String → Values
entries zero t = []
entries (suc n) t =
    let (k, after_key) = split t in let (v, rest) = split after_key in (k, v) ∷ entries n rest

abbrev url_text : String → String → Address → String
url_text scheme hostname a =
    written a.method (written a.path (written (unary (length a.query)) (entries_text a.query)))

abbrev read_url : String → Address
read_url t =
    let (method, after_method) = split t in
    let (path, after_path) = split after_method in
    let (number, rest) = split after_path in
    record { method = method; path = path; query = entries (count number) rest }

-- the answer to the device, and the download at a later time
abbrev offered : DeploymentInstructions
offered = record {
  id = "dep";
  artifact = record {
    id = "artifact";
    artifact_name = "configuration";
    source = new_link "" 0;
    device_types_compatible = "box" ∷ [];
  };
  type = configuration;
}

abbrev asked_with : InstalledDeviceDeployment
asked_with = record { artifact_name = ""; device_type = "box"; provides = [] }
