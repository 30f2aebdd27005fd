-- ===== src/Model/Signature/Signed.antt =====
-- A signed address is accepted until it expires (model/signature.go).
use Prim.Native.Nat.{◌/◌}
use deployments.Shared.{
  ℕ, ◌*◌, String, ◌≡◌, refl, ap, ◌∙◌, inl, inr, true, false, none, some, [], ◌∷◌, ◌==◌, eq_refl,
  eq_iff,
}
use deployments.Shared.Tests.{if◌then◌else◌, ltb, Bool-cases}
use deployments.Shared.Lists.{any}
use deployments.Model.Signature.{
  Codec, Values, Address, get, has, without, set, bytes, param_expire, param_signature,
  param_tenant_id, set_expire, hmac256, presign_url, validate, verify_hmac256, link_expired,
}

get-set : (key value : String) (q : Values) → get key (set key value q) ≡ value
unfolding get set
get-set key value q = rw (eq_refl key) refl

get-without :
    (key other : String) (q : Values)
    → (key == other) ≡ false
    → get other (without key q) ≡ get other q
unfolding get without
get-without key other [] h = refl
get-without key other ((k, v) ∷ q) h =
    let rest = get-without key other q h in
    elim (Bool-cases (k == key)) [
      | inl same ↦
          let unlike : (k == other) ≡ false = ap (λ t. t == other) ((eq_iff k key).0 same) ∙ h in
          rw (same, unlike) rest
      | inr differs ↦ rw (differs, rest) refl
    ]

pub get_other-set :
    (key other value : String) (q : Values)
    → (key == other) ≡ false
    → get other (set key value q) ≡ get other q
unfolding get set
get_other-set key other value q h = rw h (get-without key other q h)

has-set : (key value : String) (q : Values) → has key (set key value q) ≡ true
unfolding any set
has-set key value q = rw (eq_refl key) refl

has-without :
    (key other : String) (q : Values)
    → (key == other) ≡ false
    → has other (without key q) ≡ has other q
unfolding any without
has-without key other [] h = refl
has-without key other ((k, v) ∷ q) h =
    let rest = has-without key other q h in
    elim (Bool-cases (k == key)) [
      | inl same ↦
          let unlike : (k == other) ≡ false = ap (λ t. t == other) ((eq_iff k key).0 same) ∙ h in
          rw (same, unlike) rest
      | inr differs ↦ rw (differs, rest) refl
    ]

has_other-set :
    (key other value : String) (q : Values)
    → (key == other) ≡ false
    → has other (set key value q) ≡ has other q
unfolding any set
has_other-set key other value q h = rw h (has-without key other q h)

-- a signature is not part of what is signed
bytes-set :
    (d : String) (a : Address)
    → bytes (record a { query = set param_signature d a.query }) ≡ bytes a
unfolding bytes
bytes-set d a =
    simp
      (
        get_other-set param_signature param_expire d a.query refl,
        get_other-set param_signature param_tenant_id d a.query refl,
      )
      refl

-- the whole seconds of a time
abbrev pub seconds : ℕ → ℕ
seconds t = t / 1000000000 * 1000000000

module _ (codec : Codec) (secret : String) (a : Address) (expire : ℕ) where
  -- the address as the service hands it out
  abbrev pub signed : Address
  signed = presign_url codec secret (set_expire codec expire a)

  same_digest : hmac256 codec secret signed ≡ hmac256 codec secret (set_expire codec expire a)
  unfolding hmac256 presign_url
  same_digest = ap (codec.hmac secret) (bytes-set _ (set_expire codec expire a))

  signature_of :
      codec.decode (get param_signature signed.query)
      ≡ hmac256 codec secret (set_expire codec expire a)
  unfolding presign_url
  signature_of =
      ap codec.decode (get-set param_signature _ (set_expire codec expire a).query)
      ∙ codec.decode-encode _

  expiry_of : get param_expire signed.query ≡ codec.format_time expire
  unfolding presign_url set_expire
  expiry_of =
      get_other-set param_signature param_expire _ (set_expire codec expire a).query refl
      ∙ get-set param_expire _ a.query

  expire_there : has param_expire signed.query ≡ true
  unfolding presign_url set_expire
  expire_there =
      has_other-set param_signature param_expire _ (set_expire codec expire a).query refl
      ∙ has-set param_expire _ a.query

  signature_there : has param_signature signed.query ≡ true
  unfolding presign_url
  signature_there = has-set param_signature _ (set_expire codec expire a).query

  -- An address that the service signed is verified with the same secret, and it is valid exactly up to
  -- the last whole second before it expires: after that it is refused as expired.
  pub presign_url-verified :
      (now : ℕ)
      → (verify_hmac256 codec secret signed ≡ true)
        × (validate codec now signed
            ≡ (if ltb (seconds expire) now then some link_expired else none))
  unfolding verify_hmac256 validate
  presign_url-verified now = (
    simp (same_digest, signature_of) (eq_refl (hmac256 codec secret (set_expire codec expire a))),
    simp (expire_there, signature_there, expiry_of, codec.parse-format_time expire) refl,
  )
