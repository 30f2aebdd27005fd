-- ===== src/Http/Multipart/Accepted.antt =====
-- What an accepted form of an upload holds (ParseMultipart of api/http/api_deployments.go).
use deployments.Shared.{
  String, ◌≡◌, refl, ◌⊎◌, inl, inr, true, false, not, Option, none, some, ◌==◌,
}
use deployments.Shared.Tests.{if◌then◌else◌, Bool-cases}
use deployments.Shared.Int.{ℤ, pos, ltb_ℤ}
use deployments.Model.Validation.{Rules}
use deployments.Model.Text.{parse_int}
use deployments.Http.Request.{Parsed, invalid, parsed, ◌>>=◌}
use deployments.Http.View.{id_not_uuid}
use deployments.Http.Multipart.{
  Form, eof, broken, part, Reader, exactly, at_most, MultipartUploadMsg, parse_multipart, read_all,
  read_size, read_id, reader_of, within, whole_number,
}

-- the value of a parse has a property, if there is one
abbrev pub Yields : {A : Type 0} → (A → Type 0) → Parsed A → Type 0
Yields P (invalid m) = Unit
Yields P (parsed a) = P a

-- the identifier of an artifact: none, or a UUID
abbrev pub IsIdentified : Rules → String → Type 0
IsIdentified rules id = (id ≡ "") ⊎ (rules.is_uuid id ≡ true)

-- the reader reads exactly a size in the limit, or at most the limit
pub data IsBounded (limit : ℤ) : Option Reader → Type 0 where
  whole :
      (size : ℤ) (content : Option String)
      → ltb_ℤ (pos 0) size ≡ true
      → ltb_ℤ limit size ≡ false
      → IsBounded limit (some (exactly size content))
  part_of : (content : Option String) → IsBounded limit (some (at_most limit content))

Yields-bind :
    {A B : Type 0} (P : A → Type 0) (Q : B → Type 0) (p : Parsed A) (f : A → Parsed B)
    → Yields P p
    → ((a : A) → P a → Yields Q (f a))
    → Yields Q (p >>= f)
Yields-bind P Q (invalid m) f h k = tt
Yields-bind P Q (parsed a) f h k = k a h

Yields-all : {A : Type 0} (p : Parsed A) → Yields (λ a. Unit {0}) p
Yields-all (invalid m) = tt
Yields-all (parsed a) = tt

read_size-bounds :
    (limit : ℤ) (content : Option String)
    → Yields (λ n. ltb_ℤ limit n ≡ false) (read_size limit content)
read_size-bounds limit content =
    Yields-bind _ _ (read_all content) _ (Yields-all _) (λ text u.
      Yields-bind _ _ (whole_number (parse_int text)) _ (Yields-all _) (λ n u. bounded n))
  where
    bounded : (n : ℤ) → Yields (λ n. ltb_ℤ limit n ≡ false) (within limit n)
    bounded n = elim (Bool-cases (ltb_ℤ limit n)) [ inl h ↦ rw h tt | inr h ↦ rw h h ]

read_id-is_uuid :
    (rules : Rules) (content : Option String)
    → Yields (λ id. rules.is_uuid id ≡ true) (read_id rules content)
read_id-is_uuid rules content = Yields-bind _ _ (read_all content) _ (Yields-all _) checked
  where
    checked :
        (id : String)
        → Unit {0}
        → Yields
            (λ id. rules.is_uuid id ≡ true)
            (if not (rules.is_uuid id) then invalid id_not_uuid else parsed id)
    checked id u = elim (Bool-cases (rules.is_uuid id)) [ inl h ↦ rw h h | inr h ↦ rw h tt ]

reader-IsBounded :
    (limit size : ℤ) (content : Option String)
    → ltb_ℤ limit size ≡ false
    → IsBounded limit (some (reader_of limit size content))
reader-IsBounded limit size content h = elim (Bool-cases (ltb_ℤ (pos 0) size)) [
  | inl positive ↦ rw positive (whole size content positive h)
  | inr unsized ↦ rw unsized (part_of content)
]

module _ (rules : Rules) (to_lower : String → String) (limit : ℤ) where
  -- what an accepted form says
  abbrev pub IsAccepted : MultipartUploadMsg → Type 0
  IsAccepted msg = IsBounded limit msg.artifact_reader × IsIdentified rules msg.artifact_id

  parse-Accepted :
      (form : Form) (msg : MultipartUploadMsg) (size : ℤ)
      → IsIdentified rules msg.artifact_id
      → ltb_ℤ limit size ≡ false
      → Yields IsAccepted (parse_multipart rules to_lower limit form msg size)
  unfolding parse_multipart
  parse-Accepted eof msg size i h = tt
  parse-Accepted broken msg size i h = tt
  parse-Accepted (part name content form) msg size i h =
      elim (Bool-cases (to_lower name == "description")) [
        | inl described ↦ rw described (
            Yields-bind _ IsAccepted (read_all content) _ (Yields-all _)
              (λ text u. parse-Accepted form (record msg { description = text }) size i h))
        | inr a ↦ rw a (elim (Bool-cases (to_lower name == "size")) [
          | inl sized ↦ rw sized (
              Yields-bind _ IsAccepted (read_size limit content) _ (read_size-bounds limit content)
                (λ n b. parse-Accepted form msg n i b))
          | inr b ↦ rw b (elim (Bool-cases (to_lower name == "artifact_id")) [
            | inl named ↦ rw named (
                Yields-bind _ IsAccepted (read_id rules content) _ (read_id-is_uuid rules content)
                  (λ id u. parse-Accepted form (record msg { artifact_id = id }) size (inr u) h))
            | inr c ↦ rw c (elim (Bool-cases (to_lower name == "artifact")) [
              | inl held ↦ rw held (reader-IsBounded limit size content h, i)
              | inr d ↦ rw d (parse-Accepted form msg size i h)
            ])
          ])
        ])
      ]

  -- Every form of an upload that is accepted has an artifact, which is read exactly to a size that is
  -- positive and within the limit, or to the limit at most, and its identifier is a UUID or none;
  -- the limit is not negative.
  pub parse_multipart-Accepted :
      (form : Form)
      → ltb_ℤ limit (pos 0) ≡ false
      → Yields IsAccepted (
          parse_multipart rules to_lower limit form
            (record { description = ""; artifact_id = ""; artifact_reader = none })
            (pos 0))
  parse_multipart-Accepted form h = parse-Accepted form _ (pos 0) (inl refl) h
