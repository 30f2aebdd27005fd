-- ===== src/Model/Release.antt =====
-- Tags and notes of a release, and the release itself (model/release.go). A text is read by its code
-- points; Go orders valid texts by bytes as by code points.
pub mod Alphabet
pub mod Dedup
pub mod Laws
mod Tests
use Prim.Native.String
use Prim.Native.Char.{code}
use deployments.Shared.{
  ℕ, zero, suc, ◌+◌, String, Bool, true, false, not, ◌&&◌, ◌||◌, Option, none, some, List, [], ◌∷◌,
  ◌==◌,
}
use deployments.Shared.Tests.{if◌then◌else◌, ltb, leb, nat_eq}
use deployments.Shared.Lists.{length, take}
use deployments.Shared.Arrays.{get_elem?, set}
use deployments.Model.Image.{Image}

-- the code points of a text
abbrev pub codes : String → List ℕ
codes String.[] = []
codes (String.◌∷◌ c s) = code c ∷ codes s

-- the bytes of a code point in UTF-8
abbrev pub width : ℕ → ℕ
width c = if ltb c 128 then 1 else if ltb c 2048 then 2 else if ltb c 65536 then 3 else 4

-- len(s)
abbrev pub bytes : List ℕ → ℕ
bytes [] = 0
bytes (c ∷ cs) = width c + bytes cs

abbrev pub tags_max_per_release : ℕ
tags_max_per_release = 20

abbrev pub tags_max_unique : ℕ
tags_max_unique = 100

abbrev pub tag_max_length : ℕ
tag_max_length = 1024

abbrev pub notes_length_maximum_characters : ℕ
notes_length_maximum_characters = 1024

pub data TagError : Type 0 where
  too_many_tags tag_empty tag_too_long : TagError
  invalid_character : ℕ → TagError

-- one turn of the loop of Tag.Validate
unfoldable pub is_tag_character : ℕ → Bool
is_tag_character c =
    leb b'A' c && leb c b'Z'
    || leb b'a' c && leb c b'z'
    || leb b'0' c && leb c b'9'
    || (nat_eq c b'-' || nat_eq c b'_' || nat_eq c b'.')

validate_characters : List ℕ → Option TagError
validate_characters [] = none
validate_characters (c ∷ cs) =
    if is_tag_character c then validate_characters cs else some (invalid_character c)

unfoldable pub validate_tag : String → Option TagError
unfolding validate_characters
validate_tag tag =
    if ltb (bytes (codes tag)) 1
    then some tag_empty
    else if ltb tag_max_length (bytes (codes tag))
    then some tag_too_long
    else validate_characters (codes tag)

validate_each : List String → Option TagError
validate_each [] = none
validate_each (tag ∷ tags) = elim (validate_tag tag) [ some e ↦ some e | none ↦ validate_each tags ]

-- Validate of Tags
unfoldable pub validate_tags : List String → Option TagError
unfolding validate_each
validate_tags tags =
    if ltb tags_max_per_release (length tags) then some too_many_tags else validate_each tags

-- the order of texts
abbrev pub codes_lt : List ℕ → List ℕ → Bool
codes_lt [] [] = false
codes_lt [] (c ∷ cs) = true
codes_lt (b ∷ bs) [] = false
codes_lt (b ∷ bs) (c ∷ cs) = if ltb b c then true else nat_eq b c && codes_lt bs cs

abbrev pub text_lt : String → String → Bool
text_lt s t = codes_lt (codes s) (codes t)

abbrev pub same_text : Option String → Option String → Bool
same_text (some s) (some t) = s == t
same_text _ _ = false

abbrev pub write : List String → ℕ → Option String → List String
write s i none = s
write s i (some t) = set s i t

-- the loop of Dedup: `rounds` is what is left of the slice, `i` the last tag that is kept
unfoldable pub compact : ℕ → List String → ℕ → ℕ → List String × ℕ
compact zero s i j = (s, i)
compact (suc rounds) s i j =
    let skip = compact rounds s i (suc j) in
    let keep = compact rounds (write s (suc i) (get_elem? s j)) (suc i) (suc j) in
    if same_text (get_elem? s i) (get_elem? s j) then skip else keep

-- `s[:i+1]`: json.Unmarshal, before the only call of Dedup, makes an empty slice without capacity,
-- which this is out of bounds of
unfoldable pub kept : List String → ℕ → Option (List String)
kept [] i = none
kept (t ∷ ts) i = some (take (suc i) (t ∷ ts))

module _ (sort : List String → List String) where
  -- Dedup, after sort.Slice; `none` is the panic of a slice out of bounds
  unfoldable pub dedup : List String → Option (List String)
  unfolding compact kept
  dedup tags = let s = sort tags in let (s', i) = compact (length s) s 0 0 in kept s' i

pub data NotesError : Type 0 where
  notes_too_long : NotesError
  invalid_char : ℕ → NotesError

-- strings.IndexFunc: where the first character is that is not graphic, as a byte offset
unfoldable pub index_func : (ℕ → Bool) → ℕ → List ℕ → Option ℕ
index_func graphic offset [] = none
index_func graphic offset (c ∷ cs) =
    if graphic c then index_func graphic (offset + width c) cs else some offset

-- Validate of Notes; an offset of 0 passes the test `i > 0`
unfoldable pub validate_notes : (ℕ → Bool) → String → Option NotesError
unfolding index_func
validate_notes graphic notes =
    if ltb notes_length_maximum_characters (bytes (codes notes))
    then some notes_too_long
    else elim (index_func graphic 0 (codes notes)) [
      | none ↦ none
      | some i ↦ if ltb 0 i then some (invalid_char i) else none
    ]

pub record Release : Type 0 where
  pub name : String
  pub modified : Option ℕ
  pub artifacts : List Image
  pub tags : List String
  pub notes : String
