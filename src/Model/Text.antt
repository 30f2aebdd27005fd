-- ===== src/Model/Text.antt =====
-- What the handlers use of Go's strings and strconv: prefixes and suffixes, and decimal numbers of 64
-- bits, also as they wrap around.
use Prim.Native.Nat.{◌%◌, ◌^◌}
use Prim.Native.Char.{code}
use deployments.Shared.{ℕ, ◌+◌, ◌-◌, ◌*◌, String, ◌&&◌, Option, none, some, List, [], ◌∷◌, ◌==◌}
use deployments.Shared.Tests.{if◌then◌else◌, ltb, leb, nat_eq}
use deployments.Shared.Int.{ℤ, pos, negsuc}
use deployments.Model.Release.{codes}

-- what follows the prefix, if it is one
abbrev pub after_prefix : String → String → Option String
after_prefix String.[] s = some s
after_prefix (String.◌∷◌ c p) String.[] = none
after_prefix (String.◌∷◌ c p) (String.◌∷◌ d s) =
    let rest = after_prefix p s in if nat_eq (code c) (code d) then rest else none

abbrev or_else : String → Option String → String
or_else s none = s
or_else s (some t) = t

-- strings.TrimPrefix(s, p)
unfoldable pub trim_prefix : String → String → String
trim_prefix s p = or_else s (after_prefix p s)

-- strings.TrimSuffix(s, t)
unfoldable pub trim_suffix : String → String → String
trim_suffix String.[] t = String.[]
trim_suffix (String.◌∷◌ c s) t =
    let rest = trim_suffix s t in if String.◌∷◌ c s == t then String.[] else String.◌∷◌ c rest

abbrev digits_from : ℕ → List ℕ → Option ℕ
digits_from n [] = some n
digits_from n (c ∷ cs) =
    let rest = digits_from (n * 10 + (c - b'0')) cs in
    if leb b'0' c && leb c b'9' then rest else none

-- one digit at least
abbrev digits_of : List ℕ → Option ℕ
digits_of [] = none
digits_of (c ∷ cs) = digits_from 0 (c ∷ cs)

abbrev positive : Option ℕ → Option ℤ
positive none = none
positive (some n) = if ltb n (2 ^ 63) then some (pos n) else none

abbrev negative : Option ℕ → Option ℤ
negative none = none
negative (some n) =
    if nat_eq n 0 then some (pos 0) else if leb n (2 ^ 63) then some (negsuc (n - 1)) else none

abbrev signed : List ℕ → Option ℤ
signed [] = none
signed (c ∷ cs) =
    if nat_eq c b'+'
    then positive (digits_of cs)
    else if nat_eq c b'-'
    then negative (digits_of cs)
    else positive (digits_of (c ∷ cs))

-- strconv.ParseInt(s, 10, 64), and strconv.Atoi
unfoldable pub parse_int : String → Option ℤ
parse_int s = signed (codes s)

-- int(n), of a uint64 or of a product that wraps around
unfoldable pub to_int : ℕ → ℤ
to_int n = let m = n % 2 ^ 64 in if ltb m (2 ^ 63) then pos m else negsuc (2 ^ 64 - m - 1)
