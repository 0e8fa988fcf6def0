-- ===== src/Util.antt =====
-- common/util: slices, maps, status texts and basic authentication. (`IsRequeued` is in Kube/Flow.)
pub mod Maps
use workshop_operator.Prelude.{
  String, ◌<>◌, Bool, true, false, not, List, [], ◌∷◌, StringMap, lookup, Option, none, some, ◌=ₛ◌,
  if◌then◌else◌,
}

-- `m[k]` of a Go map: the empty text for a missing key
abbrev pub value_or_empty : Option String → String
value_or_empty (some v) = v
value_or_empty none = ""

-- `IsIntersectMap`: the loop sets the result to false and breaks at the first difference.
unfoldable pub is_intersect_map : StringMap String → StringMap String → Bool
is_intersect_map [] whole_map = true
is_intersect_map ((k, v) ∷ sub_map) whole_map =
    let rest = is_intersect_map sub_map whole_map in
    if value_or_empty (lookup k whole_map) =ₛ v then rest else false

-- `StringInSlice`
unfoldable pub string_in_slice : String → List String → Bool
string_in_slice str [] = false
string_in_slice str (v ∷ list) =
    let rest = string_in_slice str list in if v =ₛ str then true else rest

-- `Contains`
unfoldable pub contains : List String → String → Bool
contains [] s = false
contains (v ∷ list) s = let rest = contains list s in if v =ₛ s then true else rest

-- `IsScheduled`, with the two texts of `OperatorStatus` that it gives
unfoldable pub is_scheduled : Bool → String
is_scheduled enabled = if enabled then "SCHEDULED" else "NOT SCHEDULED"

-- `GetBasicAuth`, over the encoder of `encoding/base64`
unfoldable pub get_basic_auth :
    (encode_to_string : String → String) → (username password : String) → String
get_basic_auth encode_to_string username password = encode_to_string (username <> ":" <> password)
