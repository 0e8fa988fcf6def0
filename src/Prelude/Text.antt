-- ===== src/Prelude/Text.antt =====
-- Go's `strconv.Itoa`, and what is used of its package `strings`, over the characters of a text.
use Prim.Native.Nat.{ℕ, zero, suc, ◌+◌, ◌-◌, ◌/◌, ◌%◌}
use Prim.Native.Char.{Char, code}
use Prim.Native.String.{String, ◌++◌}
use mathlib.Core.Bool.{Bool, true, false, ◌&&◌, ◌||◌}
use text.Mathlib.Text.{◌==◌}
use workshop_operator.Prelude.Tests.{eqb, ltb, leb, if◌then◌else◌}

unfoldable pub digit : ℕ → String
digit n =
    if eqb n 0
    then "0"
    else if eqb n 1
    then "1"
    else if eqb n 2
    then "2"
    else if eqb n 3
    then "3"
    else if eqb n 4
    then "4"
    else if eqb n 5
    then "5"
    else if eqb n 6
    then "6"
    else if eqb n 7
    then "7"
    else if eqb n 8
    then "8"
    else "9"

unfoldable pub digits : ℕ → ℕ → String
digits zero n = digit n
digits (suc fuel) n = elim (ltb n 10) [
  | true ↦ digit n
  | false ↦ digits fuel (n / 10) ++ digit (n % 10)
]

-- A number has at most as many digits as its value, so the fuel suffices.
unfoldable pub itoa : ℕ → String
unfolding digits digit
itoa n = digits n n

abbrev text_length : String → ℕ
text_length String.[] = 0
text_length (String.◌∷◌ _ s) = suc (text_length s)

unfoldable pub has_prefix : String → String → Bool
has_prefix String.[] s = true
has_prefix (String.◌∷◌ c p) String.[] = false
has_prefix (String.◌∷◌ c p) (String.◌∷◌ d s) = eqb (code c) (code d) && has_prefix p s

-- `strings.Replace(s, old, new, -1)` for a non-empty `old`; the number counts the characters of
-- a match that are still to be passed over.
replace_from : String → String → ℕ → String → String
replace_from old new skip String.[] = String.[]
replace_from old new (suc skip) (String.◌∷◌ c s) = replace_from old new skip s
replace_from old new zero (String.◌∷◌ c s) =
    let hit = has_prefix old (String.◌∷◌ c s) in
    let rest = replace_from old new (if hit then text_length old - 1 else 0) s in
    if hit then new ++ rest else String.◌∷◌ c rest

unfoldable pub replace_all : String → String → String → String
unfolding replace_from has_prefix
replace_all s old new = replace_from old new 0 s

count_from : String → ℕ → String → ℕ
count_from old skip String.[] = 0
count_from old (suc skip) (String.◌∷◌ c s) = count_from old skip s
count_from old zero (String.◌∷◌ c s) =
    let hit = has_prefix old (String.◌∷◌ c s) in
    count_from old (if hit then text_length old - 1 else 0) s + (if hit then 1 else 0)

-- `strings.Count`: matches that do not overlap; the empty text is found once more than there are
-- characters.
unfoldable pub count_text : String → String → ℕ
unfolding count_from has_prefix
count_text s old = if old == "" then text_length s + 1 else count_from old 0 s

-- The white space of `unicode.IsSpace`.
is_space : Char → Bool
is_space c =
    between 9 13
    || between 32 32
    || between 133 133
    || between 160 160
    || between 5760 5760
    || between 8192 8202
    || between 8232 8233
    || between 8239 8239
    || between 8287 8287
    || between 12288 12288
  where
    between : ℕ → ℕ → Bool
    between a b = leb a (code c) && leb (code c) b

trim_left : String → String
trim_left String.[] = String.[]
trim_left (String.◌∷◌ c s) = elim (is_space c) [ true ↦ trim_left s | false ↦ String.◌∷◌ c s ]

trim_right : String → String
trim_right String.[] = String.[]
trim_right (String.◌∷◌ c s) =
    let rest = trim_right s in if is_space c && rest == "" then "" else String.◌∷◌ c rest

-- `strings.TrimSpace`
unfoldable pub trim_space : String → String
unfolding trim_left trim_right is_space
trim_space s = trim_right (trim_left s)
