-- ===== src/Prelude/Lists.antt =====
-- Lists of texts, and Go's maps from texts as association lists with one entry for each key.
use Prim.Native.String.{String}
use mathlib.Core.Path.{◌≡◌, refl}
use mathlib.Core.Bool.{Bool, true, false}
use mathlib.Core.Option.{Option, none, some}
use mathlib.Core.List.{List, [], ◌∷◌}
use native.Mathlib.Omega.{arith}
use text.Mathlib.Text.{◌==◌}
use text.Mathlib.TextEquality.{eq_iff}
use workshop_operator.Prelude.Tests.{if◌then◌else◌}

-- `s == t` on texts
infix 50 ◌=ₛ◌
abbrev pub ◌=ₛ◌ : String → String → Bool
s =ₛ t = s == t

abbrev pub All {ℓ κ} : {A : Type ℓ} → (A → Type κ) → List A → Type κ
All P [] = Unit
All P (x ∷ xs) = P x × All P xs

-- Is the text one of the list's?
abbrev pub elem : String → List String → Bool
elem s [] = false
elem s (x ∷ xs) = if x == s then true else elem s xs

-- The items that pass a test, in their order.
abbrev pub keep {ℓ} : {A : Type ℓ} → (A → Bool) → List A → List A
keep p [] = []
keep p (x ∷ xs) = let rest = keep p xs in if p x then x ∷ rest else rest

abbrev pub StringMap : Type 0 → Type 0
StringMap V = List (String × V)

module _ {V : Type 0} where
  -- `m[key]`, with the missing key told apart
  unfoldable pub lookup : String → StringMap V → Option V
  lookup key [] = none
  lookup key (entry ∷ rest) =
      let later = lookup key rest in if entry.0 =ₛ key then some entry.1 else later

  -- `m[key] = value`
  unfoldable pub insert : String → V → StringMap V → StringMap V
  insert key value [] = (key, value) ∷ []
  insert key value (entry ∷ rest) =
      let later = insert key value rest in
      if entry.0 =ₛ key then (key, value) ∷ rest else entry ∷ later

  abbrev pub keys : StringMap V → List String
  keys [] = []
  keys (entry ∷ rest) = entry.0 ∷ keys rest

  pub lookup-insert :
      (key sought : String) (value : V) (entries : StringMap V)
      → lookup sought (insert key value entries)
        ≡ (if key =ₛ sought then some value else lookup sought entries)
  unfolding lookup insert
  lookup-insert key sought value [] = refl
  lookup-insert key sought value (entry ∷ rest) = ground (
    arith,
    eq_iff key sought,
    eq_iff entry.0 key,
    eq_iff entry.0 sought,
    lookup-insert key sought value rest,
  )
