-- ===== src/Util/Maps.antt =====
-- `IsIntersectMap` against containment of maps.
use workshop_operator.Prelude.{
  ◌≡◌, ◌⊎◌, ◌↔◌, refl, String, true, [], ◌∷◌, StringMap, lookup, Option, none, some, All, arith,
  eq_iff, inl, inr,
}
use workshop_operator.Util.{is_intersect_map, value_or_empty}

-- The entry stands in the map, or its value is empty and its key is missing there.
abbrev pub Agrees : StringMap String → String × String → Type 0
Agrees whole_map (k, v) = (lookup k whole_map ≡ some v) ⊎ ((lookup k whole_map ≡ none) × (v ≡ ""))

agrees :
    (o : Option String) (v : String) → value_or_empty o ≡ v → (o ≡ some v) ⊎ ((o ≡ none) × (v ≡ ""))
agrees none v h = inr (refl, ground arith)
agrees (some u) v h = inl (ground arith)

agreed :
    (o : Option String) (v : String) → (o ≡ some v) ⊎ ((o ≡ none) × (v ≡ "")) → value_or_empty o ≡ v
agreed o v h = ground arith

-- The test passes exactly when every entry of the first map stands in the second, or has an
-- empty value and a key that the second map lacks.
pub is_intersect_map-Agrees :
    (sub_map whole_map : StringMap String)
    → (is_intersect_map sub_map whole_map ≡ true) ↔ All (Agrees whole_map) sub_map
unfolding is_intersect_map
is_intersect_map-Agrees [] whole_map = (λ h. tt, λ h. refl)
is_intersect_map-Agrees ((k, v) ∷ sub_map) whole_map =
    let tail = is_intersect_map-Agrees sub_map whole_map in
    let same = eq_iff (value_or_empty (lookup k whole_map)) v in
    (
      λ h. (agrees (lookup k whole_map) v (ground (arith, same)), tail.0 (ground (arith, same))),
      λ (h, t). ground (arith, same, agreed (lookup k whole_map) v h, tail.1 t),
    )
