-- ===== src/Kube/Same.antt =====
-- Comparisons of fields that are lists (`reflect.DeepEqual`), and the change of the subjects of a role
-- binding that controllers/gitops_reconciler.go and controllers/servicemesh_reconciler.go make.
use workshop_operator.Prelude.{◌≢◌, String, Bool, true, false, not, ◌&&◌, List, [], ◌∷◌, ◌=ₛ◌}
use workshop_operator.Kube.Object.{Spec, Subject, role_binding_spec, kind_of, workshop}
use workshop_operator.Kube.Merge.{Change}

unfoldable pub same_texts : List String → List String → Bool
same_texts [] [] = true
same_texts (x ∷ xs) (y ∷ ys) = let rest = same_texts xs ys in x =ₛ y && rest
same_texts _ _ = false

unfoldable pub same_subjects : List Subject → List Subject → Bool
same_subjects [] [] = true
same_subjects (x ∷ xs) (y ∷ ys) =
    let rest = same_subjects xs ys in
    x.kind =ₛ y.kind
    && x.api_group =ₛ y.api_group
    && x.name =ₛ y.name
    && x.namespace_name =ₛ y.namespace_name
    && rest
same_subjects _ _ = false

-- The wanted list is made, and an empty list is read as one that was not: they differ.
unfoldable pub differs : {A : Type 0} → (List A → List A → Bool) → List A → List A → Bool
differs same [] there = true
differs same wanted there = not (same wanted there)

unfoldable pub with_subjects : List Subject → Spec → Spec
with_subjects subjects (role_binding_spec _ role) = role_binding_spec subjects role
with_subjects subjects _ =
    role_binding_spec subjects (record { api_group = ""; kind = ""; name = "" })

unfoldable pub subjects_change : List Subject → Change
subjects_change subjects = record {
  is_due =
      λ s. elim s [ role_binding_spec there _ ↦ differs same_subjects subjects there | _ ↦ true ];
  apply = with_subjects subjects;
}

-- A change makes no workshop.
pub subjects-kind :
    (subjects : List Subject) (s : Spec) → kind_of (with_subjects subjects s) ≢ workshop
unfolding with_subjects
subjects-kind subjects (role_binding_spec _ _) h = cc
subjects-kind subjects _ h = cc
