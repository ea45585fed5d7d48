-- ===== src/Reconciliation/GroupCounts.antt =====
-- Grouping and sorting the groups moves identifiers about, and loses or adds none.
use reconcileflow_ai.Prelude.{
  ◌+◌, ◌≡◌, refl, ◌∙◌, inl, inr, Bool, List, [], ◌∷◌, ◌++◌, map, arith, Text, Bool-cases,
}
use reconcileflow_ai.Prelude.Count.{count, count-map_append}
use reconcileflow_ai.Prelude.Sorting.{insert, sort}
use reconcileflow_ai.Reconciliation.Grouping.{Group, members, insert_group, group_from, group_by}

-- All members, group after group.
abbrev pub flat {ℓ} : {A : Type ℓ} → List (Group A) → List A
flat [] = []
flat (g ∷ gs) = members g ++ flat gs

module _ {ℓ} {A : Type ℓ} (x : Text) (f : A → Text) where
  count-insert_group :
      (same : A → A → Bool) (a : A) (gs : List (Group A))
      → count x (map f (flat (insert_group same a gs))) ≡ count x (map f (a ∷ flat gs))
  unfolding insert_group count
  count-insert_group same a [] = refl
  count-insert_group same a (g ∷ gs) = elim (Bool-cases (same g.first a)) [
    | inl e ↦
        rw (e, insert_group)
          (ground (
            arith,
            count-map_append x f (g.rest ++ a ∷ []) (flat gs),
            count-map_append x f g.rest (a ∷ []),
            count-map_append x f g.rest (flat gs),
          ))
    | inr e ↦
        rw (e, insert_group)
          (ground (
            arith,
            count-map_append x f g.rest (flat (insert_group same a gs)),
            count-map_append x f g.rest (flat gs),
            count-insert_group same a gs,
          ))
  ]

  count-group_from :
      (same : A → A → Bool) (gs : List (Group A)) (xs : List A)
      → count x (map f (flat (group_from same gs xs)))
        ≡ count x (map f (flat gs)) + count x (map f xs)
  unfolding group_from count
  count-group_from same gs [] = omega arith
  count-group_from same gs (a ∷ xs) =
      count-group_from same (insert_group same a gs) xs
      ∙ ground (arith, count-insert_group same a gs)

  pub count-group_by :
      (same : A → A → Bool) (xs : List A)
      → count x (map f (flat (group_by same xs))) ≡ count x (map f xs)
  unfolding group_by count
  count-group_by same xs = omega (arith, count-group_from same [] xs)

  count-flat-insert :
      (le : Group A → Group A → Bool) (g : Group A) (gs : List (Group A))
      → count x (map f (flat (insert le g gs))) ≡ count x (map f (flat (g ∷ gs)))
  unfolding insert
  count-flat-insert le g [] = refl
  count-flat-insert le g (h ∷ gs) = elim (Bool-cases (le g h)) [
    | inl e ↦ rw (e, insert)
    | inr e ↦
        rw (e, insert)
          (omega (
            arith,
            count-map_append x f (members h) (flat (insert le g gs)),
            count-map_append x f (members h) (flat gs),
            count-map_append x f (members g) (flat gs),
            count-map_append x f (members g) (flat (h ∷ gs)),
            count-flat-insert le g gs,
          ))
  ]

  pub count-flat-sort :
      (le : Group A → Group A → Bool) (gs : List (Group A))
      → count x (map f (flat (sort le gs))) ≡ count x (map f (flat gs))
  unfolding sort
  count-flat-sort le [] = refl
  count-flat-sort le (g ∷ gs) =
      count-flat-insert le g (sort le gs)
      ∙ omega (
        arith,
        count-map_append x f (members g) (flat (sort le gs)),
        count-map_append x f (members g) (flat gs),
        count-flat-sort le gs,
      )
