-- ===== src/Js/Grouping/Laws.antt =====
-- What grouping guarantees, whatever the groups collect.
use reachable_web_observator.Common.{
  if◌then◌else◌, Bool-cases, length, All, nat_eq, string_eq, ℕ, suc, ◌+◌, String, ◌≡◌, refl, ap,
  ◌∙◌, inl, inr, Option, none, some, List, [], ◌∷◌, arith, str_eq, eq_iff,
}
use reachable_web_observator.Js.Map.{lookup, upsert}
use reachable_web_observator.Js.Map.Laws.{lookup-upsert, IsDistinct, upsert-IsDistinct}
use reachable_web_observator.Js.Grouping.{extend, group_from}

module _ {ℓ κ} {A : Type ℓ} {G : Type κ} (key : A → String) (fresh : A → G) (grow : G → A → G) where
  -- No two groups have the same key.
  pub group_from-IsDistinct :
      (groups : List (String × G)) (items : List A)
      → IsDistinct groups
      → IsDistinct (group_from key fresh grow groups items)
  unfolding group_from
  group_from-IsDistinct groups [] h = h
  group_from-IsDistinct groups (a ∷ rest) h =
      group_from-IsDistinct (upsert (key a) (extend key fresh grow a) groups) rest
        (upsert-IsDistinct (key a) (extend key fresh grow a) groups h)

  -- The group of `k`, computed from the items of that key alone.
  abbrev pub collect : String → Option G → List A → Option G
  collect k found [] = found
  collect k found (a ∷ rest) =
      collect k (if str_eq (key a) k then some (extend key fresh grow a found) else found) rest

  lookup-upsert-extend :
      (k : String) (a : A) (groups : List (String × G))
      → lookup k (upsert (key a) (extend key fresh grow a) groups) ≡ (
          if str_eq (key a) k
          then some (extend key fresh grow a (lookup k groups))
          else lookup k groups)
  lookup-upsert-extend k a groups =
      lookup-upsert (key a) k (extend key fresh grow a) groups ∙ same_group
    where
      same_group :
          (if str_eq (key a) k
            then some (extend key fresh grow a (lookup (key a) groups))
            else lookup k groups)
          ≡ (if str_eq (key a) k
              then some (extend key fresh grow a (lookup k groups))
              else lookup k groups)
      same_group = elim (Bool-cases (str_eq (key a) k)) [
        | inl found ↦ rw found (
            ap (λ j. some (extend key fresh grow a (lookup j groups))) ((eq_iff (key a) k).0 found))
        | inr other ↦ rw other
      ]

  pub lookup-group_from :
      (k : String) (groups : List (String × G)) (items : List A)
      → lookup k (group_from key fresh grow groups items) ≡ collect k (lookup k groups) items
  unfolding group_from
  lookup-group_from k groups [] = refl
  lookup-group_from k groups (a ∷ rest) =
      lookup-group_from k (upsert (key a) (extend key fresh grow a) groups) rest
      ∙ ap (λ o. collect k o rest) (lookup-upsert-extend k a groups)

  -- A property of a group and an item of it that later items do not destroy holds in the end.
  module _ {μ} (R : G → A → Type μ) (made : (a : A) → R (fresh a) a)
      (grown : (g : G) (a : A) → R (grow g a) a)
      (kept : (g : G) (a b : A) → R g b → R (grow g a) b) where
    extend-R : (a : A) (o : Option G) → R (extend key fresh grow a o) a
    extend-R a none = made a
    extend-R a (some g) = grown g a

    kept-collect :
        (k : String) (g : G) (b : A) (items : List A)
        → R g b
        → (g' : G) × (collect k (some g) items ≡ some g') × R g' b
    kept-collect k g b [] r = (g, refl, r)
    kept-collect k g b (a ∷ rest) r = elim (Bool-cases (str_eq (key a) k)) [
      | inl found ↦ rw found (kept-collect k (grow g a) b rest (kept g a b r))
      | inr other ↦ rw other (kept-collect k g b rest r)
    ]

    abbrev pub Covers : List (String × G) → A → Type (κ ⊔ μ)
    Covers groups a = (g : G) × (lookup (key a) groups ≡ some g) × R g a

    -- Every item is covered by the group of its key.
    pub group_from-Covers :
        (groups : List (String × G)) (items : List A)
        → All (Covers (group_from key fresh grow groups items)) items
    unfolding group_from
    group_from-Covers groups [] = tt
    group_from-Covers groups (a ∷ rest) = (first, group_from-Covers next rest)
      where
        next : List (String × G)
        next = upsert (key a) (extend key fresh grow a) groups

        first : Covers (group_from key fresh grow next rest) a
        first =
            let (g, collected, r) =
              kept-collect (key a) (extend key fresh grow a (lookup (key a) groups)) a rest
                (extend-R a (lookup (key a) groups)) in
            (
              g,
              lookup-group_from (key a) next rest
                  ∙ ap (λ o. collect (key a) o rest)
                      (lookup-upsert-extend (key a) a groups ∙ rw ((eq_iff (key a) (key a)).1 refl))
                  ∙ collected,
              r,
            )

  -- The sizes of the groups add up to the number of items, if a group grows by one at a time.
  module _ (size : G → ℕ) (size-fresh : (a : A) → size (fresh a) ≡ 1)
      (size-grow : (g : G) (a : A) → size (grow g a) ≡ suc (size g)) where
    abbrev pub total_size : List (String × G) → ℕ
    total_size [] = 0
    total_size ((k, g) ∷ groups) = size g + total_size groups

    total_size-upsert :
        (a : A) (groups : List (String × G))
        → total_size (upsert (key a) (extend key fresh grow a) groups) ≡ suc (total_size groups)
    unfolding upsert
    total_size-upsert a [] = omega (arith, size-fresh a)
    total_size-upsert a ((k, g) ∷ groups) = elim (Bool-cases (str_eq k (key a))) [
      | inl found ↦ rw found (omega (arith, size-grow g a))
      | inr other ↦ rw other (omega (arith, total_size-upsert a groups))
    ]

    pub total_size-group_from :
        (groups : List (String × G)) (items : List A)
        → total_size (group_from key fresh grow groups items) ≡ total_size groups + length items
    unfolding group_from
    total_size-group_from groups [] = omega arith
    total_size-group_from groups (a ∷ rest) = omega (
      arith,
      total_size-group_from (upsert (key a) (extend key fresh grow a) groups) rest,
      total_size-upsert a groups,
    )

  -- A group keeps the key that it was made for.
  module _ (key_of : G → String) (key_of-fresh : (a : A) → key_of (fresh a) ≡ key a)
      (key_of-grow : (g : G) (a : A) → key_of (grow g a) ≡ key_of g) where
    abbrev pub IsKeyed : List (String × G) → Type 0
    IsKeyed groups = All (λ p. key_of p.1 ≡ p.0) groups

    upsert-IsKeyed :
        (a : A) (groups : List (String × G))
        → IsKeyed groups
        → IsKeyed (upsert (key a) (extend key fresh grow a) groups)
    unfolding upsert
    upsert-IsKeyed a [] h = (key_of-fresh a, tt)
    upsert-IsKeyed a ((k, g) ∷ groups) (e, h) = elim (Bool-cases (str_eq k (key a))) [
      | inl found ↦ rw found (key_of-grow g a ∙ e, h)
      | inr other ↦ rw other (e, upsert-IsKeyed a groups h)
    ]

    pub group_from-IsKeyed :
        (groups : List (String × G)) (items : List A)
        → IsKeyed groups
        → IsKeyed (group_from key fresh grow groups items)
    unfolding group_from
    group_from-IsKeyed groups [] h = h
    group_from-IsKeyed groups (a ∷ rest) h =
        group_from-IsKeyed (upsert (key a) (extend key fresh grow a) groups) rest
          (upsert-IsKeyed a groups h)
