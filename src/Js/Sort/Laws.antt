-- ===== src/Js/Sort/Laws.antt =====
-- A stable sort returns its input in an order that the comparator accepts.
use mathlib.Core.List.{Perm}
use mathlib.Core.List.Perm
use reachable_web_observator.Common.{
  Bool-cases, length, All, nat_eq, string_eq, suc, ◌≡◌, refl, ap, ◌∙◌, inl, inr, Bool, true, false,
  List, [], ◌∷◌,
}
use reachable_web_observator.Js.Sort.{insert_by, sort_by}

module _ {ℓ} {A : Type ℓ} (before : A → A → Bool) where
  insert_by-perm : (x : A) (xs : List A) → Perm (insert_by before x xs) (x ∷ xs)
  unfolding insert_by
  insert_by-perm x [] = Perm.refl _
  insert_by-perm x (y ∷ ys) = elim (Bool-cases (before y x)) [
    | inl first ↦ rw first (Perm.trans (Perm.cons y (insert_by-perm x ys)) (Perm.swap x y ys))
    | inr later ↦ rw later (Perm.refl _)
  ]

  pub sort_by-perm : (xs : List A) → Perm (sort_by before xs) xs
  unfolding sort_by
  sort_by-perm [] = Perm.refl _
  sort_by-perm (x ∷ xs) =
      Perm.trans (insert_by-perm x (sort_by before xs)) (Perm.cons x (sort_by-perm xs))

  -- No element is wanted before one that stands further left.
  abbrev pub IsSorted : List A → Type ℓ
  IsSorted [] = Unit
  IsSorted (x ∷ xs) = All (λ y. before y x ≡ false) xs × IsSorted xs

  module _ {κ} (P : A → Type κ) where
    All-insert_by : (x : A) (xs : List A) → P x → All P xs → All P (insert_by before x xs)
    unfolding insert_by
    All-insert_by x [] p h = (p, tt)
    All-insert_by x (y ∷ ys) p h = elim (Bool-cases (before y x)) [
      | inl first ↦ rw first (h.0, All-insert_by x ys p h.1)
      | inr later ↦ rw later (p, h)
    ]

    pub All-sort_by : (xs : List A) → All P xs → All P (sort_by before xs)
    unfolding sort_by
    All-sort_by [] h = tt
    All-sort_by (x ∷ xs) h = All-insert_by x (sort_by before xs) h.0 (All-sort_by xs h.1)

    All-of-insert_by : (x : A) (xs : List A) → All P (insert_by before x xs) → P x × All P xs
    unfolding insert_by
    All-of-insert_by x [] h = h
    All-of-insert_by x (y ∷ ys) h = elim (Bool-cases (before y x)) [
      | inl first ↦
          let (q, k) = rw first at h in let (p, rest) = All-of-insert_by x ys k in (p, (q, rest))
      | inr later ↦ rw later at h
    ]

    pub All-of-sort_by : (xs : List A) → All P (sort_by before xs) → All P xs
    unfolding sort_by
    All-of-sort_by [] h = tt
    All-of-sort_by (x ∷ xs) h =
        let (p, rest) = All-of-insert_by x (sort_by before xs) h in (p, All-of-sort_by xs rest)

  length-insert_by : (x : A) (xs : List A) → length (insert_by before x xs) ≡ suc (length xs)
  unfolding insert_by
  length-insert_by x [] = refl
  length-insert_by x (y ∷ ys) = elim (Bool-cases (before y x)) [
    | inl first ↦ rw first (ap suc (length-insert_by x ys))
    | inr later ↦ rw later
  ]

  pub length-sort_by : (xs : List A) → length (sort_by before xs) ≡ length xs
  unfolding sort_by
  length-sort_by [] = refl
  length-sort_by (x ∷ xs) = length-insert_by x (sort_by before xs) ∙ ap suc (length-sort_by xs)

  -- What the comparator has to satisfy: it never wants both orders, and it is transitive on what
  -- it does not reverse.
  module _ (asym : (x y : A) → before x y ≡ true → before y x ≡ false)
      (trans : (x y z : A) → before y x ≡ false → before z y ≡ false → before z x ≡ false) where
    insert_by-IsSorted : (x : A) (xs : List A) → IsSorted xs → IsSorted (insert_by before x xs)
    unfolding insert_by
    insert_by-IsSorted x [] h = (tt, tt)
    insert_by-IsSorted x (y ∷ ys) h = elim (Bool-cases (before y x)) [
      | inl first ↦ rw first (
        All-insert_by (λ z. before z y ≡ false) x ys (asym y x first) h.0,
        insert_by-IsSorted x ys h.1,
      )
      | inr later ↦ rw later ((later, below ys h.0 later), h)
    ]
      where
        below :
            (zs : List A)
            → All (λ z. before z y ≡ false) zs
            → before y x ≡ false
            → All (λ z. before z x ≡ false) zs
        below [] k e = tt
        below (z ∷ zs) (p, k) e = (trans x y z e p, below zs k e)

    pub sort_by-IsSorted : (xs : List A) → IsSorted (sort_by before xs)
    unfolding sort_by
    sort_by-IsSorted [] = tt
    sort_by-IsSorted (x ∷ xs) = insert_by-IsSorted x (sort_by before xs) (sort_by-IsSorted xs)
