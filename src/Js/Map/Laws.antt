-- ===== src/Js/Map/Laws.antt =====
-- Laws of the insertion-ordered map.
use reachable_web_observator.Common.{
  if◌then◌else◌, Bool-cases, All, Eq, nat_eq, string_eq, ◌≡◌, refl, ◌≢◌, inl, inr, Option, none,
  some, List, [], ◌∷◌, arith,
}
use reachable_web_observator.Js.Map.{lookup, upsert, delete, keys}

module _ {κ ℓ} {K : Type κ} {V : Type ℓ} where
  -- No key stands twice.
  abbrev pub IsFresh : K → List (K × V) → Type κ
  IsFresh k m = All (λ j. j ≢ k) (keys m)

  abbrev pub IsDistinct : List (K × V) → Type κ
  IsDistinct [] = Unit
  IsDistinct ((k, v) ∷ m) = IsFresh k m × IsDistinct m

module _ {κ ℓ} {K : Type κ} ⦃e : Eq K⦄ {V : Type ℓ} where
  open e use {same, same_iff}

  pub lookup-upsert :
      (k j : K) (f : Option V → V) (m : List (K × V))
      → lookup j (upsert k f m) ≡ (if same k j then some (f (lookup k m)) else lookup j m)
  unfolding lookup upsert
  lookup-upsert k j f [] = refl
  lookup-upsert k j f ((i, w) ∷ m) =
      ground (arith, same_iff k j, same_iff i k, same_iff i j, lookup-upsert k j f m)

  upsert-IsFresh :
      (k j : K) (f : Option V → V) (m : List (K × V))
      → k ≢ j
      → IsFresh j m
      → IsFresh j (upsert k f m)
  unfolding upsert
  upsert-IsFresh k j f [] ne h = (ne, tt)
  upsert-IsFresh k j f ((i, w) ∷ m) ne (n, h) = elim (Bool-cases (same i k)) [
    | inl equal ↦ rw equal (n, h)
    | inr other ↦ rw other (n, upsert-IsFresh k j f m ne h)
  ]

  pub upsert-IsDistinct :
      (k : K) (f : Option V → V) (m : List (K × V)) → IsDistinct m → IsDistinct (upsert k f m)
  unfolding upsert
  upsert-IsDistinct k f [] h = (tt, tt)
  upsert-IsDistinct k f ((i, w) ∷ m) (fresh, h) = elim (Bool-cases (same i k)) [
    | inl equal ↦ rw equal (fresh, h)
    | inr other ↦ rw other (
      upsert-IsFresh k i f m (λ p. ground (arith, same_iff i k)) fresh,
      upsert-IsDistinct k f m h,
    )
  ]

  lookup_of_IsFresh : (k : K) (m : List (K × V)) → IsFresh k m → lookup k m ≡ none
  unfolding lookup
  lookup_of_IsFresh k [] h = refl
  lookup_of_IsFresh k ((i, w) ∷ m) (ne, h) = ground (arith, same_iff i k, lookup_of_IsFresh k m h)

  pub lookup-delete :
      (k j : K) (m : List (K × V))
      → IsDistinct m
      → lookup j (delete k m) ≡ (if same k j then none else lookup j m)
  unfolding lookup delete
  lookup-delete k j [] h = elim (Bool-cases (same k j)) [
    | inl equal ↦ rw equal
    | inr other ↦ rw other
  ]
  lookup-delete k j ((i, w) ∷ m) (fresh, h) = ground (
    arith,
    same_iff k j,
    same_iff i k,
    same_iff i j,
    lookup-delete k j m h,
    lookup_of_IsFresh i m fresh,
  )

  delete-IsFresh : (k j : K) (m : List (K × V)) → IsFresh j m → IsFresh j (delete k m)
  unfolding delete
  delete-IsFresh k j [] h = tt
  delete-IsFresh k j ((i, w) ∷ m) (n, h) = elim (Bool-cases (same i k)) [
    | inl equal ↦ rw equal h
    | inr other ↦ rw other (n, delete-IsFresh k j m h)
  ]

  pub delete-IsDistinct : (k : K) (m : List (K × V)) → IsDistinct m → IsDistinct (delete k m)
  unfolding delete
  delete-IsDistinct k [] h = tt
  delete-IsDistinct k ((i, w) ∷ m) (fresh, h) = elim (Bool-cases (same i k)) [
    | inl equal ↦ rw equal h
    | inr other ↦ rw other (delete-IsFresh k i m fresh, delete-IsDistinct k m h)
  ]

  lookup-cons_of_IsFresh :
      (k : K) (v : V) (m xs : List (K × V))
      → IsFresh k xs
      → All (λ p. lookup p.0 m ≡ some p.1) xs
      → All (λ p. lookup p.0 ((k, v) ∷ m) ≡ some p.1) xs
  unfolding lookup
  lookup-cons_of_IsFresh k v m [] fresh h = tt
  lookup-cons_of_IsFresh k v m ((j, w) ∷ xs) (ne, fresh) (p, h) =
      (ground (arith, same_iff k j), lookup-cons_of_IsFresh k v m xs fresh h)

  -- Where no key stands twice, every entry is found under its key.
  pub lookup_of_entry : (m : List (K × V)) → IsDistinct m → All (λ p. lookup p.0 m ≡ some p.1) m
  unfolding lookup
  lookup_of_entry [] h = tt
  lookup_of_entry ((k, v) ∷ m) (fresh, h) =
      (ground (arith, same_iff k k), lookup-cons_of_IsFresh k v m m fresh (lookup_of_entry m h))
