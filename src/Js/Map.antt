-- ===== src/Js/Map.antt =====
-- `Map<K, V>` and `Set<K>`: an association list in insertion order. `set` on a present key keeps
-- the key's place.
pub mod Laws
use reachable_web_observator.Common.{
  Eq, if◌then◌else◌, Bool, false, ◌||◌, Option, none, some, List, [], ◌∷◌,
}

module _ {κ} {K : Type κ} ⦃e : Eq K⦄ where
  open e use {same}

  -- `[...new Set(xs)]` and `s.has(x)`, in insertion order.
  unfoldable pub contains : List K → K → Bool
  contains [] x = false
  contains (y ∷ ys) x = same y x || contains ys x

  unfoldable pub unique_from : List K → List K → List K
  unfolding contains
  unique_from seen [] = []
  unique_from seen (x ∷ xs) =
      let rest = unique_from (x ∷ seen) xs in
      let skipped = unique_from seen xs in if contains seen x then skipped else x ∷ rest

  abbrev pub unique : List K → List K
  unique xs = unique_from [] xs

module _ {κ ℓ} {K : Type κ} ⦃e : Eq K⦄ {V : Type ℓ} where
  open e use {same}

  -- `m.get(k)`
  unfoldable pub lookup : K → List (K × V) → Option V
  lookup k [] = none
  lookup k ((j, v) ∷ m) = if same j k then some v else lookup k m

  -- The place of `k` is given what `f` makes of the value there; a new key goes to the end.
  unfoldable pub upsert : K → (Option V → V) → List (K × V) → List (K × V)
  upsert k f [] = (k, f none) ∷ []
  upsert k f ((j, v) ∷ m) = if same j k then (j, f (some v)) ∷ m else (j, v) ∷ upsert k f m

  -- `m.set(k, v)`
  abbrev pub put : K → V → List (K × V) → List (K × V)
  put k v m = upsert k (λ _. v) m

  -- `m.delete(k)`
  unfoldable pub delete : K → List (K × V) → List (K × V)
  delete k [] = []
  delete k ((j, v) ∷ m) = if same j k then m else (j, v) ∷ delete k m

module _ {κ ℓ} {K : Type κ} {V : Type ℓ} where
  abbrev pub keys : List (K × V) → List K
  keys [] = []
  keys ((k, v) ∷ m) = k ∷ keys m

  abbrev pub values : List (K × V) → List V
  values [] = []
  values ((k, v) ∷ m) = v ∷ values m
