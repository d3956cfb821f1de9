-- ===== src/HashMap.antt =====
-- `HashMap` and `HashSet` of the standard library, which lantern-core keeps its tables in: the list
-- of the entries in the table's iteration order, each key once. Nothing here depends on that order.
pub mod Laws
use xivlantern_dalamud.Prelude.{
  ◌≡◌, Bool, true, false, Option, none, some, List, [], ◌∷◌, PartialEq, ◌==◌, if◌then◌else◌,
}

abbrev pub HashMap {ℓ κ} : Type ℓ → Type κ → Type (ℓ ⊔ κ)
HashMap K V = List (K × V)

module _ {ℓ κ} {K : Type ℓ} {V : Type κ} ⦃e : PartialEq K⦄ where
  unfoldable pub get : HashMap K V → K → Option V
  get [] k = none
  get ((j, v) ∷ m) k = if j == k then some v else get m k

  unfoldable pub contains_key : HashMap K V → K → Bool
  contains_key [] k = false
  contains_key ((j, v) ∷ m) k = if j == k then true else contains_key m k

  -- A present key keeps its place, a new one comes last.
  unfoldable pub insert : HashMap K V → K → V → HashMap K V
  insert [] k v = (k, v) ∷ []
  insert ((j, w) ∷ m) k v = if j == k then (k, v) ∷ m else (j, w) ∷ insert m k v

  unfoldable pub remove : HashMap K V → K → HashMap K V
  remove [] k = []
  remove ((j, w) ∷ m) k = let rest = remove m k in if j == k then rest else (j, w) ∷ rest

  unfoldable pub retain : (K → V → Bool) → HashMap K V → HashMap K V
  retain p [] = []
  retain p ((j, w) ∷ m) = let rest = retain p m in if p j w then (j, w) ∷ rest else rest

  -- No key stands twice.
  abbrev pub IsMap : HashMap K V → Type κ
  IsMap [] = Unit
  IsMap ((j, w) ∷ m) = (get m j ≡ none) × IsMap m

  -- `values_mut` with an assignment to each value.
  unfoldable pub map_values : (V → V) → HashMap K V → HashMap K V
  map_values f [] = []
  map_values f ((j, w) ∷ m) = (j, f w) ∷ map_values f m

  unfoldable pub keys : HashMap K V → List K
  keys [] = []
  keys ((j, w) ∷ m) = j ∷ keys m

  -- An update of the value at a key: nothing where the key is absent.
  unfoldable pub update_at : (V → V) → HashMap K V → K → HashMap K V
  unfolding get insert
  update_at f m k = elim (get m k) [ none ↦ m | some v ↦ insert m k (f v) ]
