-- ===== src/HashMap/Laws.antt =====
-- How a table reads after each operation, in `if` form, and that each keeps the keys distinct.
use xivlantern_dalamud.Prelude.{
  suc, ◌≤◌, ◌≡◌, refl, ap, Bool, true, false, Option, none, some, [], ◌∷◌, arith, PartialEq, ◌==◌,
  if◌then◌else◌, length, Option-cases, Bool-cases, ◌⊎◌, inl, inr, sym, ◌∙◌,
}
use mathlib.Core.Option
use xivlantern_dalamud.HashMap.{
  HashMap, get, contains_key, insert, remove, retain, map_values, update_at, IsMap,
}

abbrev pub is_some {ℓ} : {A : Type ℓ} → Option A → Bool
is_some none = false
is_some (some _) = true

-- What `retain` leaves of a lookup.
abbrev pub keep_if {ℓ} : {A : Type ℓ} → (A → Bool) → Option A → Option A
keep_if p none = none
keep_if p (some a) = if p a then some a else none

mapped_some {ℓ} :
    {V : Type ℓ} (f : V → V) (o : Option V) (w : V) → Option.map f o ≡ some w → (v : V) × (w ≡ f v)
mapped_some f none w h = absurd (cc)
mapped_some f (some v) w h = (v, cc)

module _ {ℓ κ} {K : Type ℓ} {V : Type κ} ⦃e : PartialEq K⦄ where
  pub contains_key-get : (m : HashMap K V) (k : K) → contains_key m k ≡ is_some (get m k)
  unfolding get contains_key
  contains_key-get [] k = refl
  contains_key-get ((j, v) ∷ m) k = ground (arith, contains_key-get m k)

  pub get-insert :
      (m : HashMap K V) (k j : K) (v : V)
      → get (insert m k v) j ≡ (if k == j then some v else get m j)
  unfolding get insert
  get-insert [] k j v = refl
  get-insert ((i, w) ∷ m) k j v =
      ground (arith, e.equals_iff i k, e.equals_iff i j, e.equals_iff k j, get-insert m k j v)

  pub get-remove :
      (m : HashMap K V) (k j : K) → get (remove m k) j ≡ (if k == j then none else get m j)
  unfolding get remove
  get-remove [] k j = ground arith
  get-remove ((i, w) ∷ m) k j =
      ground (arith, e.equals_iff i k, e.equals_iff i j, e.equals_iff k j, get-remove m k j)

  get-retain-none :
      (p : K → V → Bool) (m : HashMap K V) (j : K) → get m j ≡ none → get (retain p m) j ≡ none
  unfolding get retain
  get-retain-none p [] j h = refl
  get-retain-none p ((i, w) ∷ m) j h = ground (arith, get-retain-none p m j)

  pub get-retain :
      (p : K → V → Bool) (m : HashMap K V) (j : K)
      → IsMap m
      → get (retain p m) j ≡ keep_if (p j) (get m j)
  unfolding get retain
  get-retain p [] j h = refl
  get-retain p ((i, w) ∷ m) j h =
      ground (arith, e.equals_iff i j, get-retain p m j h.1, get-retain-none p m i h.0)

  pub insert-IsMap : (m : HashMap K V) (k : K) (v : V) → IsMap m → IsMap (insert m k v)
  unfolding insert get
  insert-IsMap [] k v h = (refl, tt)
  insert-IsMap ((i, w) ∷ m) k v h =
      ground (arith, e.equals_iff i k, e.equals_iff k i, insert-IsMap m k v h.1, get-insert m k i v)

  pub remove-IsMap : (m : HashMap K V) (k : K) → IsMap m → IsMap (remove m k)
  unfolding remove
  remove-IsMap [] k h = tt
  remove-IsMap ((i, w) ∷ m) k h = ground (arith, remove-IsMap m k h.1, get-remove m k i)

  pub retain-IsMap : (p : K → V → Bool) (m : HashMap K V) → IsMap m → IsMap (retain p m)
  unfolding retain
  retain-IsMap p [] h = tt
  retain-IsMap p ((i, w) ∷ m) h = ground (arith, retain-IsMap p m h.1, get-retain-none p m i h.0)

  pub length-insert :
      (m : HashMap K V) (k : K) (v : V)
      → length (insert m k v) ≡ (if contains_key m k then length m else suc (length m))
  unfolding insert contains_key
  length-insert [] k v = refl
  length-insert ((i, w) ∷ m) k v = ground (arith, length-insert m k v)

  pub length-retain : (p : K → V → Bool) (m : HashMap K V) → length (retain p m) ≤ length m
  unfolding retain
  length-retain p [] = omega arith
  length-retain p ((i, w) ∷ m) = ground (arith, length-retain p m)

  pub length-remove : (m : HashMap K V) (k : K) → length (remove m k) ≤ length m
  unfolding remove
  length-remove [] k = omega arith
  length-remove ((i, w) ∷ m) k = ground (arith, length-remove m k)

  pub get-map_values :
      (f : V → V) (m : HashMap K V) (k : K) → get (map_values f m) k ≡ Option.map f (get m k)
  unfolding get map_values
  get-map_values f [] k = refl
  get-map_values f ((i, w) ∷ m) k = ground (arith, get-map_values f m k)

  pub map_values-IsMap : (f : V → V) (m : HashMap K V) → IsMap m → IsMap (map_values f m)
  unfolding map_values
  map_values-IsMap f [] h = tt
  map_values-IsMap f ((i, w) ∷ m) h = ground (arith, map_values-IsMap f m h.1, get-map_values f m i)

  -- Storing what is stored already changes nothing.
  pub insert_self : (m : HashMap K V) (k : K) (v : V) → get m k ≡ some v → insert m k v ≡ m
  unfolding get insert
  insert_self [] k v h = cc
  insert_self ((i, w) ∷ m) k v h = ground (arith, e.equals_iff i k, insert_self m k v)

  pub remove_absent : (m : HashMap K V) (k : K) → get m k ≡ none → remove m k ≡ m
  unfolding get remove
  remove_absent [] k h = refl
  remove_absent ((i, w) ∷ m) k h = ground (arith, remove_absent m k)

  pub remove-insert :
      (m : HashMap K V) (k : K) (v : V) → get m k ≡ none → remove (insert m k v) k ≡ m
  unfolding get insert remove
  remove-insert [] k v h = ground (arith, e.equals_iff k k)
  remove-insert ((i, w) ∷ m) k v h = ground (arith, remove-insert m k v)

  update_at_absent : (f : V → V) (m : HashMap K V) (k : K) → get m k ≡ none → update_at f m k ≡ m
  unfolding update_at
  update_at_absent f m k h = rw (h, update_at) refl

  update_at_found :
      (f : V → V) (m : HashMap K V) (k : K) (v : V)
      → get m k ≡ some v
      → update_at f m k ≡ insert m k (f v)
  unfolding update_at
  update_at_found f m k v h = rw (h, update_at) refl

  get_same : (m : HashMap K V) (k j : K) → (k == j) ≡ true → get m k ≡ get m j
  get_same m k j h = ap (get m) ((e.equals_iff k j).0 h)

  pub get-update_at :
      (f : V → V) (m : HashMap K V) (k j : K)
      → get (update_at f m k) j ≡ (if k == j then Option.map f (get m j) else get m j)
  get-update_at f m k j = elim (Option-cases (get m k)) [
    | inl absent ↦ rw (update_at_absent f m k absent) (ground (arith, get_same m k j))
    | inr (v, found) ↦
        rw (update_at_found f m k v found) (ground (arith, get_same m k j, get-insert m k j (f v)))
  ]

  pub update_at-IsMap : (f : V → V) (m : HashMap K V) (k : K) → IsMap m → IsMap (update_at f m k)
  update_at-IsMap f m k h = elim (Option-cases (get m k)) [
    | inl absent ↦ rw (update_at_absent f m k absent) h
    | inr (v, found) ↦ rw (update_at_found f m k v found) (insert-IsMap m k (f v) h)
  ]

  -- A lookup after an insertion finds what was put, or what was there.
  pub insert_cases :
      (m : HashMap K V) (k j : K) (v w : V)
      → get (insert m k v) j ≡ some w
      → ((k ≡ j) × (v ≡ w)) ⊎ (get m j ≡ some w)
  insert_cases m k j v w h = elim (Bool-cases (k == j)) [
    | inl here ↦ inl ((e.equals_iff k j).0 here, ground (arith, get-insert m k j v))
    | inr there ↦ inr (ground (arith, get-insert m k j v))
  ]

  pub insert_has :
      (m : HashMap K V) (k j : K) (v w : V)
      → get m j ≡ some w
      → (x : V) × (get (insert m k v) j ≡ some x)
  insert_has m k j v w h = elim (Bool-cases (k == j)) [
    | inl here ↦ (v, ground (arith, get-insert m k j v))
    | inr there ↦ (w, ground (arith, get-insert m k j v))
  ]

  pub insert_new :
      (m : HashMap K V) (k j : K) (v w : V)
      → get m k ≡ none
      → get m j ≡ some w
      → get (insert m k v) j ≡ some w
  insert_new m k j v w absent h = ground (arith, get-insert m k j v, get_same m k j)

  -- A lookup after an update finds an updated value, or what was there.
  pub update_at_cases :
      (f : V → V) (m : HashMap K V) (k j : K) (w : V)
      → get (update_at f m k) j ≡ some w
      → ((k ≡ j) × ((v : V) × (w ≡ f v))) ⊎ (get m j ≡ some w)
  update_at_cases f m k j w h = elim (Bool-cases (k == j)) [
    | inl here ↦ inl (
      (e.equals_iff k j).0 here,
      mapped_some f (get m j) w (ground (arith, get-update_at f m k j)),
    )
    | inr there ↦ inr (ground (arith, get-update_at f m k j))
  ]

  -- An update that leaves a part `g` of the values alone, read forwards and backwards.
  module _ {ℓ'} {W : Type ℓ'} (f : V → V) (g : V → W) (keeps : (v : V) → g (f v) ≡ g v) where
    pub update_at_forward :
        (m : HashMap K V) (k j : K) (v : V)
        → get m j ≡ some v
        → (w : V) × (get (update_at f m k) j ≡ some w) × (g w ≡ g v)
    update_at_forward m k j v h = elim (Bool-cases (k == j)) [
      | inl here ↦ (f v, ground (arith, get-update_at f m k j), keeps v)
      | inr there ↦ (v, ground (arith, get-update_at f m k j), refl)
    ]

    pub update_at_back :
        (m : HashMap K V) (k j : K) (w : V)
        → get (update_at f m k) j ≡ some w
        → (v : V) × (get m j ≡ some v) × (g w ≡ g v)
    update_at_back m k j w h = elim (Bool-cases (k == j)) [
      | inl here ↦ mapped (get m j) (
          sym (get-update_at f m k j ∙ ap (λ b. if b then Option.map f (get m j) else get m j) here)
          ∙ h)
      | inr there ↦ (w, ground (arith, get-update_at f m k j), refl)
    ]
      where
        mapped : (o : Option V) → Option.map f o ≡ some w → (v : V) × (o ≡ some v) × (g w ≡ g v)
        mapped none e = absurd (cc)
        mapped (some v) e = (v, refl, let same : f v ≡ w = cc in ap g (sym same) ∙ keeps v)
