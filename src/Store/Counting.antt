-- ===== src/Store/Counting.antt =====
-- How many rows of a table a limit and a deletion leave.
use xivlantern_dalamud.Prelude.{
  ℕ, zero, suc, ◌≤◌, ◌≡◌, refl, Bool, not, List, [], ◌∷◌, arith, length, take, retain, count_if,
  if◌then◌else◌,
}

module _ {ℓ} {A : Type ℓ} where
  pub count-take :
      (p : A → Bool) (n : ℕ) (rows : List A) → count_if p (take n rows) ≤ count_if p rows
  unfolding count_if
  count-take p zero rows = omega arith
  count-take p (suc n) [] = omega arith
  count-take p (suc n) (x ∷ rows) = ground (arith, count-take p n rows)

  pub count-le-length : (p : A → Bool) (rows : List A) → count_if p rows ≤ length rows
  unfolding count_if
  count-le-length p [] = omega arith
  count-le-length p (x ∷ rows) = ground (arith, count-le-length p rows)

  pub count-retain-not :
      (p : A → Bool) (rows : List A) → count_if p (retain (λ row. not (p row)) rows) ≡ 0
  unfolding count_if retain
  count-retain-not p [] = refl
  count-retain-not p (x ∷ rows) = ground (arith, count-retain-not p rows)

  pub count-retain_kept :
      (p : A → Bool) (rows : List A) → count_if (λ row. not (p row)) (retain p rows) ≡ 0
  unfolding count_if retain
  count-retain_kept p [] = refl
  count-retain_kept p (x ∷ rows) = ground (arith, count-retain_kept p rows)

  pub count-retain_other :
      (p q : A → Bool) (rows : List A) → count_if p (retain q rows) ≤ count_if p rows
  unfolding count_if retain
  count-retain_other p q [] = omega arith
  count-retain_other p q (x ∷ rows) = ground (arith, count-retain_other p q rows)

  -- A row put where an order has it, and all of them in that order.
  unfoldable pub put_ordered : (A → A → Bool) → A → List A → List A
  put_ordered before x [] = x ∷ []
  put_ordered before x (y ∷ ys) = if before x y then x ∷ y ∷ ys else y ∷ put_ordered before x ys

  unfoldable pub in_order : (A → A → Bool) → List A → List A
  unfolding put_ordered
  in_order before [] = []
  in_order before (x ∷ rows) = put_ordered before x (in_order before rows)

  count-put_ordered :
      (before : A → A → Bool) (p : A → Bool) (x : A) (ys : List A)
      → count_if p (put_ordered before x ys) ≡ count_if p (x ∷ ys)
  unfolding put_ordered count_if
  count-put_ordered before p x [] = refl
  count-put_ordered before p x (y ∷ ys) = ground (arith, count-put_ordered before p x ys)

  count-in_order :
      (before : A → A → Bool) (p : A → Bool) (rows : List A)
      → count_if p (in_order before rows) ≡ count_if p rows
  unfolding in_order count_if
  count-in_order before p [] = refl
  count-in_order before p (x ∷ rows) =
      ground
        (arith, count-put_ordered before p x (in_order before rows), count-in_order before p rows)

  pub count-take-in_order :
      (before : A → A → Bool) (p : A → Bool) (n : ℕ) (rows : List A)
      → count_if p (take n (in_order before rows)) ≤ count_if p rows
  count-take-in_order before p n rows =
      omega (arith, count-take p n (in_order before rows), count-in_order before p rows)
