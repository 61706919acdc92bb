-- ===== src/Prelude/Orders.antt =====
-- Lists whose items stand in an order: each one before all that come after it.
use Prim.Native.Nat.{ℕ, zero, suc}
use mathlib.Core.Bool.{Bool}
use mathlib.Core.List.{List, [], ◌∷◌}
use mathlib.Core.Logic.{inl, inr}
use mathlib.Core.Path.{◌≡◌}
use home_work_ad_processor_g.Prelude.Tests.{Bool-cases}
use home_work_ad_processor_g.Prelude.Lists.{take, drop, All, keep_if}

module _ {ℓ κ} {A : Type ℓ} where
  pub All-take : (P : A → Type κ) (n : ℕ) (xs : List A) → All P xs → All P (take n xs)
  All-take P zero xs h = tt
  All-take P (suc n) [] h = tt
  All-take P (suc n) (x ∷ xs) h = (h.0, All-take P n xs h.1)

  pub All-drop : (P : A → Type κ) (n : ℕ) (xs : List A) → All P xs → All P (drop n xs)
  All-drop P zero xs h = h
  All-drop P (suc n) [] h = tt
  All-drop P (suc n) (x ∷ xs) h = All-drop P n xs h.1

  pub All-map : (P Q : A → Type κ) (xs : List A) → ((x : A) → P x → Q x) → All P xs → All Q xs
  All-map P Q [] f h = tt
  All-map P Q (x ∷ xs) f h = (f x h.0, All-map P Q xs f h.1)

  pub All-kept :
      (p : A → Bool) (P : A → Type κ) (xs : List A)
      → ((x : A) → p x ≡ Bool.true → P x)
      → All P (keep_if p xs)
  All-kept p P [] f = tt
  All-kept p P (x ∷ xs) f = elim (Bool-cases (p x)) [
    | inl e ↦ rw e (f x e, All-kept p P xs f)
    | inr e ↦ rw e (All-kept p P xs f)
  ]

  -- Each item is related to all the later ones.
  abbrev pub Ordered : (A → A → Type κ) → List A → Type κ
  Ordered R [] = Unit
  Ordered R (x ∷ xs) = All (R x) xs × Ordered R xs

module _ {ℓ κ} {A : Type ℓ} where
  pub Ordered-take :
      (R : A → A → Type κ) (n : ℕ) (xs : List A) → Ordered R xs → Ordered R (take n xs)
  Ordered-take R zero xs h = tt
  Ordered-take R (suc n) [] h = tt
  Ordered-take R (suc n) (x ∷ xs) h = (All-take (R x) n xs h.0, Ordered-take R n xs h.1)

  pub Ordered-drop :
      (R : A → A → Type κ) (n : ℕ) (xs : List A) → Ordered R xs → Ordered R (drop n xs)
  Ordered-drop R zero xs h = h
  Ordered-drop R (suc n) [] h = tt
  Ordered-drop R (suc n) (x ∷ xs) h = Ordered-drop R n xs h.1
