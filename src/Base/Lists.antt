-- ===== src/Base/Lists.antt =====
-- Arrays as lists, measured and indexed by native numbers.
use Prim.Native.Nat.{ℕ, zero, suc, ◌+◌}
use mathlib.Core.Path.{◌≡◌, refl, sym, ap, subst}
use mathlib.Core.Logic.{inl, inr}
use mathlib.Core.List.{List, [], ◌∷◌, ◌++◌, Memᴰ}
use mathlib.Core.List.Memᴰ
use native.Mathlib.Omega.{arith}

module _ {ℓ} {A : Type ℓ} where
  abbrev pub length : List A → ℕ
  length [] = 0
  length (x ∷ xs) = suc (length xs)

  abbrev pub replicate : ℕ → A → List A
  replicate zero a = []
  replicate (suc n) a = a ∷ replicate n a

  pub length-append : (xs ys : List A) → length (xs ++ ys) ≡ length xs + length ys
  length-append [] ys = omega arith
  length-append (x ∷ xs) ys = omega (arith, length-append xs ys)

  pub length-replicate : (n : ℕ) (a : A) → length (replicate n a) ≡ n
  length-replicate zero a = refl
  length-replicate (suc n) a = ap suc (length-replicate n a)

  -- Every item satisfies P, as a nested pair.
  abbrev pub All {κ} : (A → Type κ) → List A → Type κ
  All P [] = Unit
  All P (x ∷ xs) = P x × All P xs

  pub All-weaken : {P Q : A → Type 0} (xs : List A) → ((a : A) → P a → Q a) → All P xs → All Q xs
  All-weaken [] f h = tt
  All-weaken (x ∷ xs) f h = (f x h.0, All-weaken xs f h.1)

  pub All-middle :
      (P : A → Type 0) (before after : List A) (x : A) → All P (before ++ x ∷ after) → P x
  All-middle P [] after x h = h.0
  All-middle P (y ∷ before) after x h = All-middle P before after x h.1

  -- One item is replaced.
  pub All-replace :
      (P : A → Type 0) (before after : List A) (x y : A)
      → P y
      → All P (before ++ x ∷ after)
      → All P (before ++ y ∷ after)
  All-replace P [] after x y p h = (p, h.1)
  All-replace P (z ∷ before) after x y p h = (h.0, All-replace P before after x y p h.1)

  pub All-mem : (P : A → Type 0) (x : A) (xs : List A) → Memᴰ x xs → All P xs → P x
  All-mem P x [] k h = absurd (Memᴰ.not-nil k)
  All-mem P x (y ∷ ys) k h = elim (Memᴰ.cases_cons k) [
    | inl e ↦ subst P (sym e) h.0
    | inr k' ↦ All-mem P x ys k' h.1
  ]
