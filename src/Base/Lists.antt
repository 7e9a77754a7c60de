-- ===== src/Base/Lists.antt =====
-- Lists measured by native numbers, under the library's names, and predicates on their members.
use Prim.Native.Nat.{ℕ, suc, ◌+◌}
use mathlib.Core.Path.{◌≡◌, refl}
use mathlib.Core.Logic.{◌↔◌, ◌≢◌}
use mathlib.Core.Bool.{Bool, true, false, ◌||◌}
use mathlib.Core.List.{List, [], ◌∷◌, ◌++◌}
use native.Mathlib.Omega.{arith}
use entroq.Base.Tests.{if◌then◌else◌}

module _ {ℓ} {A : Type ℓ} where
  abbrev pub length : List A → ℕ
  length [] = 0
  length (x ∷ xs) = suc (length xs)

  -- Holds of every member.
  abbrev pub All {κ} : (A → Type κ) → List A → Type κ
  All P [] = Unit
  All P (x ∷ xs) = P x × All P xs

  -- `len(xs) == 0`
  abbrev pub is_empty : List A → Bool
  is_empty [] = true
  is_empty (x ∷ xs) = false

  -- `slices.ContainsFunc`
  abbrev pub any : (A → Bool) → List A → Bool
  any p [] = false
  any p (x ∷ xs) = p x || any p xs

  abbrev pub keep : (A → Bool) → List A → List A
  keep p [] = []
  keep p (x ∷ xs) = if p x then x ∷ keep p xs else keep p xs

  pub length-append : (xs ys : List A) → length (xs ++ ys) ≡ length xs + length ys
  length-append [] ys = omega arith
  length-append (x ∷ xs) ys = omega (arith, length-append xs ys)

  pub All-append {κ} : (P : A → Type κ) (xs ys : List A) → All P (xs ++ ys) ↔ (All P xs × All P ys)
  All-append P [] ys = (λ h. (tt, h), λ h. h.1)
  All-append P (x ∷ xs) ys = (
    λ h. ((h.0, ((All-append P xs ys).0 h.1).0), ((All-append P xs ys).0 h.1).1),
    λ h. (h.0.0, (All-append P xs ys).1 (h.0.1, h.1)),
  )

  -- Nothing is kept exactly when the test fails on every member.
  pub is_empty-keep :
      (p : A → Bool) (xs : List A) → (is_empty (keep p xs) ≡ true) ↔ All (λ x. p x ≡ false) xs
  is_empty-keep p [] = (λ _. tt, λ _. refl)
  is_empty-keep p (x ∷ xs) =
      (λ h. ground (arith, (is_empty-keep p xs).0), λ h. ground (arith, (is_empty-keep p xs).1 h.1))

  -- No value occurs twice.
  abbrev pub Distinct : List A → Type ℓ
  Distinct [] = Unit
  Distinct (x ∷ xs) = All (λ y. y ≢ x) xs × Distinct xs

  pub everywhere {κ} : {P : A → Type κ} → ((x : A) → P x) → (xs : List A) → All P xs
  everywhere h [] = tt
  everywhere h (x ∷ xs) = (h x, everywhere h xs)

  pub append-nil : (xs : List A) → xs ++ [] ≡ xs
  append-nil [] = refl
  append-nil (x ∷ xs) = ground (arith, append-nil xs)

  pub append_assoc : (xs ys zs : List A) → (xs ++ ys) ++ zs ≡ xs ++ (ys ++ zs)
  append_assoc [] ys zs = refl
  append_assoc (x ∷ xs) ys zs = ground (arith, append_assoc xs ys zs)

  pub is_empty_iff : (xs : List A) → (is_empty xs ≡ false) ↔ (xs ≢ [])
  is_empty_iff [] = (λ h. cc, λ h. absurd (h refl))
  is_empty_iff (x ∷ xs) = (λ h e. cc, λ h. refl)

  -- `All` under an equivalence of the predicates.
  pub All-iff {κ μ} :
      {P : A → Type κ} {Q : A → Type μ}
      → ((x : A) → P x ↔ Q x)
      → (xs : List A) → All P xs ↔ All Q xs
  All-iff e [] = (λ h. tt, λ h. tt)
  All-iff e (x ∷ xs) =
      (λ h. ((e x).0 h.0, (All-iff e xs).0 h.1), λ h. ((e x).1 h.0, (All-iff e xs).1 h.1))

  pub All-implied {κ μ} :
      {P : A → Type κ} {Q : A → Type μ}
      → ((x : A) → P x → Q x)
      → (xs : List A) → All P xs
      → All Q xs
  All-implied h [] all = tt
  All-implied h (x ∷ xs) all = (h x all.0, All-implied h xs all.1)

  pub All-both {κ μ ν} :
      {P : A → Type κ} {Q : A → Type μ} {R : A → Type ν}
      → ((x : A) → P x → Q x → R x)
      → (xs : List A) → All P xs
      → All Q xs
      → All R xs
  All-both h [] ps qs = tt
  All-both h (x ∷ xs) ps qs = (h x ps.0 qs.0, All-both h xs ps.1 qs.1)

  pub keep-All {κ} : (P : A → Type κ) (p : A → Bool) (xs : List A) → All P xs → All P (keep p xs)
  keep-All P p [] h = tt
  keep-All P p (x ∷ xs) h = elim (p x) as (λ b. All P (if b then x ∷ keep p xs else keep p xs)) [
    | true ↦ (h.0, keep-All P p xs h.1)
    | false ↦ keep-All P p xs h.1
  ]
