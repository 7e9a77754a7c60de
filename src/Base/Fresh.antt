-- ===== src/Base/Fresh.antt =====
-- Loops that refuse a key seen before: what is new to a map, and stays so when a key is written.
use mathlib.Core.Path.{◌≡◌}
use mathlib.Core.Logic.{◌≢◌, ◌↔◌}
use mathlib.Core.Bool.{false}
use mathlib.Core.List.{List, [], ◌∷◌, map}
use native.Mathlib.Omega.{arith}
use entroq.Base.Lists.{All, Distinct, everywhere}
use entroq.Base.Equality.{Eq, string_eq, nat_eq}
use entroq.Base.Maps.{Dict, insert, contains, contains-insert, contains-nil}

module _ {K V A : Type 0} ⦃e : Eq K⦄ (key : A → K) where
  -- The keys are not in the map, and differ from one another.
  abbrev pub AreNew : Dict K V → List A → Type 0
  AreNew seen xs = All (λ a. contains (key a) seen ≡ false) xs × Distinct (map key xs)

  unseen-insert :
      (k : K) (v : V) (seen : Dict K V) (xs : List A)
      → All (λ a. contains (key a) (insert k v seen) ≡ false) xs
        ↔ (All (λ a. contains (key a) seen ≡ false) xs × All (λ s. s ≢ k) (map key xs))
  unseen-insert k v seen [] = (λ h. (tt, tt), λ h. tt)
  unseen-insert k v seen (a ∷ xs) = (
    λ h. ground (arith, contains-insert k (key a) v seen, (unseen-insert k v seen xs).0 h.1),
    λ h.
        ground
          (arith, contains-insert k (key a) v seen, (unseen-insert k v seen xs).1 (h.0.1, h.1.1)),
  )

  -- The keys of a list are new where the first one is, and the others are once it is written.
  pub AreNew-cons :
      (a : A) (v : V) (seen : Dict K V) (xs : List A)
      → AreNew seen (a ∷ xs) ↔ ((contains (key a) seen ≡ false) × AreNew (insert (key a) v seen) xs)
  AreNew-cons a v seen xs = (
    λ h. (h.0.0, ((unseen-insert (key a) v seen xs).1 (h.0.1, h.1.0), h.1.1)),
    λ h. let p = (unseen-insert (key a) v seen xs).0 h.1.0 in ((h.0, p.0), (p.1, h.1.1)),
  )

  pub AreNew-nil :
      (seen : Dict K V) (xs : List A) → seen ≡ [] → AreNew seen xs ↔ Distinct (map key xs)
  AreNew-nil seen xs none_seen =
      (λ h. h.1, λ h. (everywhere (λ a. contains-nil (key a) seen none_seen) xs, h))
