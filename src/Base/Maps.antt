-- ===== src/Base/Maps.antt =====
-- Go's maps: association lists with at most one entry a key, over a decided equality of keys.
use mathlib.Core.Path.{◌≡◌, refl}
use mathlib.Core.Bool.{Bool, true, false}
use mathlib.Core.Option.{Option, none, some}
use mathlib.Core.List.{List, [], ◌∷◌}
use native.Mathlib.Omega.{arith}
use entroq.Base.Tests.{if◌then◌else◌}
use entroq.Base.Equality.{Eq, ◌==◌}

abbrev pub Dict : Type 0 → Type 0 → Type 0
Dict K V = List (K × V)

module _ {K V : Type 0} ⦃e : Eq K⦄ where
  -- `v, ok := d[k]`
  unfoldable pub lookup : K → Dict K V → Option V
  lookup k [] = none
  lookup k ((j, v) ∷ d) = if j == k then some v else lookup k d

  -- `d[k] = v`
  unfoldable pub insert : K → V → Dict K V → Dict K V
  insert k v [] = (k, v) ∷ []
  insert k v ((j, w) ∷ d) = if j == k then (k, v) ∷ d else (j, w) ∷ insert k v d

  -- `delete(d, k)`
  unfoldable pub erase : K → Dict K V → Dict K V
  erase k [] = []
  erase k ((j, w) ∷ d) = if j == k then erase k d else (j, w) ∷ erase k d

  abbrev pub contains : K → Dict K V → Bool
  contains k d = elim (lookup k d) [ none ↦ false | some _ ↦ true ]

  pub lookup-insert :
      (k j : K) (v : V) (d : Dict K V)
      → lookup j (insert k v d) ≡ (if k == j then some v else lookup j d)
  unfolding lookup insert
  lookup-insert k j v [] = refl
  lookup-insert k j v ((i, w) ∷ d) = ground (arith, lookup-insert k j v d)

  pub lookup-erase :
      (k j : K) (d : Dict K V) → lookup j (erase k d) ≡ (if k == j then none else lookup j d)
  unfolding lookup erase
  lookup-erase k j [] = ground arith
  lookup-erase k j ((i, w) ∷ d) = ground (arith, lookup-erase k j d)

  -- An entry that was written is there, and the others are as they were.
  pub contains-insert :
      (k j : K) (v : V) (d : Dict K V)
      → contains j (insert k v d) ≡ (if k == j then true else contains j d)
  contains-insert k j v d = ground (arith, lookup-insert k j v d)

  pub contains-nil : (k : K) (d : Dict K V) → d ≡ [] → contains k d ≡ false
  unfolding lookup
  contains-nil k [] h = refl
  contains-nil k (x ∷ d) h = cc

  -- `d[k]`, with the zero value for a missing key
  abbrev pub get_or : K → V → Dict K V → V
  get_or k zero_value d = elim (lookup k d) [ none ↦ zero_value | some v ↦ v ]

  pub get_or-insert :
      (k j : K) (v zero_value : V) (d : Dict K V)
      → get_or j zero_value (insert k v d) ≡ (if k == j then v else get_or j zero_value d)
  get_or-insert k j v zero_value d = ground (arith, lookup-insert k j v d)

module _ {K V W : Type 0} ⦃e : Eq K⦄ (f : K → V → W) where
  -- A new map with what `f` makes of each entry.
  abbrev pub map_values : Dict K V → Dict K W
  map_values [] = []
  map_values ((j, v) ∷ d) = (j, f j v) ∷ map_values d

  pub lookup-map_values :
      (k : K) (d : Dict K V)
      → lookup k (map_values d) ≡ elim (lookup k d) [ none ↦ none | some v ↦ some (f k v) ]
  unfolding lookup
  lookup-map_values k [] = refl
  lookup-map_values k ((j, v) ∷ d) = ground (arith, lookup-map_values k d)
