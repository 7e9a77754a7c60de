-- ===== src/Mem/Heap/Searches.antt =====
-- What RandomAvailable of the claim heap finds, pkg/backend/eqmem/claimheap.go. That it misses
-- nothing does not rest on the order of the heap: below an item that is not available it always
-- looks on.
use mathlib.Core.Path.{subst}
use entroq.Base.{
  Time, before, leb, if◌then◌else◌, Bool-cases, is_some, string_eq, nat_eq, ◌==◌, ℕ, zero, suc, ◌+◌,
  ◌-◌, ◌*◌, ◌/◌, ◌%◌, ◌≤◌, ◌<◌, ◌≡◌, refl, ap, inl, inr, Bool, true, false, Option, none, some,
  List, [], ◌∷◌, arith,
}
use entroq.Mem.Heap.{ClaimHeap, draw, prefer, look, candidate, rand_avail}
use entroq.Mem.Heap.Sifts.{Holds}

-- The item is in the slice and available.
abbrev IsDue : Time → ClaimHeap → ℕ → Type 0
IsDue now h p = Holds h p × ((h.store p).at ≤ now)

abbrev OnlyDue : Time → ClaimHeap → Option ℕ → Type 0
OnlyDue now h none = Unit
OnlyDue now h (some p) = IsDue now h p

look-OnlyDue :
    (now : Time) (h : ClaimHeap) (found : Bool) (item : Option ℕ)
    (below : List Bool → Option ℕ × List Bool) (ds : List Bool)
    → ((es : List Bool) → OnlyDue now h (below es).0)
    → OnlyDue now h item
    → OnlyDue now h (look found item below ds).0
unfolding look
look-OnlyDue now h found item below ds all due =
    let goes_on = (draw found ds).0 in
    let new = below (draw found ds).1 in pick goes_on new (all (draw found ds).1)
  where
    chosen : Bool → Option ℕ × List Bool → Option ℕ × List Bool
    chosen b new = if b then (prefer new.0 item, new.1) else (item, (draw found ds).1)

    pick :
        (b : Bool) (new : Option ℕ × List Bool)
        → OnlyDue now h new.0
        → OnlyDue now h (chosen b new).0
    pick true (none, es) x = due
    pick true (some p, es) x = x
    pick false new x = due

candidate-OnlyDue :
    (now : Time) (h : ClaimHeap) (i : ℕ) → i < h.size → OnlyDue now h (candidate now h i)
unfolding candidate
candidate-OnlyDue now h i a = elim (Bool-cases (before now (h.store (h.items i)).at)) [
  | inl e ↦ rw e tt
  | inr e ↦ rw e ((i, a, refl), ground (arith, e))
]

rand_avail-OnlyDue :
    (k : ℕ) (now : Time) (h : ClaimHeap) (i : ℕ) (ds : List Bool)
    → OnlyDue now h (rand_avail k now h i ds).0
unfolding rand_avail
rand_avail-OnlyDue zero now h i ds = tt
rand_avail-OnlyDue (suc k) now h i ds =
    let item = candidate now h i in
    let left = look (is_some item) item (rand_avail k now h (2 * i + 1)) ds in
    elim (Bool-cases (leb h.size i)) [
      | inl e ↦ rw (e, rand_avail) tt
      | inr e ↦
          rw (e, rand_avail)
            (look-OnlyDue now h (is_some item) left.0 (rand_avail k now h (2 * i + 2)) left.1
              (rand_avail-OnlyDue k now h (2 * i + 2))
              (look-OnlyDue now h (is_some item) item (rand_avail k now h (2 * i + 1)) ds
                (rand_avail-OnlyDue k now h (2 * i + 1))
                (candidate-OnlyDue now h i (ground (arith, e)))))
    ]

-- The slots of the subtree at a slot
data Under : ℕ → ℕ → Type 0 where
  here : (r : ℕ) → Under r r
  on_left : (r i : ℕ) → Under (2 * r + 1) i → Under r i
  on_right : (r i : ℕ) → Under (2 * r + 2) i → Under r i

below_left : (r i : ℕ) → Under r i → Under r (2 * i + 1)
below_left _ _ (here r) = on_left r (2 * r + 1) (here (2 * r + 1))
below_left _ _ (on_left r i u) = on_left r (2 * i + 1) (below_left (2 * r + 1) i u)
below_left _ _ (on_right r i u) = on_right r (2 * i + 1) (below_left (2 * r + 2) i u)

below_right : (r i : ℕ) → Under r i → Under r (2 * i + 2)
below_right _ _ (here r) = on_right r (2 * r + 2) (here (2 * r + 2))
below_right _ _ (on_left r i u) = on_left r (2 * i + 2) (below_right (2 * r + 1) i u)
below_right _ _ (on_right r i u) = on_right r (2 * i + 2) (below_right (2 * r + 2) i u)

-- Every slot is under the root.
root-Under : (k i : ℕ) → i < k → Under 0 i
root-Under zero i a = absurd (omega (arith, a))
root-Under (suc k) i a = elim (Bool-cases (i == 0)) [
  | inl e ↦ subst (λ x. Under 0 x) (ground (arith, e)) (here 0)
  | inr e ↦
      let u = root-Under k ((i - 1) / 2) (ground (arith, a, e)) in
      elim (Bool-cases (i % 2 == 0)) [
        | inl f ↦ subst (λ x. Under 0 x) (ground (arith, e, f)) (below_right 0 ((i - 1) / 2) u)
        | inr f ↦ subst (λ x. Under 0 x) (ground (arith, e, f)) (below_left 0 ((i - 1) / 2) u)
      ]
]

slots_above : (r i : ℕ) → Under r i → r ≤ i
slots_above _ _ (here r) = omega arith
slots_above _ _ (on_left r i u) = omega (arith, slots_above (2 * r + 1) i u)
slots_above _ _ (on_right r i u) = omega (arith, slots_above (2 * r + 2) i u)

abbrev IsLater : Time → ClaimHeap → ℕ → Type 0
IsLater now h i = now < (h.store (h.items i)).at

prefer-none : (new old : Option ℕ) → prefer new old ≡ none → (new ≡ none) × (old ≡ none)
prefer-none none old e = (refl, e)
prefer-none (some p) old e = ground (arith, e)

-- Where nothing was found yet, a search looks on, and finds what is below.
look-none :
    (item : Option ℕ) (found : Bool) (below : List Bool → Option ℕ × List Bool) (ds : List Bool)
    → (look found item below ds).0 ≡ none
    → (item ≡ none) × (found ≡ false → (es : List Bool) × ((below es).0 ≡ none))
unfolding look
look-none item found below [] e = (
  ground (arith, prefer-none (below []).0 item),
  λ f. ([], ground (arith, f, prefer-none (below []).0 item)),
)
look-none item found below (d ∷ ds) e = (
  ground (arith, prefer-none (below ds).0 item),
  λ f. (ds, ground (arith, f, prefer-none (below ds).0 item)),
)

candidate-none : (now : Time) (h : ClaimHeap) (i : ℕ) → candidate now h i ≡ none → IsLater now h i
unfolding candidate
candidate-none now h i e = ground (arith, e)

-- Where a search finds nothing, the root is not available, and neither child's search, with the
-- draws that it had, found anything.
rand_avail-nothing :
    (k : ℕ) (now : Time) (h : ClaimHeap) (i : ℕ) (ds : List Bool)
    → i < h.size
    → (rand_avail (suc k) now h i ds).0 ≡ none
    → IsLater now h i
      × ((es : List Bool) × ((rand_avail k now h (2 * i + 1) es).0 ≡ none))
      × ((es : List Bool) × ((rand_avail k now h (2 * i + 2) es).0 ≡ none))
unfolding rand_avail
rand_avail-nothing k now h i ds a nothing =
    let item = candidate now h i in
    let left = look (is_some item) item (rand_avail k now h (2 * i + 1)) ds in
    let inside : leb h.size i ≡ false = ground (arith, a) in
    let right_none : (look (is_some item) left.0 (rand_avail k now h (2 * i + 2)) left.1).0 ≡ none =
      ground (arith, inside, nothing) in
    let (left_none, on_right_too) =
      look-none left.0 (is_some item) (rand_avail k now h (2 * i + 2)) left.1 right_none in
    let (no_item, on_left_too) =
      look-none item (is_some item) (rand_avail k now h (2 * i + 1)) ds left_none in
    let not_found : is_some item ≡ false = ap is_some no_item in
    (candidate-none now h i no_item, on_left_too not_found, on_right_too not_found)

rand_avail-none :
    (k : ℕ) (now : Time) (h : ClaimHeap) (r i : ℕ) (ds : List Bool)
    → h.size ≤ k + r
    → (rand_avail k now h r ds).0 ≡ none
    → i < h.size
    → Under r i
    → IsLater now h i
rand_avail-none zero now h r i ds enough found a u =
    absurd (omega (arith, enough, a, slots_above r i u))
rand_avail-none (suc k) now h _ _ ds enough found a (here r) =
    (rand_avail-nothing k now h r ds a found).0
rand_avail-none (suc k) now h _ _ ds enough found a (on_left r i u) =
    let inside : r < h.size = omega (arith, a, slots_above (2 * r + 1) i u) in
    let (later, (es, left), right) = rand_avail-nothing k now h r ds inside found in
    rand_avail-none k now h (2 * r + 1) i es (omega (arith, enough)) left a u
rand_avail-none (suc k) now h _ _ ds enough found a (on_right r i u) =
    let inside : r < h.size = omega (arith, a, slots_above (2 * r + 2) i u) in
    let (later, left, (es, right)) = rand_avail-nothing k now h r ds inside found in
    rand_avail-none k now h (2 * r + 2) i es (omega (arith, enough)) right a u

-- An item that is picked is in the slice and available.
pub rand_avail-due :
    (now : Time) (h : ClaimHeap) (ds : List Bool) (p : ℕ)
    → (rand_avail h.size now h 0 ds).0 ≡ some p
    → Holds h p × ((h.store p).at ≤ now)
rand_avail-due now h ds p e = subst (OnlyDue now h) e (rand_avail-OnlyDue h.size now h 0 ds)

-- Where nothing is picked, no item in the slice is available.
pub rand_avail-missed :
    (now : Time) (h : ClaimHeap) (ds : List Bool) (i : ℕ)
    → (rand_avail h.size now h 0 ds).0 ≡ none
    → i < h.size
    → now < (h.store (h.items i)).at
rand_avail-missed now h ds i e a =
    rand_avail-none h.size now h 0 i ds (omega arith) e a (root-Under h.size i a)
