-- ===== src/Mem/Heap/Sifts.antt =====
-- What the swaps of the claim heap keep, pkg/backend/eqmem/claimheap.go.
use entroq.Base.{
  ltb, leb, if◌then◌else◌, Bool-cases, string_eq, nat_eq, ◌==◌, ℕ, zero, suc, ◌+◌, ◌-◌, ◌*◌, ◌/◌,
  ◌≤◌, ◌<◌, ◌≡◌, refl, sym, ap, ◌∙◌, inl, inr, not, ◌||◌, some, arith,
}
use entroq.Mem.Heap.{ClaimHeap, less, swap, up_loop, smaller_child, down_loop, settle}

-- A slot of the slice points at the item.
abbrev pub Holds : ClaimHeap → ℕ → Type 0
Holds h p = (i : ℕ) × (i < h.size) × (h.items i ≡ p)

-- Every item in the slice has its slot as its index.
abbrev pub IsWired : ClaimHeap → Type 0
IsWired h = (i : ℕ) → i < h.size → (h.store (h.items i)).idx ≡ some i

-- A rearrangement of the first `n` slots: the same items, their indices kept true.
pub record Sifts (n : ℕ) (h k : ClaimHeap) : Type 0 where
  pub wired : IsWired k
  pub size : k.size ≡ h.size
  pub by_id : k.by_id ≡ h.by_id
  pub next : k.next ≡ h.next
  pub ids : (p : ℕ) → (k.store p).id ≡ (h.store p).id
  pub ats : (p : ℕ) → (k.store p).at ≡ (h.store p).at
  pub kept : (p : ℕ) → Holds h p → Holds k p
  pub no_more : (p : ℕ) → Holds k p → Holds h p
  pub above : (i : ℕ) → n ≤ i → k.items i ≡ h.items i

pub Sifts-refl : (n : ℕ) (h : ClaimHeap) → IsWired h → Sifts n h h
Sifts-refl n h w = record {
  wired = w;
  size = refl;
  by_id = refl;
  next = refl;
  ids = λ p. refl;
  ats = λ p. refl;
  kept = λ p x. x;
  no_more = λ p x. x;
  above = λ i l. refl;
}

pub Sifts-trans : (n : ℕ) (h k l : ClaimHeap) → Sifts n h k → Sifts n k l → Sifts n h l
Sifts-trans n h k l a b = record {
  wired = b.wired;
  size = b.size ∙ a.size;
  by_id = b.by_id ∙ a.by_id;
  next = b.next ∙ a.next;
  ids = λ p. b.ids p ∙ a.ids p;
  ats = λ p. b.ats p ∙ a.ats p;
  kept = λ p x. b.kept p (a.kept p x);
  no_more = λ p x. a.no_more p (b.no_more p x);
  above = λ i e. b.above i e ∙ a.above i e;
}

some_injective : (a b : ℕ) → some a ≡ some b → a ≡ b
some_injective a b e = ground (arith, e)

-- Two slots of a wired heap with one item are one slot.
pub same_slot :
    (h : ClaimHeap) (i j : ℕ) → IsWired h → i < h.size → j < h.size → h.items i ≡ h.items j → i ≡ j
same_slot h i j w a b e = some_injective i j (sym (w i a) ∙ ap (λ p. (h.store p).idx) e ∙ w j b)

swap-IsWired :
    (i j : ℕ) (h : ClaimHeap) → i < h.size → j < h.size → IsWired h → IsWired (swap i j h)
unfolding swap
swap-IsWired i j h a b w k c = ground (
  arith,
  w k c,
  w i a,
  w j b,
  same_slot h k i w c a,
  same_slot h k j w c b,
  same_slot h i j w a b,
)

swap-kept :
    (i j : ℕ) (h : ClaimHeap) (p : ℕ) → i < h.size → j < h.size → Holds h p → Holds (swap i j h) p
unfolding swap
swap-kept i j h p a b (k, c, e) =
    ((if k == i then j else if k == j then i else k), ground arith, ground (arith, e))

swap-no_more :
    (i j : ℕ) (h : ClaimHeap) (p : ℕ) → i < h.size → j < h.size → Holds (swap i j h) p → Holds h p
unfolding swap
swap-no_more i j h p a b (k, c, e) =
    ((if k == i then j else if k == j then i else k), ground arith, ground (arith, e))

pub swap-Sifts :
    (n i j : ℕ) (h : ClaimHeap) → i < n → j < n → n ≤ h.size → IsWired h → Sifts n h (swap i j h)
unfolding swap
swap-Sifts n i j h a b c w =
    let a' : i < h.size = omega (arith, a, c) in
    let b' : j < h.size = omega (arith, b, c) in
    record {
      wired = swap-IsWired i j h a' b' w;
      size = refl;
      by_id = refl;
      next = refl;
      ids = λ p. ground arith;
      ats = λ p. ground arith;
      kept = λ p. swap-kept i j h p a' b';
      no_more = λ p. swap-no_more i j h p a' b';
      above = λ k l. ground (arith, a, b, l);
    }

pub up_loop-Sifts :
    (k n j : ℕ) (h : ClaimHeap) → j < n → n ≤ h.size → IsWired h → Sifts n h (up_loop k j h)
unfolding up_loop
up_loop-Sifts zero n j h a c w = Sifts-refl n h w
up_loop-Sifts (suc k) n j h a c w =
    let parent = (j - 1) / 2 in
    let b : parent < n = omega (arith, a) in
    let s = swap-Sifts n parent j h b a c w in
    let size : n ≤ (swap parent j h).size = rw (s.size) c in
    elim (Bool-cases (parent == j || not (less h j parent))) [
      | inl e ↦ rw (e, up_loop) (Sifts-refl n h w)
      | inr e ↦
          rw (e, up_loop)
            (Sifts-trans n h (swap parent j h) _ s
              (up_loop-Sifts k n parent (swap parent j h) b size s.wired))
    ]

pub down_loop-Sifts :
    (k n i : ℕ) (h : ClaimHeap) → i < n → n ≤ h.size → IsWired h → Sifts n h (down_loop k n i h).0
unfolding down_loop
down_loop-Sifts zero n i h a c w = Sifts-refl n h w
down_loop-Sifts (suc k) n i h a c w =
    let j = smaller_child n i h in
    elim (Bool-cases (leb n (2 * i + 1) || not (less h j i))) [
      | inl e ↦ rw (e, down_loop) (Sifts-refl n h w)
      | inr e ↦
          let b : j < n = ground (arith, e) in
          let s = swap-Sifts n i j h a b c w in
          let size : n ≤ (swap i j h).size = rw (s.size) c in
          rw (e, down_loop)
            (Sifts-trans n h (swap i j h) _ s (down_loop-Sifts k n j (swap i j h) b size s.wired))
    ]

pub settle-Sifts :
    (n i : ℕ) (h : ClaimHeap) → i < n → n ≤ h.size → IsWired h → Sifts n h (settle n i h)
unfolding settle
settle-Sifts n i h a c w =
    let sunk = (down_loop n n i h).0 in
    let s = down_loop-Sifts n n i h a c w in
    let size : n ≤ sunk.size = rw (s.size) c in
    elim (Bool-cases (ltb i (down_loop n n i h).1)) [
      | inl e ↦ rw (e, settle) s
      | inr e ↦ rw (e, settle) (Sifts-trans n h sunk _ s (up_loop-Sifts i n i sunk a size s.wired))
    ]

-- Fuel beyond the slot that a rise starts at changes nothing.
up_loop-more_fuel : (k j : ℕ) (h : ClaimHeap) → j ≤ k → up_loop (suc k) j h ≡ up_loop k j h
unfolding up_loop
up_loop-more_fuel zero j h a = ground (arith, a)
up_loop-more_fuel (suc k) j h a =
    let parent = (j - 1) / 2 in
    elim (Bool-cases (parent == j || not (less h j parent))) [
      | inl e ↦ rw (e, up_loop) refl
      | inr e ↦
          let shorter : parent ≤ k = ground (arith, a, e) in
          rw (e, up_loop) (up_loop-more_fuel k parent (swap parent j h) shorter)
    ]

-- Fuel beyond the slots below the one that a sink starts at changes nothing.
down_loop-more_fuel :
    (k n i : ℕ) (h : ClaimHeap) → n ≤ k + i → down_loop (suc k) n i h ≡ down_loop k n i h
unfolding down_loop
down_loop-more_fuel zero n i h a = ground (arith, a)
down_loop-more_fuel (suc k) n i h a =
    let j = smaller_child n i h in
    elim (Bool-cases (leb n (2 * i + 1) || not (less h j i))) [
      | inl e ↦ rw (e, down_loop) refl
      | inr e ↦
          let shorter : n ≤ k + j = ground (arith, a) in
          rw (e, down_loop) (down_loop-more_fuel k n j (swap i j h) shorter)
    ]
