-- ===== src/Mem/Heap/Sound.antt =====
-- When a claim heap is sound, and that a rearrangement keeps it so, pkg/backend/eqmem/claimheap.go.
use mathlib.Core.Path.{subst}
use entroq.Base.{
  Time, lookup, string_eq, nat_eq, ℕ, ◌<◌, String, ◌≡◌, refl, sym, ap, ◌∙◌, Option, none, some,
  arith,
}
use entroq.Mem.Heap.{ClaimHeap, new_claim_heap, arrival}
use entroq.Mem.Heap.Sifts.{Holds, IsWired, Sifts}

-- The slice and the map hold the same items, each under its ID and with its slot as its index.
pub record IsSound (h : ClaimHeap) : Type 0 where
  pub wired : IsWired h
  pub known : (p : ℕ) → Holds h p → lookup (h.store p).id h.by_id ≡ some p
  pub placed :
      (id : String) (p : ℕ) → lookup id h.by_id ≡ some p → ((h.store p).id ≡ id) × Holds h p
  pub fresh : (p : ℕ) → Holds h p → p < h.next

pub new-IsSound : IsSound new_claim_heap
unfolding lookup
new-IsSound = record {
  wired = λ i a. absurd (omega (arith, a));
  known = λ p (i, a, e). absurd (omega (arith, a));
  placed = λ id p e. ground (arith, e);
  fresh = λ p (i, a, e). absurd (omega (arith, a));
}

pub some_once : (p q : ℕ) → some p ≡ some q → p ≡ q
some_once p q e = ground (arith, e)

-- The slot of an item that the map has
pub slot_of :
    (h : ClaimHeap) (p : ℕ)
    → IsSound h
    → Holds h p
    → (i : ℕ) × (i < h.size) × (h.items i ≡ p) × ((h.store p).idx ≡ some i)
slot_of h p s (i, a, e) = (i, a, e, subst (λ x. (h.store x).idx ≡ some i) e (s.wired i a))

-- A rearrangement of a sound heap is sound.
pub sifted-IsSound : (n : ℕ) (h k : ClaimHeap) → IsSound h → Sifts n h k → IsSound k
sifted-IsSound n h k s t = record {
  wired = t.wired;
  known = λ p x. ap2 t p ∙ s.known p (t.no_more p x);
  placed = λ id p e.
      let (same, held) = s.placed id p (sym (ap (lookup id) t.by_id) ∙ e) in
      (t.ids p ∙ same, t.kept p held);
  fresh = λ p x. rw t.next (s.fresh p (t.no_more p x));
}
  where
    ap2 : Sifts n h k → (p : ℕ) → lookup (k.store p).id k.by_id ≡ lookup (h.store p).id h.by_id
    ap2 t p = rw (t.ids p, t.by_id) refl

pub sifted-arrival :
    (n : ℕ) (h k : ClaimHeap) (id : String) → Sifts n h k → arrival id k ≡ arrival id h
unfolding arrival
sifted-arrival n h k id t = rw t.by_id (by_lookup (lookup id h.by_id))
  where
    by_lookup :
        (o : Option ℕ)
        → (elim o as (λ _. Option Time) [ none ↦ none | some p ↦ some (k.store p).at ])
          ≡ (elim o as (λ _. Option Time) [ none ↦ none | some p ↦ some (h.store p).at ])
    by_lookup none = refl
    by_lookup (some p) = ap some (t.ats p)
