-- ===== src/Mem/Heaps.antt =====
-- The claim heap, pkg/backend/eqmem/claimheap.go, as the heap of the in-memory backend.
use mathlib.Core.Path.{subst}
use entroq.Base.{
  Time, lookup, Option-cases, string_eq, nat_eq, ◌≤◌, ◌<◌, String, ◌≡◌, refl, inl, inr, Bool, none,
  some, List, arith,
}
use entroq.Mem.{ClaimHeaps}
use entroq.Mem.Heap.{
  ClaimHeap, new_claim_heap, push_item, remove_id, update_id, rand_avail, random_available, arrival,
}
use entroq.Mem.Heap.Searches.{rand_avail-due, rand_avail-missed}
use entroq.Mem.Heap.Sound.{IsSound, new-IsSound}
use entroq.Mem.Heap.Updates.{update_id-IsSound, arrival-update_id}
use entroq.Mem.Heap.Pushes.{push_item-IsSound, arrival-push_item}
use entroq.Mem.Heap.Removals.{remove_id-IsSound, arrival-remove_id}

pub arrival-new : (id : String) → arrival id new_claim_heap ≡ none
unfolding arrival lookup
arrival-new id = refl

pub picked-arrival :
    (ds : List Bool) (now : Time) (h : ClaimHeap) (id : String)
    → IsSound h
    → random_available ds now h ≡ some id
    → (at : Time) × (arrival id h ≡ some at) × (at ≤ now)
unfolding random_available arrival
picked-arrival ds now h id s e = elim (Option-cases (rand_avail h.size now h 0 ds).0) [
  | inl f ↦ ground (arith, e, f)
  | inr (p, f) ↦
      let (held, due) = rand_avail-due now h ds p f in
      let same : (h.store p).id ≡ id = ground (arith, e, f) in
      ((h.store p).at, ground (arith, s.known p held, same), due)
]

pub missed-arrival :
    (ds : List Bool) (now : Time) (h : ClaimHeap)
    → IsSound h
    → random_available ds now h ≡ none
    → (id : String) (at : Time) → arrival id h ≡ some at
    → now < at
unfolding random_available arrival
missed-arrival ds now h s e id at f = elim (Option-cases (lookup id h.by_id)) [
  | inl g ↦ ground (arith, f, g)
  | inr (p, g) ↦
      let (i, a, at_i) = (s.placed id p g).1 in
      let nothing : (rand_avail h.size now h 0 ds).0 ≡ none = ground (arith, e) in
      let later : now < (h.store p).at =
        subst (λ x. now < (h.store x).at) at_i (rand_avail-missed now h ds i nothing a) in
      ground (arith, f, g, later)
]

abbrev pub claim_heaps : ClaimHeaps
claim_heaps = record {
  Heap = ClaimHeap;
  empty = new_claim_heap;
  push_item = push_item;
  remove_id = remove_id;
  update_id = update_id;
  random_available = random_available;
  arrival = arrival;
  IsSound = IsSound;
  empty-IsSound = new-IsSound;
  push-IsSound = λ k at h s absent. push_item-IsSound k at h s absent;
  remove-IsSound = λ k h s. remove_id-IsSound k h s;
  update-IsSound = λ k at h s. update_id-IsSound k at h s;
  arrival-empty = arrival-new;
  arrival-push = λ k id at h s. arrival-push_item k at h s id;
  arrival-remove = λ k id h s. arrival-remove_id k h s id;
  arrival-update = λ k id at old h s there. arrival-update_id k at h s id old there;
  picks_available = λ ds now h id s e. picked-arrival ds now h id s e;
  none_available = λ ds now h s e id at f. missed-arrival ds now h s e id at f;
}
