-- ===== src/Mem/Heap/Removals.antt =====
-- What a removal from the claim heap keeps, pkg/backend/eqmem/claimheap.go.
use entroq.Base.{
  lookup, erase, lookup-erase, if◌then◌else◌, Bool-cases, Option-cases, string_eq, nat_eq, ◌==◌, ℕ,
  ◌-◌, ◌≤◌, ◌<◌, String, ◌≡◌, refl, ap, ◌∙◌, ◌≢◌, inl, inr, none, some, arith,
}
use entroq.Mem.Heap.{ClaimHeap, swap, pop, settle, remove_slot, remove_item, remove_id, arrival}
use entroq.Mem.Heap.Sifts.{Sifts, Sifts-refl, Sifts-trans, same_slot, swap-Sifts, settle-Sifts}
use entroq.Mem.Heap.Sound.{IsSound, some_once, slot_of, sifted-IsSound, sifted-arrival}

-- Taking the item `p` at slot `i` out of the slice
module _ (h : ClaimHeap) (s : IsSound h) (p i : ℕ) (a : i < h.size) (at_i : h.items i ≡ p) where
  -- The slice before its last slot is dropped: a rearrangement with the item in that slot.
  record IsLast (k : ClaimHeap) : Type 0 where
    sifted : Sifts h.size h k
    last : k.items (h.size - 1) ≡ p

  wider : (n : ℕ) (k l : ClaimHeap) → n ≤ h.size → Sifts n k l → Sifts h.size k l
  wider n k l b u = record {
    wired = u.wired;
    size = u.size;
    by_id = u.by_id;
    next = u.next;
    ids = u.ids;
    ats = u.ats;
    kept = u.kept;
    no_more = u.no_more;
    above = λ j c. u.above j (omega (arith, b, c));
  }

  swapped : (n : ℕ) → n ≢ i → (swap i n h).items n ≡ p
  unfolding swap
  swapped n o = ground (arith, o, at_i)

  settle-IsLast : (h.size - 1) ≢ i → IsLast (settle (h.size - 1) i (swap i (h.size - 1) h))
  settle-IsLast n =
      let n' = h.size - 1 in
      let b : n' < h.size = omega (arith, a) in
      let c : i < n' = omega (arith, a, n) in
      let t = swap-Sifts h.size i n' h a b (omega arith) s.wired in
      let below : n' ≤ (swap i n' h).size = rw t.size (omega arith) in
      let u = settle-Sifts n' i (swap i n' h) c below t.wired in
      record {
        sifted = Sifts-trans h.size h (swap i n' h) _ t (wider n' (swap i n' h) _ (omega arith) u);
        last = u.above n' (omega arith) ∙ swapped n' n;
      }

  removed : IsLast (if (h.size - 1) == i then h else settle (h.size - 1) i (swap i (h.size - 1) h))
  removed = elim (Bool-cases ((h.size - 1) == i)) [
    | inl e ↦
        let same : h.size - 1 ≡ i = ground (arith, e) in
        rw e (record { sifted = Sifts-refl h.size h s.wired; last = ap h.items same ∙ at_i })
    | inr e ↦ rw e (settle-IsLast (ground (arith, e)))
  ]

-- The last slot dropped, and its item's ID from the map
abbrev drop_last : ClaimHeap → ClaimHeap
drop_last k = record (pop k) { by_id = erase (k.store (k.items (k.size - 1))).id (pop k).by_id }

module _ (k : ClaimHeap) (s : IsSound k) (a : 0 < k.size) where
  not_last : (j : ℕ) → j < k.size - 1 → k.items j ≢ k.items (k.size - 1)
  not_last j b e =
      let same = same_slot k j (k.size - 1) s.wired (omega (arith, b)) (omega (arith, a)) e in
      omega (arith, b, same)

  last_known : lookup (k.store (k.items (k.size - 1))).id k.by_id ≡ some (k.items (k.size - 1))
  last_known = s.known (k.items (k.size - 1)) (k.size - 1, omega (arith, a), refl)

  drop_last-IsSound : IsSound (drop_last k)
  unfolding pop
  drop_last-IsSound = record {
    wired = λ j b. ground (arith, not_last j b, s.wired j (omega (arith, b)));
    known = λ q (j, b, e).
        let other : q ≢ k.items (k.size - 1) = λ f. not_last j b (e ∙ f) in
        let here = s.known q (j, omega (arith, b), e) in
        let entry = lookup-erase (k.store (k.items (k.size - 1))).id (k.store q).id k.by_id in
        ground (arith, other, here, last_known, entry, some_once q (k.items (k.size - 1)));
    placed = λ id q e.
        let entry = lookup-erase (k.store (k.items (k.size - 1))).id id k.by_id in
        let (same, (j, b, f)) = s.placed id q (ground (arith, entry, e)) in
        let other : id ≢ (k.store (k.items (k.size - 1))).id = λ g. ground (arith, entry, e, g) in
        let before_last : j < k.size - 1 = ground (arith, b, f, same, other) in
        (ground (arith, same), (j, before_last, f));
    fresh = λ q (j, b, e). s.fresh q (j, omega (arith, b), e);
  }

  arrival-drop_last :
      (id : String)
      → arrival id (drop_last k)
        ≡ (if (k.store (k.items (k.size - 1))).id == id then none else arrival id k)
  unfolding arrival pop
  arrival-drop_last id =
      let entry = lookup-erase (k.store (k.items (k.size - 1))).id id k.by_id in
      elim (Option-cases (lookup id k.by_id)) [
        | inl e ↦ ground (arith, entry, e)
        | inr (q, e) ↦ ground (arith, entry, e, (s.placed id q e).0)
      ]

module _ (id : String) (h : ClaimHeap) (s : IsSound h) where
  -- A removal of an ID that is there drops its item from a rearrangement.
  remove_id-drops :
      (p : ℕ)
      → lookup id h.by_id ≡ some p
      → (k : ClaimHeap) × Sifts h.size h k
        × (0 < k.size)
        × ((k.store (k.items (k.size - 1))).id ≡ id)
        × (remove_id id h ≡ drop_last k)
  unfolding remove_id remove_item remove_slot pop
  remove_id-drops p e =
      let (same_id, held) = s.placed id p e in
      let (i, a, at_i, x) = slot_of h p s held in
      let k = if (h.size - 1) == i then h else settle (h.size - 1) i (swap i (h.size - 1) h) in
      let l = removed h s p i a at_i in
      let size : k.size ≡ h.size = l.sifted.size in
      let last : k.items (k.size - 1) ≡ p = rw size l.last in
      let ids : (k.store (k.items (k.size - 1))).id ≡ (h.store p).id = rw last (l.sifted.ids p) in
      (
        k,
        l.sifted,
        rw size (omega (arith, a)),
        ids ∙ same_id,
        rw (e, remove_id, x, remove_item, ids) refl,
      )

  pub remove_id-IsSound : IsSound (remove_id id h)
  unfolding remove_id
  remove_id-IsSound = elim (Option-cases (lookup id h.by_id)) [
    | inl e ↦ rw (e, remove_id) s
    | inr (p, e) ↦
        let (k, t, a, same, dropped) = remove_id-drops p e in
        rw dropped (drop_last-IsSound k (sifted-IsSound h.size h k s t) a)
  ]

  pub arrival-remove_id :
      (x : String) → arrival x (remove_id id h) ≡ (if id == x then none else arrival x h)
  unfolding remove_id arrival
  arrival-remove_id x = elim (Option-cases (lookup id h.by_id)) [
    | inl e ↦ ground (arith, e)
    | inr (p, e) ↦
        let (k, t, a, same, dropped) = remove_id-drops p e in
        ap (arrival x) dropped
        ∙ arrival-drop_last k (sifted-IsSound h.size h k s t) a x
        ∙ rw (same, sifted-arrival h.size h k x t) refl
  ]
