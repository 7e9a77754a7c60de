-- ===== src/Mem/Heap/Updates.antt =====
-- What an update of the claim heap keeps, pkg/backend/eqmem/claimheap.go.
use entroq.Base.{
  Time, lookup, if◌then◌else◌, Option-cases, string_eq, nat_eq, ◌==◌, ℕ, ◌≤◌, String, ◌≡◌, refl,
  ◌∙◌, inl, inr, Option, none, some, arith,
}
use entroq.Mem.Heap.{ClaimHeap, settle, set_at, update_item, update_id, arrival}
use entroq.Mem.Heap.Sifts.{Sifts, settle-Sifts}
use entroq.Mem.Heap.Sound.{IsSound, some_once, slot_of, sifted-IsSound, sifted-arrival}

-- An update
set_at-IsSound : (p : ℕ) (at : Time) (h : ClaimHeap) → IsSound h → IsSound (set_at p at h)
unfolding set_at
set_at-IsSound p at h s = record {
  wired = λ i a. ground (arith, s.wired i a);
  known = λ q (i, a, e). ground (arith, s.known q (i, a, e));
  placed = λ id q e. let (same, (i, a, f)) = s.placed id q e in (ground (arith, same), (i, a, f));
  fresh = λ q (i, a, e). s.fresh q (i, a, e);
}

module _ (id : String) (at : Time) (h : ClaimHeap) (s : IsSound h) where
  set_at-size : (p : ℕ) → h.size ≤ (set_at p at h).size
  unfolding set_at
  set_at-size p = omega arith

  update_id-settle :
      (p i : ℕ)
      → lookup id h.by_id ≡ some p
      → (h.store p).idx ≡ some i
      → update_id id at h ≡ settle h.size i (set_at p at h)
  unfolding update_id update_item
  update_id-settle p i e x = rw (e, x, update_id, update_item) refl

  updated :
      (p : ℕ) → lookup id h.by_id ≡ some p → (n : ℕ) × Sifts n (set_at p at h) (update_id id at h)
  updated p e =
      let (i, a, f, x) = slot_of h p s (s.placed id p e).1 in
      let b = set_at-size p in
      (
        h.size,
        rw (update_id-settle p i e x)
            (settle-Sifts h.size i (set_at p at h) a b (set_at-IsSound p at h s).wired),
      )

  pub update_id-IsSound : IsSound (update_id id at h)
  unfolding update_id
  update_id-IsSound = elim (Option-cases (lookup id h.by_id)) [
    | inl e ↦ rw (e, update_id) s
    | inr (p, e) ↦
        let (n, t) = updated p e in
        sifted-IsSound n (set_at p at h) (update_id id at h) (set_at-IsSound p at h s) t
  ]

  arrival-set_at :
      (k : String) (p : ℕ) (o : Option ℕ)
      → lookup id h.by_id ≡ some p
      → lookup k h.by_id ≡ o
      → arrival k (set_at p at h) ≡ (if id == k then some at else arrival k h)
  unfolding set_at arrival
  arrival-set_at k p none e f = ground (arith, e, f)
  arrival-set_at k p (some q) e f =
      ground (arith, e, f, (s.placed id p e).0, (s.placed k q f).0, some_once p q)

  pub arrival-update_id :
      (k : String) (old : Time)
      → arrival id h ≡ some old
      → arrival k (update_id id at h) ≡ (if id == k then some at else arrival k h)
  unfolding arrival
  arrival-update_id k old there = elim (Option-cases (lookup id h.by_id)) [
    | inl e ↦ ground (arith, there, e)
    | inr (p, e) ↦
        let (n, t) = updated p e in
        sifted-arrival n (set_at p at h) (update_id id at h) k t
        ∙ arrival-set_at k p (lookup k h.by_id) e refl
  ]
