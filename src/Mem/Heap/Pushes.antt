-- ===== src/Mem/Heap/Pushes.antt =====
-- What a push onto the claim heap keeps, pkg/backend/eqmem/claimheap.go.
use mathlib.Core.Path.{subst}
use entroq.Base.{
  Time, lookup, lookup-insert, if◌then◌else◌, Bool-cases, string_eq, nat_eq, ◌==◌, ℕ, ◌+◌, ◌<◌,
  String, ◌≡◌, refl, ◌≢◌, ◌⊎◌, inl, inr, Option, none, some, arith,
}
use entroq.Mem.Heap.{ClaimHeap, push, up, push_item, arrival}
use entroq.Mem.Heap.Sifts.{Holds, IsWired, Sifts, up_loop-Sifts}
use entroq.Mem.Heap.Sound.{IsSound}

-- A push of a new ID
module _ (id : String) (at : Time) (h : ClaimHeap) (s : IsSound h) where
  not_next : (p : ℕ) → Holds h p → p ≢ h.next
  not_next p x e = let a = s.fresh p x in omega (arith, a, e)

  push-IsWired : IsWired (push id at h)
  unfolding push
  push-IsWired i a = elim (Bool-cases (i == h.size)) [
    | inl e ↦ ground (arith, e)
    | inr e ↦
        let b : i < h.size = ground (arith, a, e) in
        ground (arith, e, s.wired i b, not_next (h.items i) (i, b, refl))
  ]

  pushed : Sifts (h.size + 1) (push id at h) (up h.size (push id at h))
  unfolding push
  pushed =
      up_loop-Sifts h.size (h.size + 1) h.size (push id at h) (omega arith) (omega arith)
        push-IsWired

  held_before : (p : ℕ) → Holds (push id at h) p → (p ≡ h.next) ⊎ (Holds h p × (p ≢ h.next))
  unfolding push
  held_before p (i, a, e) = elim (Bool-cases (i == h.size)) [
    | inl f ↦ inl (ground (arith, e, f))
    | inr f ↦
        let b : i < h.size = ground (arith, a, f) in
        let g : h.items i ≡ p = ground (arith, e, f) in inr ((i, b, g), not_next p (i, b, g))
  ]

  stays : (p : ℕ) → Holds h p → Holds (push id at h) p
  unfolding push
  stays p (i, a, e) = (i, omega (arith, a), ground (arith, a, e))

  new_stays : Holds (push id at h) h.next
  unfolding push
  new_stays = (h.size, omega arith, ground arith)

  stored_before : (p : ℕ) → p ≢ h.next → (push id at h).store p ≡ h.store p
  unfolding push
  stored_before p n = ground (arith, n)

  new_id : ((push id at h).store h.next).id ≡ id
  unfolding push
  new_id = ground arith

  new_at : ((push id at h).store h.next).at ≡ at
  unfolding push
  new_at = ground arith

  pushed_by_id : (up h.size (push id at h)).by_id ≡ h.by_id
  unfolding push
  pushed_by_id = pushed.by_id

  pushed_next : (up h.size (push id at h)).next ≡ h.next + 1
  unfolding push
  pushed_next = pushed.next

  pub push_item-IsSound : arrival id h ≡ none → IsSound (push_item id at h)
  unfolding push_item arrival
  push_item-IsSound absent = record {
    wired = pushed.wired;
    known = λ p x.
        let index = (up h.size (push id at h)).by_id in
        let entry = lookup-insert id ((up h.size (push id at h)).store p).id h.next index in
        elim (held_before p (pushed.no_more p x)) [
          | inl e ↦ ground (arith, entry, e, pushed.ids p, new_id)
          | inr (held, other) ↦ ground (
            arith,
            entry,
            pushed.ids p,
            stored_before p other,
            s.known p held,
            pushed_by_id,
            absent,
          )
        ];
    placed = λ k p e. is_placed k p e;
    fresh = λ p x. elim (held_before p (pushed.no_more p x)) [
      | inl e ↦ omega (arith, e, pushed_next)
      | inr (held, other) ↦ omega (arith, s.fresh p held, pushed_next)
    ];
  }
    where
      is_placed :
          (k : String) (p : ℕ)
          → lookup k (push_item id at h).by_id ≡ some p
          → (((up h.size (push id at h)).store p).id ≡ k) × Holds (up h.size (push id at h)) p
      is_placed k p e =
          let entry = lookup-insert id k h.next (up h.size (push id at h)).by_id in
          elim (Bool-cases (id == k)) [
            | inl f ↦
                let same : h.next ≡ p = ground (arith, entry, e, f) in
                (
                  ground (arith, f, same, pushed.ids p, new_id),
                  subst (Holds (up h.size (push id at h))) same (pushed.kept h.next new_stays),
                )
            | inr f ↦
                let (there, held) = s.placed k p (ground (arith, entry, e, f, pushed_by_id)) in
                (
                  ground (arith, there, pushed.ids p, stored_before p (not_next p held)),
                  pushed.kept p (stays p held),
                )
          ]

  pub arrival-push_item :
      (k : String) → arrival k (push_item id at h) ≡ (if id == k then some at else arrival k h)
  unfolding push_item arrival
  arrival-push_item k = by_entry (lookup k h.by_id) refl
    where
      by_entry :
          (o : Option ℕ)
          → lookup k h.by_id ≡ o
          → arrival k (push_item id at h) ≡ (if id == k then some at else arrival k h)
      by_entry none e = ground (
        arith,
        e,
        lookup-insert id k h.next (up h.size (push id at h)).by_id,
        pushed_by_id,
        pushed.ats h.next,
        new_at,
      )
      by_entry (some p) e = ground (
        arith,
        e,
        lookup-insert id k h.next (up h.size (push id at h)).by_id,
        pushed_by_id,
        pushed.ats h.next,
        pushed.ats p,
        new_at,
        stored_before p (not_next p (s.placed k p e).1),
      )
