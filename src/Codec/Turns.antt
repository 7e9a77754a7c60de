-- ===== src/Codec/Turns.antt =====
-- Turns of a reader of pkg/eqmr/intermediate_codec.go: a frame, a whole block, the end of the run.
use mathlib.Core.Path.{subst}
use entroq.Base.{
  ℤ, length, append_assoc, string_eq, nat_eq, runs, ℕ, suc, ◌+◌, ◌≤◌, ◌<◌, ◌≡◌, refl, sym, ap, ◌∙◌,
  true, false, some, List, [], ◌∷◌, ◌++◌, arith,
}
use entroq.Paths.{text_eq}
use entroq.Codec.Reading.{Reader, read_frame, next_loop, next, read_all, end_of_run}
use entroq.Codec.{Bytes, IntermediateRecord, max_block_len, block_head, flush}
use entroq.Codec.Blocks.{
  two_64, records_bytes, AreShort, records_bytes-count, onto, onto-nil, read_all-block, between,
  block_sum, read_frame-block,
}

module _ (digest : Bytes → Bytes) (digest-length : (bs : Bytes) → length (digest bs) ≡ 8) where
  next-frame :
      (k : ℕ) (r r' : Reader)
      → r.block_left ≡ 0
      → r.done ≡ false
      → read_frame digest r ≡ some r'
      → next_loop digest (suc k) r ≡ next_loop digest k r'
  unfolding next_loop
  next-frame k r r' left going frame = ground (arith, left, going, frame)

  next-full :
      (k m : ℕ) (r : Reader)
      → r.block_left ≡ suc m
      → next_loop digest (suc k) r ≡ next_loop digest (suc (suc k)) r
  unfolding next_loop
  next-full k m r more = ground (arith, more)

  next-ended :
      (k : ℕ) (r : Reader)
      → r.block_left ≡ 0
      → r.done ≡ true
      → next_loop digest (suc k) r ≡ end_of_run
  unfolding next_loop
  next-ended k r left ended = ground (arith, left, ended)

  read_all-next :
      (k : ℕ) (r r' : Reader)
      → next digest r ≡ next digest r'
      → read_all digest (suc k) r ≡ read_all digest (suc k) r'
  unfolding read_all
  read_all-next k r r' h = rw (h, read_all) refl

  read_all-frame :
      (k m : ℕ) (r r' : Reader)
      → r.block_left ≡ 0
      → r.done ≡ false
      → read_frame digest r ≡ some r'
      → r'.block_left ≡ suc m
      → read_all digest (suc k) r ≡ read_all digest (suc k) r'
  read_all-frame k m r r' left going frame more =
      read_all-next k r r' (next-frame 1 r r' left going frame ∙ next-full 0 m r' more)

  pub read_all-footer :
      (k : ℕ) (r r' : Reader)
      → r.block_left ≡ 0
      → r.done ≡ false
      → read_frame digest r ≡ some r'
      → r'.done ≡ true
      → r'.block_left ≡ 0
      → read_all digest (suc k) r ≡ some []
  unfolding read_all
  read_all-footer k r r' left going frame ended left' =
      rw (next-frame 1 r r' left going frame ∙ next-ended 0 r' left' ended, read_all) refl

  flush-some :
      (prev payload : Bytes) (n : ℕ)
      → flush digest prev payload (suc n) ≡ (
        block_head digest (suc n) payload
            ++ (payload ++ block_sum digest digest-length prev (suc n) payload),
        block_sum digest digest-length prev (suc n) payload,
      )
  unfolding flush
  flush-some prev payload n = ground arith

  pub read_all-flush :
      (ps : List IntermediateRecord) (prev raw : Bytes) (expected : ℤ) (read_so_far k : ℕ)
      → AreShort ps
      → length ps < two_64
      → length (records_bytes ps) ≤ max_block_len
      → read_all digest (length ps + suc k) (
          between digest digest-length
            ((flush digest prev (records_bytes ps) (length ps)).0 ++ raw)
            prev
            expected
            read_so_far)
        ≡ onto ps (
            read_all digest (suc k) (
              between digest digest-length raw
                (flush digest prev (records_bytes ps) (length ps)).1
                expected
                (read_so_far + length ps)))
  unfolding flush runs
  read_all-flush [] prev raw expected read_so_far k short small fits =
      let none_more : 0 + suc k ≡ suc k = omega arith in
      let none_read : read_so_far ≡ read_so_far + 0 = omega arith in
      let here =
        λ (n : ℕ). read_all digest (suc k) (between digest digest-length raw prev expected n) in
      ap (λ n. read_all digest n (between digest digest-length raw prev expected read_so_far))
        none_more
      ∙ ap here none_read
      ∙ sym (onto-nil (here (read_so_far + 0)))
  read_all-flush (p ∷ ps) prev raw expected read_so_far k short small fits =
      let payload = records_bytes (p ∷ ps) in
      let count = suc (length ps) in
      let sum = block_sum digest digest-length prev count payload in
      let full : Reader = record (between digest digest-length raw sum expected read_so_far) {
        block = payload;
        block_left = count;
      } in
      let apart : (block_head digest count payload ++ (payload ++ sum)) ++ raw
          ≡ block_head digest count payload ++ (payload ++ (sum ++ raw)) =
        append_assoc (block_head digest count payload) (payload ++ sum) raw
        ∙ ap (λ bs. block_head digest count payload ++ bs) (append_assoc payload sum raw) in
      let more : suc (length ps) + suc k ≡ suc (length ps + suc k) = omega arith in
      subst
        (λ (f : Bytes × Bytes).
          read_all digest (suc (length ps) + suc k)
            (between digest digest-length (f.0 ++ raw) prev expected read_so_far)
          ≡ onto (p ∷ ps) (
              read_all digest (suc k)
                (between digest digest-length raw f.1 expected (read_so_far + count))))
        (sym (flush-some prev payload (length ps)))
        (ap
            (λ bs.
              read_all digest (suc (length ps) + suc k)
                (between digest digest-length bs prev expected read_so_far))
            apart
          ∙ ap
              (λ n. read_all digest n (
                between digest digest-length
                  (block_head digest count payload ++ (payload ++ (sum ++ raw))) prev expected
                  read_so_far))
              more
          ∙ read_all-frame (length ps + suc k) (length ps) _ full refl refl
              (read_frame-block digest digest-length prev payload raw expected read_so_far count
                (omega arith) small (records_bytes-count (p ∷ ps)) fits)
              refl
          ∙ ap (λ n. read_all digest n full) (sym more)
          ∙ read_all-block digest (p ∷ ps) full (suc k) short refl refl)
