-- ===== src/Codec/RoundTrip.antt =====
-- Round trip of pkg/eqmr/intermediate_codec.go: a reader reads a run as it was written.
use entroq.Base.{
  ℤ, ltb_ℤ, pos, ltb, ltb→lt, Bool-cases, length, length-append, All-append, append_assoc,
  string_eq, nat_eq, runs, ℕ, suc, ◌+◌, ◌≤◌, ◌<◌, ◌≡◌, refl, sym, ap, ◌∙◌, ◌⊎◌, inl, inr, true,
  some, List, [], ◌∷◌, ◌++◌, arith,
}
use entroq.Paths.{text_dec, text_eq}
use entroq.Codec.Reading.{Reader, new_reader, read_all}
use entroq.Codec.{
  Bytes, IntermediateRecord, run_magic, max_record_len, block_bytes, max_block_len, split_bytes,
  append_record, chain_start, flush, footer, encode_loop, encode_run,
}
use entroq.Codec.Fields.{record_bytes, append_record-bytes, record_len, record_bytes-length}
use entroq.Codec.Turns.{read_all-footer, read_all-flush}
use entroq.Codec.Blocks.{
  two_64, records_bytes, AreShort, records_bytes-append, onto, between, read_frame-footer,
}

-- What a reader expects of a run agrees with the number of its records, or is not said.
abbrev pub Expects : ℤ → ℕ → Type 0
Expects expected total = (expected ≡ pos total) ⊎ (ltb_ℤ expected (pos 0) ≡ true)

module _ (digest : Bytes → Bytes) (digest-length : (bs : Bytes) → length (digest bs) ≡ 8) where
  encode_loop-kept :
      (total count count' : ℕ) (prev payload longer : Bytes) (r : IntermediateRecord)
      (rest : List IntermediateRecord)
      → record_len r ≤ max_record_len
      → append_record payload r ≡ longer
      → count + 1 ≡ count'
      → length longer < block_bytes
      → encode_loop digest total prev payload count (r ∷ rest)
        ≡ encode_loop digest total prev longer count' rest
  unfolding encode_loop
  encode_loop-kept total count count' prev payload longer r rest short same next_count room =
      ground (arith, short, same, next_count, room)

  encode_loop-flushed :
      (total count count' : ℕ) (prev payload longer out : Bytes) (r : IntermediateRecord)
      (rest : List IntermediateRecord)
      → record_len r ≤ max_record_len
      → append_record payload r ≡ longer
      → count + 1 ≡ count'
      → block_bytes ≤ length longer
      → encode_loop digest total (flush digest prev longer count').1 [] 0 rest ≡ some out
      → encode_loop digest total prev payload count (r ∷ rest)
        ≡ some ((flush digest prev longer count').0 ++ out)
  unfolding encode_loop
  encode_loop-flushed total count count' prev payload longer out r rest short same next_count full
        h =
      ground (arith, short, same, next_count, full, h)

  -- What is read of the rest of a run: the records that wait for their block, then the others.
  abbrev Reads : ℕ → ℤ → Bytes → List IntermediateRecord → List IntermediateRecord → ℕ → Type 0
  Reads total expected prev ps rest read_so_far =
      (out : Bytes) × (encode_loop digest total prev (records_bytes ps) (length ps) rest ≡ some out)
      × (read_all digest (length ps + suc (length rest))
            (between digest digest-length out prev expected read_so_far)
          ≡ some (ps ++ rest))

  added :
      (ps : List IntermediateRecord) (r : IntermediateRecord)
      → append_record (records_bytes ps) r ≡ records_bytes (ps ++ r ∷ [])
  added ps r = append_record-bytes (records_bytes ps) r ∙ sym (records_bytes-append ps r)

  encode_loop-Reads :
      (rest ps : List IntermediateRecord) (total : ℕ) (expected : ℤ) (prev : Bytes)
      (read_so_far : ℕ)
      → AreShort ps
      → AreShort rest
      → length (records_bytes ps) < block_bytes
      → read_so_far + length ps + length rest ≡ total
      → total < two_64
      → Expects expected total
      → Reads total expected prev ps rest read_so_far
  unfolding encode_loop records_bytes
  encode_loop-Reads [] ps total expected prev read_so_far short short' room sum small agrees =
      let prev' = (flush digest prev (records_bytes ps) (length ps)).1 in
      let foot = footer digest prev' total in
      let all_read : read_so_far + length ps ≡ total = omega (arith, sum) in
      let (r', frame, ended, left) =
        read_frame-footer digest digest-length prev' expected total small agrees in
      (
        (flush digest prev (records_bytes ps) (length ps)).0 ++ foot,
        refl,
        read_all-flush digest digest-length ps prev foot expected read_so_far 0 short
              (omega (arith, sum, small)) (omega (arith, room))
            ∙ ap
                (λ n.
                  onto ps (read_all digest 1 (between digest digest-length foot prev' expected n)))
                all_read
            ∙ ap (onto ps) (read_all-footer digest digest-length 0 _ r' refl refl frame ended left),
      )
  encode_loop-Reads (r ∷ rest) ps total expected prev read_so_far short short' room sum small
        agrees =
      let q = ps ++ r ∷ [] in
      let one_more : length ps + 1 ≡ length q = sym (length-append ps (r ∷ [])) in
      let q_short : AreShort q =
        (All-append (λ x. record_len x ≤ max_record_len) ps (r ∷ [])).1 (short, (short'.0, tt)) in
      let turns : length ps + suc (suc (length rest)) ≡ length q + suc (length rest) =
        omega (arith, one_more) in
      let same : q ++ rest ≡ ps ++ (r ∷ rest) = append_assoc ps (r ∷ []) rest in
      elim (Bool-cases (ltb (length (records_bytes q)) block_bytes)) [
        | inl kept ↦
            let later =
              encode_loop-Reads rest q total expected prev read_so_far q_short short'.1
                (ltb→lt _ _ kept) (omega (arith, sum, one_more)) small agrees in
            (
              later.0,
              encode_loop-kept total (length ps) (length q) prev (records_bytes ps)
                    (records_bytes q) r rest short'.0 (added ps r) one_more (ltb→lt _ _ kept)
                  ∙ later.1,
              ap
                    (λ n.
                      read_all digest n
                        (between digest digest-length later.0 prev expected read_so_far))
                    turns
                  ∙ later.2
                  ∙ ap some same,
            )
        | inr full ↦
            let prev' = (flush digest prev (records_bytes q) (length q)).1 in
            let later =
              encode_loop-Reads rest [] total expected prev' (read_so_far + length q) tt short'.1
                (omega arith) (omega (arith, sum, one_more)) small agrees in
            let out = (flush digest prev (records_bytes q) (length q)).0 ++ later.0 in
            let fits : length (records_bytes q) ≤ max_block_len = omega (
              arith,
              room,
              ap length (records_bytes-append ps r),
              length-append (records_bytes ps) (record_bytes r),
              (record_bytes-length r).1,
              short'.0,
            ) in
            let none_more : suc (length rest) ≡ 0 + suc (length rest) = omega arith in
            (
              out,
              encode_loop-flushed total (length ps) (length q) prev (records_bytes ps)
                  (records_bytes q) later.0 r rest short'.0 (added ps r) one_more
                  (ground (arith, full)) later.1,
              ap
                    (λ n.
                      read_all digest n
                        (between digest digest-length out prev expected read_so_far))
                    turns
                  ∙ read_all-flush digest digest-length q prev later.0 expected read_so_far
                      (length rest) q_short (omega (arith, sum, small, one_more)) fits
                  ∙ ap
                      (λ n. onto q (
                        read_all digest n (
                          between digest digest-length later.0 prev' expected
                            (read_so_far + length q))))
                      none_more
                  ∙ ap (onto q) later.2
                  ∙ ap some same,
            )
      ]

  new_reader-magic :
      (out : Bytes) (expected : ℤ)
      → new_reader digest (run_magic ++ out) expected
        ≡ some (between digest digest-length out (chain_start digest) expected 0)
  unfolding new_reader split_bytes runs text_dec
  new_reader-magic out expected = refl

  -- A run of records, each within the limit and fewer than 2^64, is encoded, and a reader that
  -- expects that many or does not say reads the same records and then the end of the run. The
  -- checksum has 8 bytes and is otherwise any function of what it covers.
  pub read_all-encode_run :
      (records : List IntermediateRecord) (expected : ℤ)
      → AreShort records
      → length records < two_64
      → Expects expected (length records)
      → (run : Bytes) × (r : Reader) × (encode_run digest records ≡ some run)
        × (new_reader digest run expected ≡ some r)
        × (read_all digest (suc (length records)) r ≡ some records)
  unfolding encode_run records_bytes
  read_all-encode_run records expected short small agrees =
      let all_left : 0 + 0 + length records ≡ length records = omega arith in
      let turns : suc (length records) ≡ 0 + suc (length records) = omega arith in
      let (out, e, read) =
        encode_loop-Reads records [] (length records) expected (chain_start digest) 0 tt short
          (omega arith) all_left small agrees in
      let start = between digest digest-length out (chain_start digest) expected 0 in
      (
        run_magic ++ out,
        start,
        ground (arith, e),
        new_reader-magic out expected,
        ap (λ n. read_all digest n start) turns ∙ read,
      )
