-- ===== src/Codec/Blocks.antt =====
-- Blocks of a run in pkg/eqmr/intermediate_codec.go: a run is read back as it was written.
use entroq.Base.{
  ℤ, ltb_ℤ, pos, length, All, length-append, append-nil, append_assoc, string_eq, nat_eq, runs, ℕ,
  suc, ◌+◌, ◌*◌, ◌/◌, ◌≤◌, ◌<◌, ◌≡◌, refl, sym, ap, ◌∙◌, ◌⊎◌, inl, inr, true, false, Option, none,
  some, List, [], ◌∷◌, ◌++◌, arith,
}
use entroq.Paths.{text_dec, text_eq}
use entroq.Codec.Reading.{
  Reader, decode_record, verify, read_block, read_footer, read_frame, next_loop, next, read_all,
  read_record,
}
use entroq.Codec.{
  Bytes, IntermediateRecord, footer_tag, max_record_len, max_varint_len, max_block_len,
  uvarint_bytes, split_bytes, chain_sum, block_head, footer,
}
use entroq.Codec.Fields.{
  read_uvarint-append, split_bytes-append, record_bytes, record_len, decode_fields-append,
  record_bytes-length,
}

abbrev pub two_64 : ℕ
two_64 = 18_446_744_073_709_551_616

unfoldable pub records_bytes : List IntermediateRecord → Bytes
records_bytes [] = []
records_bytes (r ∷ rs) = record_bytes r ++ records_bytes rs

abbrev pub AreShort : List IntermediateRecord → Type 0
AreShort rs = All (λ r. record_len r ≤ max_record_len) rs

pub records_bytes-append :
    (ps : List IntermediateRecord) (r : IntermediateRecord)
    → records_bytes (ps ++ r ∷ []) ≡ records_bytes ps ++ record_bytes r
unfolding records_bytes
records_bytes-append [] r = append-nil (record_bytes r)
records_bytes-append (p ∷ ps) r =
    ap (λ bs. record_bytes p ++ bs) (records_bytes-append ps r)
    ∙ sym (append_assoc (record_bytes p) (records_bytes ps) (record_bytes r))

pub records_bytes-count : (ps : List IntermediateRecord) → 3 * length ps ≤ length (records_bytes ps)
unfolding records_bytes
records_bytes-count [] = omega arith
records_bytes-count (p ∷ ps) = omega (
  arith,
  records_bytes-count ps,
  (record_bytes-length p).0,
  length-append (record_bytes p) (records_bytes ps),
)

-- The records before those that are read later
abbrev pub onto :
    List IntermediateRecord → Option (List IntermediateRecord) → Option (List IntermediateRecord)
onto ps none = none
onto ps (some xs) = some (ps ++ xs)

pub onto-nil : (o : Option (List IntermediateRecord)) → onto [] o ≡ o
onto-nil none = refl
onto-nil (some xs) = refl

onto-onto :
    (p : IntermediateRecord) (ps : List IntermediateRecord) (o : Option (List IntermediateRecord))
    → onto (p ∷ []) (onto ps o) ≡ onto (p ∷ ps) o
onto-onto p ps none = refl
onto-onto p ps (some xs) = refl

module _ (digest : Bytes → Bytes) where
  -- The reader after the records of its block
  abbrev pub past_block : Reader → ℕ → Reader
  past_block r n = record r { block = []; block_left = 0; read_count = r.read_count + n }

  next-record :
      (r : Reader) (p : IntermediateRecord) (ps : List IntermediateRecord)
      → record_len p ≤ max_record_len
      → r.block ≡ record_bytes p ++ records_bytes ps
      → r.block_left ≡ suc (length ps)
      → (k : ℕ)
      → next_loop digest (suc k) r
        ≡ read_record p (record r {
          block = records_bytes ps;
          block_left = length ps;
          read_count = r.read_count + 1;
        })
  unfolding next_loop decode_record records_bytes
  next-record r p [] short block left k =
      ground (arith, decode_fields-append p (records_bytes []) short, block, left)
  next-record r p (q ∷ ps) short block left k =
      ground (arith, decode_fields-append p (records_bytes (q ∷ ps)) short, block, left)

  same_reader : (r : Reader) → r.block ≡ [] → r.block_left ≡ 0 → r ≡ past_block r 0
  same_reader r block left =
      ap (λ b. record r { block = b }) block
      ∙ ap (λ n. record r { block = []; block_left = n }) left
      ∙ ap (λ n. record r { block = []; block_left = 0; read_count = n }) (omega arith)

  read_all-record :
      (k : ℕ) (r : Reader) (p : IntermediateRecord) (r' : Reader)
      → next digest r ≡ read_record p r'
      → read_all digest (suc k) r ≡ onto (p ∷ []) (read_all digest k r')
  unfolding read_all
  read_all-record k r p r' h = rw (h, read_all) (one_more (read_all digest k r'))
    where
      one_more :
          (o : Option (List IntermediateRecord))
          → elim o as (λ _. Option (List IntermediateRecord)) [
            | none ↦ none
            | some xs ↦ some (p ∷ xs)
          ]
            ≡ onto (p ∷ []) o
      one_more none = refl
      one_more (some xs) = refl

  pub read_all-block :
      (ps : List IntermediateRecord) (r : Reader) (k : ℕ)
      → AreShort ps
      → r.block ≡ records_bytes ps
      → r.block_left ≡ length ps
      → read_all digest (length ps + k) r ≡ onto ps (read_all digest k (past_block r (length ps)))
  unfolding read_all records_bytes
  read_all-block [] r k short block left =
      let none_more : 0 + k ≡ k = omega arith in
      ap (λ n. read_all digest n r) none_more
      ∙ ap (read_all digest k) (same_reader r block left)
      ∙ sym (onto-nil (read_all digest k (past_block r 0)))
  read_all-block (p ∷ ps) r k short block left =
      let r' : Reader = record r {
        block = records_bytes ps;
        block_left = length ps;
        read_count = r.read_count + 1;
      } in
      let later : past_block r' (length ps) ≡ past_block r (suc (length ps)) =
        ap (λ n. record r { block = []; block_left = 0; read_count = n }) (omega arith) in
      let one_more : suc (length ps) + k ≡ suc (length ps + k) = omega arith in
      ap (λ n. read_all digest n r) one_more
      ∙ read_all-record (length ps + k) r p r' (next-record r p ps short.0 block left 1)
      ∙ ap (onto (p ∷ []))
          (read_all-block ps r' k short.1 refl refl ∙ ap (λ x. onto ps (read_all digest k x)) later)
      ∙ onto-onto p ps (read_all digest k (past_block r (suc (length ps))))

  module _ (digest-length : (bs : Bytes) → length (digest bs) ≡ 8) where
    verify-sum :
        (r : Reader) (parts raw : Bytes)
        → r.raw ≡ chain_sum digest r.prev parts ++ raw
        → verify digest r parts
          ≡ some (record r { raw = raw; prev = chain_sum digest r.prev parts })
    unfolding verify
    verify-sum r parts raw h =
        let sum = chain_sum digest r.prev parts in
        let taken : split_bytes 8 (sum ++ raw) ≡ some (sum, raw) =
          ap (λ n. split_bytes n (sum ++ raw)) (sym (digest-length (r.prev ++ parts)))
          ∙ split_bytes-append sum raw in
        ground (arith, h, taken)

    -- A reader between two blocks
    abbrev pub between : Bytes → Bytes → ℤ → ℕ → Reader
    between raw prev expected read_so_far = record {
      raw = raw;
      prev = prev;
      expected_count = expected;
      read_count = read_so_far;
      block = [];
      block_left = 0;
      done = false;
    }

    abbrev pub block_sum : Bytes → ℕ → Bytes → Bytes
    block_sum prev count payload =
        chain_sum digest prev (block_head digest count payload ++ payload)

    pub read_frame-block :
        (prev payload raw : Bytes) (expected : ℤ) (read_so_far count : ℕ)
        → 0 < count
        → count < two_64
        → 3 * count ≤ length payload
        → length payload ≤ max_block_len
        → read_frame digest (
            between
              (block_head digest count payload
                ++ (payload ++ (block_sum prev count payload ++ raw)))
              prev
              expected
              read_so_far)
          ≡ some (record (between raw (block_sum prev count payload) expected read_so_far) {
            block = payload;
            block_left = count;
          })
    unfolding read_frame read_block block_head runs text_dec
    read_frame-block prev payload raw expected read_so_far count some_records small enough short =
        let b₁ = uvarint_bytes max_varint_len count in
        let b₂ = uvarint_bytes max_varint_len (length payload) in
        let sum = block_sum prev count payload in
        let tail = payload ++ (sum ++ raw) in
        let third : count ≤ length payload / 3 = omega (arith, enough) in
        ground (
          arith,
          append_assoc b₁ b₂ tail,
          read_uvarint-append count (b₂ ++ tail) small,
          read_uvarint-append (length payload) tail (omega (arith, short)),
          split_bytes-append payload (sum ++ raw),
          verify-sum (between (sum ++ raw) prev expected read_so_far)
              (block_head digest count payload ++ payload) raw refl,
          some_records,
          third,
          short,
        )

    pub read_frame-footer :
        (prev : Bytes) (expected : ℤ) (total : ℕ)
        → total < two_64
        → (expected ≡ pos total) ⊎ (ltb_ℤ expected (pos 0) ≡ true)
        → (r : Reader) × (read_frame digest (between (footer digest prev total) prev expected total)
            ≡ some r)
          × (r.done ≡ true)
          × (r.block_left ≡ 0)
    unfolding read_frame read_footer footer
    read_frame-footer prev expected total small agrees =
        let b = uvarint_bytes max_varint_len total in
        let foot = (footer_tag ∷ []) ++ b in
        let sum = chain_sum digest prev foot in
        let there : sum ≡ sum ++ [] = sym (append-nil sum) in
        let checked = verify-sum (between sum prev expected total) foot [] there in
        let read = read_uvarint-append total sum small in
        let at_end = record (between [] sum expected total) { done = true } in
        (
          at_end,
          elim agrees [
            | inl e ↦ ground (arith, read, checked, e)
            | inr e ↦ ground (arith, read, checked, e)
          ],
          refl,
          refl,
        )
