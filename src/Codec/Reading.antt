-- ===== src/Codec/Reading.antt =====
-- The reader of a run, encodedIntermediateReader of pkg/eqmr/intermediate_codec.go.
use entroq.Base.{
  ℤ, pos_part, ltb_ℤ, pos, ltb, if◌then◌else◌, is_empty, string_eq, nat_eq, ◌==◌, ℕ, zero, suc, ◌+◌,
  ◌-◌, ◌/◌, len, Bool, true, false, not, ◌&&◌, ◌||◌, Option, none, some, List, [], ◌∷◌, ◌++◌,
}
use entroq.Paths.{text_eq}
use entroq.Codec.{
  Bytes, IntermediateRecord, run_magic, block_tag, footer_tag, max_block_len, read_uvarint,
  split_bytes, decode_fields, chain_start, chain_sum,
}

-- encodedIntermediateReader
pub record Reader : Type 0 where
  pub raw : Bytes
  pub prev : Bytes
  pub expected_count : ℤ
  pub read_count : ℕ
  pub block : Bytes
  pub block_left : ℕ
  pub done : Bool

-- What Next returns: a record, the end of the run, or that the run is corrupt.
pub data Read : Type 0 where
  read_record : IntermediateRecord → Reader → Read
  end_of_run : Read
  corrupt : Read

-- decodeRecord
unfoldable pub decode_record : Reader → Option (IntermediateRecord × Reader)
decode_record r = elim (decode_fields r.block) [
  | none ↦ none
  | some (x, rest) ↦
      if r.block_left - 1 == 0 && not (is_empty rest)
      then none
      else some (x, record r { block = rest; block_left = r.block_left - 1 })
]

module _ (digest : Bytes → Bytes) where
  -- newEncodedIntermediateReader
  unfoldable pub new_reader : Bytes → ℤ → Option Reader
  new_reader body expected = elim (split_bytes 8 body) [
    | none ↦ none
    | some (magic, rest) ↦
        if magic == run_magic
        then some (record {
          raw = rest;
          prev = chain_start digest;
          expected_count = expected;
          read_count = 0;
          block = [];
          block_left = 0;
          done = false;
        })
        else none
  ]

  -- encodedIntermediateReader.verify
  unfoldable pub verify : Reader → Bytes → Option Reader
  verify r parts = elim (split_bytes 8 r.raw) [
    | none ↦ none
    | some (sum, rest) ↦
        if sum == chain_sum digest r.prev parts
        then some (record r { raw = rest; prev = sum })
        else none
  ]

  -- encodedIntermediateReader.readBlock, after the tag
  unfoldable pub read_block : Reader → Option Reader
  read_block r = elim (read_uvarint r.raw) [
    | none ↦ none
    | some (count, read₁, raw₁) ↦ elim (read_uvarint raw₁) [
      | none ↦ none
      | some (len, read₂, raw₂) ↦
          if count == 0 || ltb max_block_len len || ltb (len / 3) count
          then none
          else elim (split_bytes len raw₂) [
            | none ↦ none
            | some (payload, raw₃) ↦
                elim (verify (record r { raw = raw₃ })
                  ((((block_tag ∷ []) ++ read₁) ++ read₂) ++ payload)) [
                    | none ↦ none
                    | some r' ↦ some (record r' { block = payload; block_left = count })
                  ]
          ]
    ]
  ]

  -- encodedIntermediateReader.readFooter, after the tag
  unfoldable pub read_footer : Reader → Option Reader
  read_footer r = elim (read_uvarint r.raw) [
    | none ↦ none
    | some (count, read₁, raw₁) ↦
        elim (verify (record r { raw = raw₁ }) ((footer_tag ∷ []) ++ read₁)) [
          | none ↦ none
          | some r' ↦
              if not (count == r.read_count)
              then none
              else if not (ltb_ℤ r.expected_count (pos 0))
                  && not (pos_part r.expected_count == count)
              then none
              else if not (is_empty r'.raw)
              then none
              else some (record r' { done = true })
        ]
  ]

  -- encodedIntermediateReader.readFrame
  unfoldable pub read_frame : Reader → Option Reader
  read_frame r = elim r.raw [
    | [] ↦ none
    | tag ∷ raw ↦
        if tag == block_tag
        then read_block (record r { raw = raw })
        else if tag == footer_tag
        then read_footer (record r { raw = raw })
        else none
  ]

  -- The loop of encodedIntermediateReader.Next, on fuel for its turns: a block has a record, so 2
  -- turns are enough.
  unfoldable pub next_loop : ℕ → Reader → Read
  next_loop zero r = corrupt
  next_loop (suc k) r =
      if r.block_left == 0
      then (if r.done
          then end_of_run
          else elim (read_frame r) [ none ↦ corrupt | some r' ↦ next_loop k r' ])
      else elim (decode_record r) [
        | none ↦ corrupt
        | some (x, r') ↦ read_record x (record r' { read_count = r'.read_count + 1 })
      ]

  -- encodedIntermediateReader.Next
  abbrev pub next : Reader → Read
  next r = next_loop 2 r

  -- A caller's loop over Next until the end of the run, on fuel for its turns
  unfoldable pub read_all : ℕ → Reader → Option (List IntermediateRecord)
  read_all zero r = none
  read_all (suc k) r = elim (next r) [
    | corrupt ↦ none
    | end_of_run ↦ some []
    | read_record x r' ↦ elim (read_all k r') [ none ↦ none | some xs ↦ some (x ∷ xs) ]
  ]
