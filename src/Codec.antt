-- ===== src/Codec.antt =====
-- pkg/eqmr/intermediate_codec.go: the encoding of a run of records and its reader. A byte is a number
-- below 256. The checksum, an xxhash digest in 8 bytes, is a parameter. The writer and the source do
-- not fail: a source ends where the bytes do, and a short read is then corruption.
pub mod Varints
pub mod Fields
pub mod Blocks
pub mod Reading
pub mod Turns
pub mod RoundTrip
use entroq.Base.{
  ℤ, pos_part, neg_part, sub_ℕ, ◌+ℤ◌, ◌≤ℤ◌, ltb_ℤ, +ℤ_parts, eq_of_parts, int_laws, +ℤ_assoc,
  +ℤ-zero, zero-+ℤ, pos, negsuc, Time, Duration, add, after, before, is_zero, is_positive,
  is_zero_duration, int32_mod, inc32, IsInt32, is_positive32, inc32_moves, inc32-IsInt32, le32,
  Dict, lookup, insert, erase, contains, lookup-insert, lookup-erase, contains-insert, contains-nil,
  get_or, get_or-insert, map_values, lookup-map_values, AreNew, AreNew-cons, AreNew-nil, ltb, leb,
  if◌then◌else◌, ltb→lt, lt→ltb, le→not-ltb, Bool-cases, Option-cases, is_some, length, All,
  is_empty, any, keep, length-append, All-append, is_empty-keep, Distinct, everywhere, append-nil,
  append_assoc, is_empty_iff, All-iff, All-implied, All-both, keep-All, text_discrete, Eq,
  string_eq, nat_eq, ◌==◌, pair_discrete, runs, ℕ, zero, suc, ◌+◌, ◌-◌, ◌*◌, ◌/◌, ◌%◌, ◌^◌, ◌≤◌,
  ◌<◌, String, ◌<>◌, len, ◌≡◌, refl, sym, ap, ◌∙◌, ◌≢◌, ◌↔◌, ◌⊎◌, inl, inr, Bool, true, false, not,
  ◌&&◌, ◌||◌, Option, none, some, List, [], ◌∷◌, ◌++◌, map, arith,
}
use entroq.Paths.{
  Text, slash, semicolon, backslash, equals, star, text_dec, text_eq, is_structural,
  escape_component, split_from, split_unescaped, unescape_from, unescape, path_components,
  path_labels, cut, visit_pairs, visit_component_params, add_param, params_loop, tail_of,
  path_params, fold_param, fold_component, join, fold_path_param, ns_prefix, has_prefix,
  namespace_of, is_all_digits,
}

abbrev pub Bytes : Type 0
Bytes = List ℕ

pub record IntermediateRecord : Type 0 where
  pub primary : Bytes
  pub secondary : Bytes
  pub value : Bytes

-- intermediateRunMagic
abbrev pub run_magic : Bytes
run_magic = 69 ∷ 81 ∷ 77 ∷ 82 ∷ 82 ∷ 85 ∷ 78 ∷ 2 ∷ []

abbrev pub block_tag : ℕ
block_tag = 1

abbrev pub footer_tag : ℕ
footer_tag = 0

abbrev pub max_record_len : ℕ
max_record_len = 67_108_864

abbrev pub block_bytes : ℕ
block_bytes = 65_536

abbrev pub max_varint_len : ℕ
max_varint_len = 10

abbrev pub max_block_len : ℕ
max_block_len = block_bytes + max_record_len + 3 * max_varint_len

-- binary.AppendUvarint, on fuel for its bytes; a `uint64` takes at most 10.
unfoldable pub uvarint_bytes : ℕ → ℕ → Bytes
uvarint_bytes zero n = []
uvarint_bytes (suc k) n =
    let more = (128 + n % 128) ∷ uvarint_bytes k (n / 128) in if ltb n 128 then n ∷ [] else more

abbrev pub append_uvarint : Bytes → ℕ → Bytes
append_uvarint b n = b ++ uvarint_bytes max_varint_len n

-- The loop of readUvarint, and of binary.Uvarint on a slice: `k` bytes are left to it, `place` is
-- 2^(7 i), and `n` is what was read, whose bits the next byte's do not touch. It returns the number,
-- the bytes that it read and the rest.
unfoldable pub uvarint_from : ℕ → ℕ → ℕ → Bytes → Option (ℕ × Bytes × Bytes)
uvarint_from zero place n raw = none
uvarint_from (suc k) place n [] = none
uvarint_from (suc k) place n (b ∷ raw) =
    let later = uvarint_from k (128 * place) (n + b % 128 * place) raw in
    if ltb b 128
    then (if k == 0 && ltb 1 b then none else some (n + b * place, b ∷ [], raw))
    else elim later [ none ↦ none | some (m, read, rest) ↦ some (m, b ∷ read, rest) ]

abbrev pub read_uvarint : Bytes → Option (ℕ × Bytes × Bytes)
read_uvarint raw = uvarint_from max_varint_len 1 0 raw

-- `io.ReadFull` of n bytes, and a slice taken apart at n
unfoldable pub split_bytes : ℕ → Bytes → Option (Bytes × Bytes)
split_bytes zero raw = some ([], raw)
split_bytes (suc n) [] = none
split_bytes (suc n) (b ∷ raw) = elim (split_bytes n raw) [
  | none ↦ none
  | some (head, rest) ↦ some (b ∷ head, rest)
]

-- appendIntermediateRecord
unfoldable pub append_record : Bytes → IntermediateRecord → Bytes
append_record b r =
    append_uvarint (append_uvarint (append_uvarint b (length r.primary)) (length r.secondary))
      (length r.value)
    ++ (r.primary ++ r.secondary ++ r.value)

-- The two loops of decodeRecord, on the block
unfoldable pub read_lengths : Bytes → Option ((ℕ × ℕ × ℕ) × Bytes)
read_lengths block = elim (read_uvarint block) [
  | none ↦ none
  | some (p, _, block₁) ↦ elim (read_uvarint block₁) [
    | none ↦ none
    | some (q, _, block₂) ↦ elim (read_uvarint block₂) [
      | none ↦ none
      | some (v, _, block₃) ↦ some ((p, q, v), block₃)
    ]
  ]
]

unfoldable pub read_fields : ℕ × ℕ × ℕ → Bytes → Option (IntermediateRecord × Bytes)
read_fields (p, q, v) block = elim (split_bytes p block) [
  | none ↦ none
  | some (primary, block₁) ↦ elim (split_bytes q block₁) [
    | none ↦ none
    | some (secondary, block₂) ↦ elim (split_bytes v block₂) [
      | none ↦ none
      | some (value, block₃) ↦
          some (record { primary = primary; secondary = secondary; value = value }, block₃)
    ]
  ]
]

unfoldable pub decode_fields : Bytes → Option (IntermediateRecord × Bytes)
decode_fields block = elim (read_lengths block) [
  | none ↦ none
  | some (lengths, rest) ↦ read_fields lengths rest
]

-- The checksum of some bytes, in 8 bytes, big-endian
module _ (digest : Bytes → Bytes) where
  -- chainStart
  abbrev pub chain_start : Bytes
  chain_start = digest run_magic

  -- chainSum
  abbrev pub chain_sum : Bytes → Bytes → Bytes
  chain_sum prev parts = digest (prev ++ parts)

  -- `flush` of encodeIntermediateRun: what it writes, and `prev` after it
  unfoldable pub block_head : ℕ → Bytes → Bytes
  block_head count payload = append_uvarint (append_uvarint (block_tag ∷ []) count) (length payload)

  unfoldable pub flush : Bytes → Bytes → ℕ → Bytes × Bytes
  flush prev payload count =
      let sum = chain_sum prev (block_head count payload ++ payload) in
      if count == 0 then ([], prev) else (block_head count payload ++ (payload ++ sum), sum)

  -- The footer of encodeIntermediateRun
  unfoldable pub footer : Bytes → ℕ → Bytes
  footer prev total =
      let foot = append_uvarint (footer_tag ∷ []) total in foot ++ chain_sum prev foot

  -- The loop of encodeIntermediateRun and what follows it; `none` for a record over the limit
  unfoldable pub encode_loop : ℕ → Bytes → Bytes → ℕ → List IntermediateRecord → Option Bytes
  encode_loop total prev payload count [] =
      let (block, prev') = flush prev payload count in some (block ++ footer prev' total)
  encode_loop total prev payload count (r ∷ rest) =
      let longer = append_record payload r in
      let (block, prev') = flush prev longer (count + 1) in
      let kept = encode_loop total prev longer (count + 1) rest in
      let flushed = encode_loop total prev' [] 0 rest in
      if ltb max_record_len (length r.primary + length r.secondary + length r.value)
      then none
      else if leb block_bytes (length longer)
      then (elim flushed [ none ↦ none | some out ↦ some (block ++ out) ])
      else kept

  -- encodeIntermediateRun
  unfoldable pub encode_run : List IntermediateRecord → Option Bytes
  encode_run records = elim (encode_loop (length records) chain_start [] 0 records) [
    | none ↦ none
    | some out ↦ some (run_magic ++ out)
  ]
