-- ===== src/Codec/Fields.antt =====
-- Fields of a record in pkg/eqmr/intermediate_codec.go: what is appended is decoded.
use entroq.Base.{
  length, length-append, append_assoc, string_eq, nat_eq, ℕ, zero, suc, ◌+◌, ◌*◌, ◌/◌, ◌≤◌, ◌<◌,
  ◌≡◌, refl, ap, ◌∙◌, some, [], ◌∷◌, ◌++◌, arith,
}
use entroq.Codec.{
  Bytes, IntermediateRecord, max_record_len, max_varint_len, uvarint_bytes, read_uvarint,
  split_bytes, append_record, read_lengths, read_fields, decode_fields,
}
use entroq.Codec.Varints.{small-Fits, uvarint_from-bytes}

pub read_uvarint-append :
    (n : ℕ) (rest : Bytes)
    → n < 18_446_744_073_709_551_616
    → read_uvarint (uvarint_bytes max_varint_len n ++ rest)
      ≡ some (n, uvarint_bytes max_varint_len n, rest)
read_uvarint-append n rest h =
    let one : 0 + n * 1 ≡ n = omega arith in
    uvarint_from-bytes max_varint_len n 1 0 rest (small-Fits n h)
    ∙ ap (λ m. some (m, uvarint_bytes max_varint_len n, rest)) one

pub split_bytes-append : (xs rest : Bytes) → split_bytes (length xs) (xs ++ rest) ≡ some (xs, rest)
unfolding split_bytes
split_bytes-append [] rest = refl
split_bytes-append (x ∷ xs) rest = ground (arith, split_bytes-append xs rest)

-- The bytes of a record by itself
unfoldable pub record_bytes : IntermediateRecord → Bytes
record_bytes r =
    uvarint_bytes max_varint_len (length r.primary)
    ++ (uvarint_bytes max_varint_len (length r.secondary)
        ++ (uvarint_bytes max_varint_len (length r.value) ++ (r.primary ++ r.secondary ++ r.value)))

pub append_record-bytes :
    (b : Bytes) (r : IntermediateRecord) → append_record b r ≡ b ++ record_bytes r
unfolding append_record record_bytes
append_record-bytes b r =
    let p = uvarint_bytes max_varint_len (length r.primary) in
    let q = uvarint_bytes max_varint_len (length r.secondary) in
    let v = uvarint_bytes max_varint_len (length r.value) in
    let fields = r.primary ++ r.secondary ++ r.value in
    append_assoc ((b ++ p) ++ q) v fields
    ∙ append_assoc (b ++ p) q (v ++ fields)
    ∙ append_assoc b p (q ++ (v ++ fields))

abbrev pub record_len : IntermediateRecord → ℕ
record_len r = length r.primary + length r.secondary + length r.value

record_bytes-rest :
    (r : IntermediateRecord) (rest : Bytes)
    → record_bytes r ++ rest
      ≡ uvarint_bytes max_varint_len (length r.primary)
        ++ (uvarint_bytes max_varint_len (length r.secondary)
            ++ (uvarint_bytes max_varint_len (length r.value)
                ++ (r.primary ++ (r.secondary ++ (r.value ++ rest)))))
unfolding record_bytes
record_bytes-rest r rest = simp (append_assoc) refl

pub decode_fields-append :
    (r : IntermediateRecord) (rest : Bytes)
    → record_len r ≤ max_record_len
    → decode_fields (record_bytes r ++ rest) ≡ some (r, rest)
unfolding decode_fields read_lengths read_fields record_bytes
decode_fields-append r rest h =
    let p = uvarint_bytes max_varint_len (length r.primary) in
    let q = uvarint_bytes max_varint_len (length r.secondary) in
    let v = uvarint_bytes max_varint_len (length r.value) in
    let fields = r.primary ++ (r.secondary ++ (r.value ++ rest)) in
    ground (
      arith,
      record_bytes-rest r rest,
      read_uvarint-append (length r.primary) (q ++ (v ++ fields)) (omega (arith, h)),
      read_uvarint-append (length r.secondary) (v ++ fields) (omega (arith, h)),
      read_uvarint-append (length r.value) fields (omega (arith, h)),
      split_bytes-append r.primary (r.secondary ++ (r.value ++ rest)),
      split_bytes-append r.secondary (r.value ++ rest),
      split_bytes-append r.value rest,
    )

uvarint_bytes-length : (k n : ℕ) → length (uvarint_bytes k n) ≤ k
unfolding uvarint_bytes
uvarint_bytes-length zero n = omega arith
uvarint_bytes-length (suc k) n = ground (arith, uvarint_bytes-length k (n / 128))

uvarint_bytes-some : (k n : ℕ) → 1 ≤ length (uvarint_bytes (suc k) n)
unfolding uvarint_bytes
uvarint_bytes-some k n = ground arith

pub record_bytes-length :
    (r : IntermediateRecord)
    → (3 ≤ length (record_bytes r)) × (length (record_bytes r) ≤ record_len r + 30)
unfolding record_bytes
record_bytes-length r =
    let p = uvarint_bytes max_varint_len (length r.primary) in
    let q = uvarint_bytes max_varint_len (length r.secondary) in
    let v = uvarint_bytes max_varint_len (length r.value) in
    let fields = r.primary ++ r.secondary ++ r.value in
    (
      omega (
        arith,
        length-append p (q ++ (v ++ fields)),
        length-append q (v ++ fields),
        length-append v fields,
        length-append (r.primary ++ r.secondary) r.value,
        length-append r.primary r.secondary,
        uvarint_bytes-some 9 (length r.primary),
        uvarint_bytes-some 9 (length r.secondary),
        uvarint_bytes-some 9 (length r.value),
      ),
      omega (
        arith,
        length-append p (q ++ (v ++ fields)),
        length-append q (v ++ fields),
        length-append v fields,
        length-append (r.primary ++ r.secondary) r.value,
        length-append r.primary r.secondary,
        uvarint_bytes-length max_varint_len (length r.primary),
        uvarint_bytes-length max_varint_len (length r.secondary),
        uvarint_bytes-length max_varint_len (length r.value),
      ),
    )
