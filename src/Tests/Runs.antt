-- ===== src/Tests/Runs.antt =====
-- An encoded run of two records, with a checksum that is the length of what it covers.
use entroq.Base.{
  pos, length, string_eq, nat_eq, runs, ◌%◌, ◌≡◌, refl, inl, some, List, [], ◌∷◌, ◌++◌, arith,
}
use entroq.Paths.{text_eq}
use entroq.Codec.Reading.{Reader, new_reader, read_all}
use entroq.Codec.{
  Bytes, IntermediateRecord, run_magic, uvarint_bytes, append_record, block_head, flush, footer,
  encode_loop, encode_run,
}
use entroq.Codec.RoundTrip.{read_all-encode_run}

abbrev length_digest : Bytes → Bytes
length_digest bs = length bs % 256 ∷ 0 ∷ 0 ∷ 0 ∷ 0 ∷ 0 ∷ 0 ∷ 0 ∷ []

length_digest-length : (bs : Bytes) → length (length_digest bs) ≡ 8
length_digest-length bs = omega arith

abbrev two_records : List IntermediateRecord
two_records =
    record { primary = 97 ∷ []; secondary = []; value = 1 ∷ 2 ∷ [] }
    ∷ record { primary = 98 ∷ []; secondary = 99 ∷ []; value = [] }
    ∷ []

encodes_run :
    encode_run length_digest two_records
    ≡ some (
        run_magic
        ++ 1 ∷ 2 ∷ 11 ∷ 1 ∷ 0 ∷ 2 ∷ 97 ∷ 1 ∷ 2 ∷ 1 ∷ 1 ∷ 0 ∷ 98 ∷ 99 ∷ 22 ∷ 0 ∷ 0 ∷ 0 ∷ 0 ∷ 0 ∷ 0
          ∷ 0 ∷ 0 ∷ 2 ∷ 10 ∷ 0 ∷ 0 ∷ 0 ∷ 0 ∷ 0 ∷ 0 ∷ 0 ∷ [])
unfolding runs encode_run encode_loop append_record uvarint_bytes flush footer block_head
encodes_run = refl

read_all-encode_run_example :
    (run : Bytes) × (r : Reader) × (encode_run length_digest two_records ≡ some run)
    × (new_reader length_digest run (pos 2) ≡ some r)
    × (read_all length_digest 3 r ≡ some two_records)
read_all-encode_run_example =
    read_all-encode_run length_digest length_digest-length two_records (pos 2)
      (omega arith, (omega arith, tt)) (omega arith) (inl refl)
