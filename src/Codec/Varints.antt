-- ===== src/Codec/Varints.antt =====
-- Varints of pkg/eqmr/intermediate_codec.go: what is appended is read back.
use mathlib.Core.Path.{subst}
use entroq.Base.{
  ltb, Bool-cases, string_eq, nat_eq, ℕ, zero, suc, ◌+◌, ◌*◌, ◌/◌, ◌%◌, ◌≤◌, ◌<◌, ◌≡◌, refl, sym,
  inl, inr, false, some, ◌∷◌, ◌++◌, arith,
}
use entroq.Codec.{Bytes, max_varint_len, uvarint_bytes, uvarint_from}

-- A number that `k` bytes can carry: the tenth carries one bit.
unfoldable pub Fits : ℕ → ℕ → Type 0
Fits zero n = ⊥
Fits (suc zero) n = n < 2
Fits (suc (suc k)) n = Fits (suc k) (n / 128)

pub small-Fits : (n : ℕ) → n < 18_446_744_073_709_551_616 → Fits max_varint_len n
unfolding Fits
small-Fits n h = omega arith

place_lem : (n q r place : ℕ) → n ≡ 128 * q + r → r * place + q * (128 * place) ≡ n * place
place_lem n q r place h = rw h (omega arith)

many_bytes :
    (k n : ℕ)
    → ltb n 128 ≡ false
    → uvarint_bytes (suc (suc k)) n ≡ (128 + n % 128) ∷ uvarint_bytes (suc k) (n / 128)
unfolding uvarint_bytes
many_bytes k n e = rw e refl

next_byte :
    (k place acc b m : ℕ) (bs raw rest : Bytes)
    → 128 ≤ b
    → uvarint_from k (128 * place) (acc + b % 128 * place) raw ≡ some (m, bs, rest)
    → uvarint_from (suc k) place acc (b ∷ raw) ≡ some (m, b ∷ bs, rest)
unfolding uvarint_from
next_byte k place acc b m bs raw rest le h = ground (arith, le, h)

more_bytes :
    (k n place acc : ℕ) (rest : Bytes)
    → uvarint_from
        (suc k)
        (128 * place)
        (acc + n % 128 * place)
        (uvarint_bytes (suc k) (n / 128) ++ rest)
      ≡ some
          (acc + n % 128 * place + n / 128 * (128 * place), uvarint_bytes (suc k) (n / 128), rest)
    → uvarint_from
        (suc (suc k))
        place
        acc
        (((128 + n % 128) ∷ uvarint_bytes (suc k) (n / 128)) ++ rest)
      ≡ some (acc + n * place, (128 + n % 128) ∷ uvarint_bytes (suc k) (n / 128), rest)
more_bytes k n place acc rest h =
    let low : (128 + n % 128) % 128 ≡ n % 128 = omega arith in
    let sum : acc + n % 128 * place + n / 128 * (128 * place) ≡ acc + n * place =
      omega (arith, place_lem n (n / 128) (n % 128) place (omega arith)) in
    next_byte (suc k) place acc (128 + n % 128) (acc + n * place) (uvarint_bytes (suc k) (n / 128))
      (uvarint_bytes (suc k) (n / 128) ++ rest) rest (omega arith) (rw (low, sym sum) h)

pub uvarint_from-bytes :
    (k n place acc : ℕ) (rest : Bytes)
    → Fits k n
    → uvarint_from k place acc (uvarint_bytes k n ++ rest)
      ≡ some (acc + n * place, uvarint_bytes k n, rest)
unfolding Fits uvarint_from uvarint_bytes
uvarint_from-bytes zero n place acc rest h = absurd h
uvarint_from-bytes (suc zero) n place acc rest h = ground (arith, h)
uvarint_from-bytes (suc (suc k)) n place acc rest h = elim (Bool-cases (ltb n 128)) [
  | inl e ↦ ground (arith, e)
  | inr e ↦
      subst
        (λ bs. uvarint_from (suc (suc k)) place acc (bs ++ rest) ≡ some (acc + n * place, bs, rest))
        (sym (many_bytes k n e))
        (more_bytes k n place acc rest
          (uvarint_from-bytes (suc k) (n / 128) (128 * place) (acc + n % 128 * place) rest h))
]
