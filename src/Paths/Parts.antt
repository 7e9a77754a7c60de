-- ===== src/Paths/Parts.antt =====
-- Parts of a split: what splitUnescaped of pkg/queues/queues.go returns is what its join splits into.
use entroq.Base.{
  Bool-cases, append-nil, append_assoc, string_eq, nat_eq, ◌==◌, ℕ, ◌≡◌, inl, inr, Bool, true,
  false, not, ◌&&◌, List, [], ◌∷◌, ◌++◌, map, arith,
}
use entroq.Paths.{Text, backslash, text_eq, split_from, split_unescaped, join}

module _ (sep : ℕ) where
  -- A scan that starts outside an escape passes over the text and ends `escaped` or not.
  abbrev IsScanned : Text → Bool → Type 0
  IsScanned p escaped =
      (acc s : Text) → split_from sep false acc (p ++ s) ≡ split_from sep escaped (acc ++ p) s

  -- The last part may end in a backslash, the others may not.
  abbrev pub IsLast : Text → Type 0
  IsLast p = (acc : Text) → split_from sep false acc p ≡ (acc ++ p) ∷ []

  abbrev pub IsClosed : Text → Type 0
  IsClosed p =
      (acc s : Text)
      → split_from sep false acc (p ++ sep ∷ s) ≡ (acc ++ p) ∷ split_from sep false [] s

  abbrev pub AreParts : List Text → Type 0
  AreParts [] = ⊥
  AreParts (p ∷ []) = IsLast p
  AreParts (p ∷ q ∷ rest) = IsClosed p × AreParts (q ∷ rest)

  cons-AreParts : (p : Text) (ps : List Text) → IsClosed p → AreParts ps → AreParts (p ∷ ps)
  cons-AreParts p [] h n = absurd n
  cons-AreParts p (q ∷ ps) h n = (h, n)

  separates : ℕ → Bool → Bool
  separates r escaped = r == sep && not escaped

  IsScanned-IsClosed :
      (part : Text) (r : ℕ) (escaped : Bool)
      → IsScanned part escaped
      → separates r escaped ≡ true
      → IsClosed part
  unfolding separates split_from
  IsScanned-IsClosed part r escaped h e = λ acc s. ground (arith, h acc (sep ∷ s))

  append-IsScanned :
      (part : Text) (r : ℕ) (escaped : Bool)
      → IsScanned part escaped
      → separates r escaped ≡ false
      → IsScanned (part ++ r ∷ []) (r == backslash && not escaped)
  unfolding separates split_from
  append-IsScanned part r escaped h e = λ acc s.
      ground (arith, h acc (r ∷ s), append_assoc part (r ∷ []) s, append_assoc acc part (r ∷ []))

  open_when_separates : (r : ℕ) (escaped : Bool) → separates r escaped ≡ true → escaped ≡ false
  unfolding separates
  open_when_separates r escaped e = ground arith

  split-AreParts :
      (s part : Text) (escaped : Bool)
      → IsScanned part escaped
      → AreParts (split_from sep escaped part s)
  unfolding separates split_from
  split-AreParts [] part escaped h = λ acc. ground (arith, h acc [], append-nil part)
  split-AreParts (r ∷ s) part escaped h = elim (Bool-cases (separates r escaped)) [
    | inl e ↦
        rw (e, open_when_separates r escaped e)
          (cons-AreParts part (split_from sep false [] s) (IsScanned-IsClosed part r escaped h e)
            (split-AreParts s [] false (λ acc t. ground (arith, append-nil acc))))
    | inr e ↦ rw e (
        split-AreParts s (part ++ r ∷ []) (r == backslash && not escaped)
          (append-IsScanned part r escaped h e))
  ]

  -- Joined parts are split into the same parts.
  pub split-join : (ps : List Text) → AreParts ps → split_unescaped (join ps sep) sep ≡ ps
  unfolding split_unescaped join
  split-join [] h = absurd h
  split-join (p ∷ []) h = h []
  split-join (p ∷ q ∷ rest) h =
      ground (arith, h.0 [] (join (q ∷ rest) sep), split-join (q ∷ rest) h.1)

  pub split_unescaped-AreParts : (s : Text) → AreParts (split_unescaped s sep)
  unfolding split_unescaped
  split_unescaped-AreParts s = split-AreParts s [] false (λ acc t. ground (arith, append-nil acc))

  -- The parts after the first may be replaced by others that hold no separator.
  pub map-AreParts :
      (f : Text → Text) (p : Text) (ps : List Text)
      → ((q : Text) → IsLast q → IsLast (f q))
      → ((q : Text) → IsClosed q → IsClosed (f q))
      → AreParts (p ∷ ps)
      → AreParts (p ∷ map f ps)
  map-AreParts f p [] last closed h = h
  map-AreParts f p (q ∷ ps) last closed h = (h.0, map-head q ps h.1)
    where
      map-head : (q : Text) (ps : List Text) → AreParts (q ∷ ps) → AreParts (f q ∷ map f ps)
      map-head q [] h = last q h
      map-head q (r ∷ ps) h = (closed q h.0, map-head r ps h.1)
