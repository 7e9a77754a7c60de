-- ===== src/Paths/Escapes.antt =====
-- Escapes of pkg/queues/queues.go: what the two loops do with an escaped component.
use entroq.Base.{
  append-nil, append_assoc, string_eq, nat_eq, ℕ, ◌≡◌, refl, ◌≢◌, true, false, [], ◌∷◌, ◌++◌, arith,
}
use entroq.Paths.{
  Text, backslash, text_eq, is_structural, escape_component, split_from, unescape_from, unescape,
}

pub unescape-escape_rest :
    (c s : Text) → unescape_from false (escape_component c ++ s) ≡ c ++ unescape_from false s
unfolding unescape_from escape_component
unescape-escape_rest [] s = refl
unescape-escape_rest (x ∷ c) s = ground (arith, unescape-escape_rest c s)

pub unescape-escape : (c : Text) → unescape (escape_component c) ≡ c
unfolding unescape unescape_from
unescape-escape c =
    ground (arith, unescape-escape_rest c [], append-nil c, append-nil (escape_component c))

-- An escaped component holds no separator that the split sees.
pub split-escape :
    (sep : ℕ) (part c s : Text)
    → is_structural sep ≡ true
    → sep ≢ backslash
    → split_from sep false part (escape_component c ++ s)
      ≡ split_from sep false (part ++ escape_component c) s
unfolding split_from escape_component
split-escape sep part [] s h n = ground (arith, append-nil part)
split-escape sep part (x ∷ c) s h n = ground (
  arith,
  split-escape sep (part ++ x ∷ []) c s h n,
  split-escape sep ((part ++ backslash ∷ []) ++ x ∷ []) c s h n,
  append_assoc part (x ∷ []) (escape_component c),
  append_assoc (part ++ backslash ∷ []) (x ∷ []) (escape_component c),
  append_assoc part (backslash ∷ []) (x ∷ escape_component c),
)
