-- ===== src/Paths.antt =====
-- pkg/queues: the components of a queue's path, their escapes, the parameters that they carry, and
-- the activation of garbage collection. A text here is the list of its code points, as `range`
-- reads a string in valid UTF-8.
pub mod Escapes
pub mod Parts
pub mod Components
pub mod Params
use entroq.Base.{
  ℤ, pos_part, neg_part, sub_ℕ, ◌+ℤ◌, ◌≤ℤ◌, ltb_ℤ, +ℤ_parts, eq_of_parts, int_laws, +ℤ_assoc,
  +ℤ-zero, zero-+ℤ, pos, negsuc, Time, Duration, add, after, before, is_zero, is_positive,
  is_zero_duration, int32_mod, inc32, IsInt32, is_positive32, inc32_moves, inc32-IsInt32, le32,
  Dict, lookup, insert, erase, contains, lookup-insert, lookup-erase, contains-insert, contains-nil,
  get_or, get_or-insert, map_values, lookup-map_values, AreNew, AreNew-cons, AreNew-nil, ltb, leb,
  if◌then◌else◌, ltb→lt, lt→ltb, le→not-ltb, Bool-cases, Option-cases, is_some, length, All,
  is_empty, any, keep, length-append, All-append, is_empty-keep, Distinct, everywhere, append-nil,
  append_assoc, is_empty_iff, All-iff, text_discrete, Eq, string_eq, nat_eq, ◌==◌, pair_discrete,
  runs, ℕ, zero, suc, ◌+◌, ◌-◌, ◌*◌, ◌/◌, ◌%◌, ◌^◌, ◌≤◌, ◌<◌, String, ◌<>◌, len, ◌≡◌, refl, sym, ap,
  ◌∙◌, ◌≢◌, ◌↔◌, ◌⊎◌, inl, inr, Bool, true, false, not, ◌&&◌, ◌||◌, Option, none, some, List, [],
  ◌∷◌, ◌++◌, map, arith,
}

abbrev pub Text : Type 0
Text = List ℕ

-- '/', ';', '\\', '=' and '*'
abbrev pub slash : ℕ
slash = 47

abbrev pub semicolon : ℕ
semicolon = 59

abbrev pub backslash : ℕ
backslash = 92

abbrev pub equals : ℕ
equals = 61

abbrev pub star : ℕ
star = 42

-- The equality of two strings
unfoldable pub text_dec : Discrete Text
text_dec [] [] = yes refl
text_dec [] (d ∷ t) = no (λ e. cc)
text_dec (c ∷ s) [] = no (λ e. cc)
text_dec (c ∷ s) (d ∷ t) = elim (nat_eq.dec c d) [
  | yes x ↦ elim (text_dec s t) [ yes y ↦ yes (λ i. x i ∷ y i) | no y ↦ no (λ e. y cc) ]
  | no x ↦ no (λ e. x cc)
]

instance abbrev pub text_eq : Eq Text
text_eq = record { dec = text_dec }

-- The characters that EscapeComponent replaces
abbrev pub is_structural : ℕ → Bool
is_structural c = c == slash || c == semicolon || c == backslash

-- EscapeComponent
unfoldable pub escape_component : Text → Text
escape_component [] = []
escape_component (c ∷ cs) =
    let rest = escape_component cs in if is_structural c then backslash ∷ c ∷ rest else c ∷ rest

-- The loop of splitUnescaped, with the part that is being built
unfoldable pub split_from : ℕ → Bool → Text → Text → List Text
split_from sep escaped part [] = part ∷ []
split_from sep escaped part (r ∷ s) =
    let split = part ∷ split_from sep escaped [] s in
    let longer = split_from sep (r == backslash && not escaped) (part ++ r ∷ []) s in
    if r == sep && not escaped then split else longer

-- splitUnescaped
unfoldable pub split_unescaped : Text → ℕ → List Text
split_unescaped s sep = split_from sep false [] s

-- The loop of unescape
unfoldable pub unescape_from : Bool → Text → Text
unescape_from escaped [] = []
unescape_from true (r ∷ s) = r ∷ unescape_from false s
unescape_from false (r ∷ s) =
    let skipped = unescape_from true s in
    let kept = r ∷ unescape_from false s in if r == backslash then skipped else kept

-- unescape
unfoldable pub unescape : Text → Text
unescape s = unescape_from false s

-- PathComponents
unfoldable pub path_components : Text → List Text
path_components [] = []
path_components (r ∷ s) = elim (split_unescaped (r ∷ s) slash) [
  | [] ↦ []
  | part ∷ parts ↦
      let rest = map (λ p. slash ∷ unescape p) parts in
      if is_empty part then rest else unescape part ∷ rest
]

-- PathLabels
unfoldable pub path_labels : Text → Text × Text × Text
path_labels qname = elim (path_components qname) [
  | [] ↦ ([], [], [])
  | c₀ ∷ [] ↦ (c₀, [], [])
  | c₀ ∷ c₁ ∷ [] ↦ (c₀, c₀ ++ c₁, [])
  | c₀ ∷ c₁ ∷ c₂ ∷ _ ↦ (c₀, c₀ ++ c₁, (c₀ ++ c₁) ++ c₂)
]

-- `strings.Cut(s, sep)` for a separator of one character
unfoldable pub cut : Text → ℕ → Option (Text × Text)
cut [] sep = none
cut (c ∷ s) sep =
    let later = cut s sep in
    if c == sep
    then some ([], s)
    else elim later [ none ↦ none | some (before_it, after_it) ↦ some (c ∷ before_it, after_it) ]

-- The loop of visitComponentParams; `visit` is a callback over a state of its caller's, and says
-- whether to go on.
unfoldable pub visit_pairs {ℓ} : {S : Type ℓ} → (Text → Text → S → Bool × S) → List Text → S → S
visit_pairs visit [] s = s
visit_pairs visit (raw ∷ rest) s = elim (cut (unescape raw) equals) [
  | none ↦ visit_pairs visit rest s
  | some (key, val) ↦
      let (goes_on, s') = visit key val s in
      elim goes_on [ true ↦ visit_pairs visit rest s' | false ↦ s' ]
]

-- visitComponentParams
unfoldable pub visit_component_params {ℓ} :
    {S : Type ℓ} → Text → (Text → Text → S → Bool × S) → S → S
visit_component_params component visit s = visit_pairs visit (split_unescaped component semicolon) s

-- The callback of PathParams
abbrev pub add_param : Text → Text → Dict Text (List Text) → Bool × Dict Text (List Text)
add_param key val params = (true, insert key (get_or key [] params ++ val ∷ []) params)

-- The loop of PathParams
unfoldable pub params_loop : List Text → Dict Text (List Text) → Dict Text (List Text)
params_loop [] params = params
params_loop (component ∷ rest) params =
    params_loop rest (visit_component_params component add_param params)

-- `components[1:]`
abbrev pub tail_of : List Text → List Text
tail_of [] = []
tail_of (x ∷ xs) = xs

-- PathParams; a nil map is the empty one.
unfoldable pub path_params : Text → Dict Text (List Text)
path_params qname = params_loop (tail_of (split_unescaped qname slash)) []

-- The callback of FoldPathParam, which sets the component
abbrev pub fold_param : Text → Text → Text → Text → Bool × Text
fold_param key param_key _ component =
    if not (param_key == key) then (true, component) else (false, star ∷ [])

-- The body of the loop of FoldPathParam
unfoldable pub fold_component : Text → Text → Text
fold_component key component = visit_component_params component (fold_param key) component

-- `strings.Join(parts, sep)` for a separator of one character
unfoldable pub join : List Text → ℕ → Text
join [] sep = []
join (p ∷ []) sep = p
join (p ∷ q ∷ rest) sep = p ++ sep ∷ join (q ∷ rest) sep

-- FoldPathParam
unfoldable pub fold_path_param : Text → Text → Text
fold_path_param path key = elim (split_unescaped path slash) [
  | [] ↦ join [] slash
  | first ∷ rest ↦ join (first ∷ map (fold_component key) rest) slash
]

-- "/ns="
abbrev pub ns_prefix : Text
ns_prefix = 47 ∷ 110 ∷ 115 ∷ 61 ∷ []

-- `strings.HasPrefix(s, prefix)`
unfoldable pub has_prefix : Text → Text → Bool
has_prefix s [] = true
has_prefix [] (p ∷ ps) = false
has_prefix (c ∷ s) (p ∷ ps) = c == p && has_prefix s ps

-- Namespace: `none` where its second result is false. `ns[0]` of an empty slice would panic; no
-- slice of the map is empty.
unfoldable pub namespace_of : Text → Option Text
namespace_of qname =
    if is_empty qname
    then none
    else if not (has_prefix qname ns_prefix)
    then none
    else elim (lookup (110 ∷ 115 ∷ []) (path_params qname)) [
      | none ↦ none
      | some [] ↦ none
      | some (ns ∷ _) ↦ some ns
    ]

-- isAllDigits
unfoldable pub is_all_digits : Text → Bool
is_all_digits [] = false
is_all_digits (c ∷ s) = not (any (λ d. ltb d 48 || ltb 57 d) (c ∷ s))
