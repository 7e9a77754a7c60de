-- ===== src/Paths/Components.antt =====
-- Components of a path: PathComponents and PathLabels of pkg/queues/queues.go.
use entroq.Base.{string_eq, nat_eq, runs, ◌≡◌, refl, true, false, List, [], ◌∷◌, ◌++◌, map, arith}
use entroq.Paths.{
  Text, slash, text_eq, is_structural, escape_component, split_from, split_unescaped, unescape,
  path_components,
}
use entroq.Paths.Escapes.{unescape-escape, split-escape}

-- The path of a list of components, each escaped and behind a slash.
unfoldable pub path_of : List Text → Text
path_of [] = []
path_of (c ∷ cs) = slash ∷ escape_component c ++ path_of cs

slash-is_structural : is_structural slash ≡ true
unfolding runs
slash-is_structural = refl

split-path_of :
    (part : Text) (cs : List Text)
    → split_from slash false part (path_of cs) ≡ part ∷ map escape_component cs
unfolding path_of split_from
split-path_of part [] = refl
split-path_of part (c ∷ cs) = ground (
  arith,
  split-path_of (escape_component c) cs,
  split-escape slash [] c (path_of cs) slash-is_structural (λ e. omega (arith, e)),
)

unescape-all :
    (cs : List Text)
    → map (λ p. slash ∷ unescape p) (map escape_component cs) ≡ map (λ c. slash ∷ c) cs
unescape-all [] = refl
unescape-all (c ∷ cs) = ground (arith, unescape-escape c, unescape-all cs)

-- A path that is put together from escaped components is taken apart into the same components, each
-- with its slash, whatever characters they hold: slashes, semicolons and backslashes included.
pub path_components-path_of :
    (cs : List Text) → path_components (path_of cs) ≡ map (λ c. slash ∷ c) cs
unfolding path_components split_unescaped path_of
path_components-path_of [] = refl
path_components-path_of (c ∷ cs) = ground (arith, split-path_of [] (c ∷ cs), unescape-all (c ∷ cs))
