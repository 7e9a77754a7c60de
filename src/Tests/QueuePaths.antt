-- ===== src/Tests/QueuePaths.antt =====
-- Queue paths on small inputs.
use entroq.Base.{lookup, insert, string_eq, nat_eq, runs, ◌≡◌, refl, none, List, [], ◌∷◌}
use entroq.Paths.{
  Text, slash, semicolon, star, text_dec, text_eq, split_from, split_unescaped, unescape_from,
  unescape, path_components, path_labels, cut, visit_pairs, visit_component_params, params_loop,
  path_params, fold_component, join, fold_path_param,
}
use entroq.Paths.Components.{path_of, path_components-path_of}
use entroq.Paths.Params.{path_params-fold_path_param}

-- `a/` and `;`
abbrev odd_components : List Text
odd_components = (97 ∷ slash ∷ []) ∷ (semicolon ∷ []) ∷ []

path_components-path_of_example :
    path_components (path_of odd_components)
    ≡ (slash ∷ 97 ∷ slash ∷ []) ∷ (slash ∷ semicolon ∷ []) ∷ []
path_components-path_of_example = path_components-path_of odd_components

-- `/a/k=1;z=2/b`
abbrev path_with_params : Text
path_with_params = 47 ∷ 97 ∷ 47 ∷ 107 ∷ 61 ∷ 49 ∷ 59 ∷ 122 ∷ 61 ∷ 50 ∷ 47 ∷ 98 ∷ []

finds_params :
    path_params path_with_params ≡ (107 ∷ [], (49 ∷ []) ∷ []) ∷ (122 ∷ [], (50 ∷ []) ∷ []) ∷ []
unfolding runs path_params split_unescaped split_from params_loop visit_component_params visit_pairs
    cut unescape unescape_from insert lookup text_dec
finds_params = refl

folds_params : fold_path_param path_with_params (107 ∷ []) ≡ 47 ∷ 97 ∷ 47 ∷ star ∷ 47 ∷ 98 ∷ []
unfolding runs fold_path_param fold_component split_unescaped split_from visit_component_params
    visit_pairs cut unescape unescape_from join text_dec
folds_params = refl

labels_of_path :
    path_labels path_with_params
    ≡ (47 ∷ 97 ∷ [], 47 ∷ 97 ∷ 47 ∷ 107 ∷ 61 ∷ 49 ∷ 59 ∷ 122 ∷ 61 ∷ 50 ∷ [], path_with_params)
unfolding runs path_labels path_components split_unescaped split_from unescape unescape_from
labels_of_path = refl

path_params-fold_path_param_example :
    lookup (107 ∷ []) (path_params (fold_path_param path_with_params (107 ∷ []))) ≡ none
path_params-fold_path_param_example = path_params-fold_path_param (107 ∷ []) path_with_params
