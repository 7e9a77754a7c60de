-- ===== src/Paths/Params.antt =====
-- Parameters of a path: PathParams and FoldPathParam of pkg/queues/queues.go.
use entroq.Base.{
  Dict, lookup, lookup-insert, get_or, Bool-cases, Option-cases, string_eq, nat_eq, ◌==◌, runs, ◌≡◌,
  refl, ap, ◌∙◌, ◌⊎◌, inl, inr, none, List, [], ◌∷◌, ◌++◌, map, arith,
}
use entroq.Paths.{
  Text, slash, semicolon, equals, star, text_eq, split_from, split_unescaped, unescape_from,
  unescape, cut, visit_pairs, visit_component_params, add_param, params_loop, tail_of, path_params,
  fold_param, fold_component, join, fold_path_param,
}
use entroq.Paths.Parts.{
  IsLast, IsClosed, AreParts, split-join, split_unescaped-AreParts, map-AreParts,
}

abbrev star_text : Text
star_text = star ∷ []

star-IsClosed : IsClosed slash star_text
unfolding split_from runs
star-IsClosed acc s = refl

star-IsLast : IsLast slash star_text
unfolding split_from runs
star-IsLast acc = refl

-- Either the component is replaced or none of its pairs has the key.
module _ (key : Text) where
  abbrev LeavesOthers : List Text → Type 0
  LeavesOthers raws =
      (d : Dict Text (List Text)) → lookup key (visit_pairs add_param raws d) ≡ lookup key d

  visit-fold_param :
      (raws : List Text) (c : Text)
      → (visit_pairs (fold_param key) raws c ≡ star_text)
        ⊎ ((visit_pairs (fold_param key) raws c ≡ c) × LeavesOthers raws)
  unfolding visit_pairs
  visit-fold_param [] c = inr (refl, λ d. refl)
  visit-fold_param (raw ∷ raws) c = elim (Option-cases (cut (unescape raw) equals)) [
    | inl e ↦ elim (visit-fold_param raws c) [
      | inl same ↦ inl (rw (e, visit_pairs) same)
      | inr (same, leaves) ↦ inr (rw (e, visit_pairs) same, λ d. rw (e, visit_pairs) (leaves d))
    ]
    | inr ((k, v), e) ↦ elim (Bool-cases (k == key)) [
      | inl t ↦ inl (ground (arith, e, t))
      | inr f ↦ elim (visit-fold_param raws c) [
        | inl same ↦ inl (ground (arith, e, f, same))
        | inr (same, leaves) ↦ inr (
          ground (arith, e, f, same),
          λ d.
              rw (e, visit_pairs)
                (leaves (add_param k v d).1
                  ∙ ground (arith, lookup-insert k key (get_or k [] d ++ v ∷ []) d)),
        )
      ]
    ]
  ]

  fold_component-cases :
      (c : Text)
      → (fold_component key c ≡ star_text)
        ⊎ ((fold_component key c ≡ c) × LeavesOthers (split_unescaped c semicolon))
  unfolding fold_component visit_component_params
  fold_component-cases c = visit-fold_param (split_unescaped c semicolon) c

  fold_component-IsLast : (c : Text) → IsLast slash c → IsLast slash (fold_component key c)
  fold_component-IsLast c h = elim (fold_component-cases c) [
    | inl e ↦ rw e star-IsLast
    | inr (e, leaves) ↦ rw e h
  ]

  fold_component-IsClosed : (c : Text) → IsClosed slash c → IsClosed slash (fold_component key c)
  fold_component-IsClosed c h = elim (fold_component-cases c) [
    | inl e ↦ rw e star-IsClosed
    | inr (e, leaves) ↦ rw e h
  ]

  star-LeavesOthers : LeavesOthers (split_unescaped star_text semicolon)
  unfolding visit_pairs split_unescaped split_from unescape unescape_from cut runs
  star-LeavesOthers d = refl

  fold_component-LeavesOthers :
      (c : Text) → LeavesOthers (split_unescaped (fold_component key c) semicolon)
  fold_component-LeavesOthers c d = elim (fold_component-cases c) [
    | inl e ↦ rw e (star-LeavesOthers d)
    | inr (e, leaves) ↦ rw e (leaves d)
  ]

  params_loop-folded :
      (cs : List Text) (d : Dict Text (List Text))
      → lookup key (params_loop (map (fold_component key) cs) d) ≡ lookup key d
  unfolding params_loop visit_component_params
  params_loop-folded [] d = refl
  params_loop-folded (c ∷ cs) d =
      params_loop-folded cs (visit_component_params (fold_component key c) add_param d)
      ∙ fold_component-LeavesOthers c d

  -- A folded path splits into the components of the original, each folded.
  split-fold_path_param :
      (path : Text)
      → (tail_of (split_unescaped (fold_path_param path key) slash))
        ≡ map (fold_component key) (tail_of (split_unescaped path slash))
  unfolding fold_path_param
  split-fold_path_param path =
      folded (split_unescaped path slash) (split_unescaped-AreParts slash path)
    where
      folded :
          (ps : List Text)
          → AreParts slash ps
          → tail_of (
              split_unescaped
                (elim ps [
                  | [] ↦ join [] slash
                  | first ∷ rest ↦ join (first ∷ map (fold_component key) rest) slash
                ])
                slash)
            ≡ map (fold_component key) (tail_of ps)
      folded [] h = absurd h
      folded (p ∷ ps) h = ap tail_of (
          split-join slash (p ∷ map (fold_component key) ps) (
            map-AreParts slash (fold_component key) p ps fold_component-IsLast
              fold_component-IsClosed h))

  -- A folded path has no parameter of the folded key.
  pub path_params-fold_path_param :
      (path : Text) → lookup key (path_params (fold_path_param path key)) ≡ none
  unfolding path_params lookup
  path_params-fold_path_param path =
      rw (split-fold_path_param path) (params_loop-folded (tail_of (split_unescaped path slash)) [])
