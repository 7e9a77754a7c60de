-- ===== src/Modification/Unique.antt =====
-- What AllDependencies accepts, and the versions that it returns.
use mathlib.Core.Path.{fun_ext}
use entroq.Base.{
  insert, contains, contains-insert, contains-nil, if◌then◌else◌, All, Distinct, everywhere,
  string_eq, nat_eq, ◌==◌, ℕ, String, ◌≡◌, refl, ap, ◌∙◌, ◌≢◌, ◌↔◌, false, List, [], ◌∷◌, ◌++◌, map,
  arith,
}
use entroq.Errors.{Invalid, Result, ◌>>=◌, ok, err}
use entroq.Modification.{
  Modification, set_name_eq, doc_key, Versions, add_dep, minus_one, add_deps, add_named_deps,
  mod_dependencies, all_dependencies,
}

-- The entries of the inserts that name an ID.
unfoldable pub named_entries : List (String × String) → List (String × ℕ)
named_entries [] = []
named_entries ((id, key) ∷ rest) =
    if id == "" then named_entries rest else (key, minus_one) ∷ named_entries rest

-- Every task that the modification names, with the version.
abbrev pub task_entries : Modification → List (String × ℕ)
task_entries m =
    map (λ t. (t.id, t.version)) m.changes
    ++ (map (λ t. (t.id, t.version)) m.deletes
        ++ (map (λ t. (t.id, t.version)) m.arrives
            ++ (map (λ t. (t.id, t.version)) m.depends
                ++ named_entries (map (λ t. (t.id, t.id)) m.inserts))))

-- Every doc that it names, by DocKey.
abbrev pub doc_entries : Modification → List (String × ℕ)
doc_entries m =
    map (λ d. (doc_key d.ns d.id, d.version)) m.doc_changes
    ++ (map (λ d. (doc_key d.ns d.id, d.version)) m.doc_deletes
        ++ (map (λ d. (doc_key d.ns d.id, d.version)) m.doc_depends
            ++ named_entries (map (λ d. (d.id, doc_key d.ns d.id)) m.doc_inserts)))

>>=_assoc :
    {A B C : Type 0} (m : Result A) (f : A → Result B) (g : B → Result C)
    → (m >>= λ x. f x >>= g) ≡ ((m >>= f) >>= g)
>>=_assoc (ok a) f g = refl
>>=_assoc (err e) f g = refl

add_deps-append :
    (why : Invalid) (xs ys : List (String × ℕ)) (d : Versions)
    → add_deps why (xs ++ ys) d ≡ (add_deps why xs d >>= add_deps why ys)
unfolding add_deps
add_deps-append why [] ys d = refl
add_deps-append why ((id, version) ∷ xs) ys d =
    ap (λ f. add_dep why id version d >>= f) (fun_ext (add_deps-append why xs ys))
    ∙ >>=_assoc (add_dep why id version d) (add_deps why xs) (add_deps why ys)

add_named_deps-eq :
    (why : Invalid) (xs : List (String × String)) (d : Versions)
    → add_named_deps why xs d ≡ add_deps why (named_entries xs) d
unfolding add_named_deps add_deps named_entries add_dep
add_named_deps-eq why [] d = refl
add_named_deps-eq why ((id, key) ∷ xs) d =
    ground (arith, add_named_deps-eq why xs d, add_named_deps-eq why xs (insert key minus_one d))

chain₄ :
    (why : Invalid) (a b c g : List (String × ℕ)) (d : Versions)
    → add_deps why (a ++ (b ++ (c ++ g))) d
      ≡ (add_deps why a d >>= λ x. add_deps why b x >>= λ x. add_deps why c x >>= add_deps why g)
chain₄ why a b c g d =
    add_deps-append why a _ d
    ∙ ap (λ f. add_deps why a d >>= f)
        (fun_ext λ x.
          add_deps-append why b _ x
          ∙ ap (λ f. add_deps why b x >>= f) (fun_ext λ y. add_deps-append why c g y))

chain₅ :
    (why : Invalid) (a b c e g : List (String × ℕ)) (d : Versions)
    → add_deps why (a ++ (b ++ (c ++ (e ++ g)))) d ≡ (
        add_deps why a d >>= λ x.
        add_deps why b x >>= λ x. add_deps why c x >>= λ x. add_deps why e x >>= add_deps why g)
chain₅ why a b c e g d =
    add_deps-append why a _ d ∙ ap (λ f. add_deps why a d >>= f) (fun_ext (chain₄ why b c e g))

add_named_deps-eq_fun :
    (why : Invalid) (xs : List (String × String))
    → add_named_deps why xs ≡ add_deps why (named_entries xs)
add_named_deps-eq_fun why xs = fun_ext (add_named_deps-eq why xs)

-- Two chains of calls that run in turns succeed exactly when each succeeds by itself.
interleave :
    (a p : Result Versions) (b c e g q r s : Versions → Result Versions) (t d : Versions)
    → let m : Result (Versions × Versions) = do
      t₁ ← a
      t₂ ← b t₁
      t₃ ← c t₂
      d₁ ← p
      d₂ ← q d₁
      ok (t₃, d₂)
      in let n : Result (Versions × Versions) = do
        (t₃, d₂) ← m
        t₄ ← e t₃
        t₅ ← g t₄
        d₃ ← r d₂
        d₄ ← s d₃
        ok (t₅, d₄)
        in (n ≡ ok (t, d)) ↔ (
          ((a >>= λ x. b x >>= λ x. c x >>= λ x. e x >>= g) ≡ ok t)
          × ((p >>= λ x. q x >>= λ x. r x >>= s) ≡ ok d))
interleave a p b c e g q r s t d = (λ h. ground arith, λ h. ground arith)

-- AllDependencies runs one loop over the tasks and one over the docs.
all_dependencies-loops :
    (m : Modification) (t d : Versions)
    → (all_dependencies m ≡ ok (t, d)) ↔ (
        (add_deps Invalid.task_twice (task_entries m) [] ≡ ok t)
        × (add_deps Invalid.doc_twice (doc_entries m) [] ≡ ok d))
unfolding all_dependencies mod_dependencies
all_dependencies-loops m t d =
    rw
      (
        chain₅ Invalid.task_twice _ _ _ _ _ [],
        chain₄ Invalid.doc_twice _ _ _ _ [],
        ← add_named_deps-eq_fun Invalid.task_twice _,
        ← add_named_deps-eq_fun Invalid.doc_twice _,
      )
      (interleave (add_deps Invalid.task_twice (map (λ t'. (t'.id, t'.version)) m.changes) [])
        (add_deps Invalid.doc_twice (map (λ d'. (doc_key d'.ns d'.id, d'.version)) m.doc_changes)
          [])
        (add_deps Invalid.task_twice (map (λ t'. (t'.id, t'.version)) m.deletes))
        (add_deps Invalid.task_twice (map (λ t'. (t'.id, t'.version)) m.arrives))
        (add_deps Invalid.task_twice (map (λ t'. (t'.id, t'.version)) m.depends))
        (add_named_deps Invalid.task_twice (map (λ t'. (t'.id, t'.id)) m.inserts))
        (add_deps Invalid.doc_twice (map (λ d'. (doc_key d'.ns d'.id, d'.version)) m.doc_deletes))
        (add_deps Invalid.doc_twice (map (λ d'. (doc_key d'.ns d'.id, d'.version)) m.doc_depends))
        (add_named_deps Invalid.doc_twice (map (λ d'. (d'.id, doc_key d'.ns d'.id)) m.doc_inserts))
        t d)

abbrev pub keys : List (String × ℕ) → List String
keys = map (λ e. e.0)

-- Keys that a map does not have, none of them twice.
abbrev pub NewKeys : List String → Versions → Type 0
NewKeys ks d = All (λ k. contains k d ≡ false) ks × Distinct ks

NewKeys-insert :
    (k : String) (v : ℕ) (d : Versions) (ks : List String)
    → All (λ j. contains j (insert k v d) ≡ false) ks
      ↔ (All (λ j. contains j d ≡ false) ks × All (λ j. j ≢ k) ks)
NewKeys-insert k v d [] = (λ h. (tt, tt), λ h. tt)
NewKeys-insert k v d (j ∷ ks) = (
  λ h. ground (arith, contains-insert k j v d, (NewKeys-insert k v d ks).0 h.1),
  λ h. ground (arith, contains-insert k j v d, (NewKeys-insert k v d ks).1 (h.0.1, h.1.1)),
)

-- A loop succeeds exactly on new keys.
add_deps-NewKeys :
    (why : Invalid) (xs : List (String × ℕ)) (d e : Versions)
    → add_deps why xs d ≡ ok e
    → NewKeys (keys xs) d
unfolding add_deps add_dep
add_deps-NewKeys why [] d e h = (tt, tt)
add_deps-NewKeys why ((id, version) ∷ xs) d e h = ground (
  arith,
  add_deps-NewKeys why xs (insert id version d) e,
  (NewKeys-insert id version d (keys xs)).0,
)

new_keys : (ks : List String) → Distinct ks → NewKeys ks []
new_keys ks h = (everywhere (λ k. contains-nil k [] refl) ks, h)

-- The map that a loop over new keys builds.
pub record_all : List (String × ℕ) → Versions → Versions
record_all [] d = d
record_all ((id, version) ∷ xs) d = record_all xs (insert id version d)

add_deps_of-NewKeys :
    (why : Invalid) (xs : List (String × ℕ)) (d : Versions)
    → NewKeys (keys xs) d
    → add_deps why xs d ≡ ok (record_all xs d)
unfolding add_deps add_dep record_all
add_deps_of-NewKeys why [] d h = refl
add_deps_of-NewKeys why ((id, version) ∷ xs) d h = ground (
  arith,
  add_deps_of-NewKeys why xs (insert id version d),
  (NewKeys-insert id version d (keys xs)).1,
)

-- AllDependencies succeeds exactly when no two entries have one task ID and no two have one doc key,
-- and then returns the version of each. An insert without an ID has no entry, and a depend on a doc
-- set has the doc key of the empty ID in its namespace.
pub all_dependencies_iff :
    (m : Modification) (t d : Versions)
    → (all_dependencies m ≡ ok (t, d)) ↔ (
        Distinct (keys (task_entries m))
        × Distinct (keys (doc_entries m))
        × (t ≡ record_all (task_entries m) [])
        × (d ≡ record_all (doc_entries m) []))
all_dependencies_iff m t d = (
  λ h.
      let (ht, hd) = (all_dependencies-loops m t d).0 h in
      let kt = add_deps-NewKeys _ (task_entries m) [] t ht in
      let kd = add_deps-NewKeys _ (doc_entries m) [] d hd in
      (
        kt.1,
        kd.1,
        cc (ht, add_deps_of-NewKeys Invalid.task_twice (task_entries m) [] kt),
        cc (hd, add_deps_of-NewKeys Invalid.doc_twice (doc_entries m) [] kd),
      ),
  λ (dt, dd, et, ed). (all_dependencies-loops m t d).1 (
    rw et (add_deps_of-NewKeys _ _ _ (new_keys (keys (task_entries m)) dt)),
    rw ed (add_deps_of-NewKeys _ _ _ (new_keys (keys (doc_entries m)) dd)),
  ),
)
