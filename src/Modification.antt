-- ===== src/Modification.antt =====
-- The Modification of entroq.go: its parts, the checks of the keys it names, and the dependency
-- maps. A Go map that is only written and tested is a Dict; `resetClaims` is the list of its keys.
pub mod Keys
pub mod Unique
use entroq.Base.{
  ℕ, String, List, [], ◌∷◌, ◌++◌, Bool, true, false, not, ◌&&◌, ◌==◌, Dict, lookup, insert, Option,
  contains, none, some, map, if◌then◌else◌, is_empty, any, string_eq, Eq, pair_discrete, ◌<>◌,
  text_discrete,
}
use entroq.Task.{TaskId, TaskData, Task, TaskArrival}
use entroq.Doc.{DocId, DocData, Doc, DocArrival, is_set_ref}
use entroq.Errors.{Result, ok, err, invalid, Invalid, ◌>>=◌, ◌>>◌, refuse_if, for_each}

pub record Modification : Type 0 where
  pub reset_claims : List String
  pub claimant : String
  pub inserts : List TaskData
  pub changes : List Task
  pub deletes : List TaskId
  pub depends : List TaskId
  pub arrives : List TaskArrival
  pub doc_inserts : List DocData
  pub doc_changes : List Doc
  pub doc_deletes : List DocId
  pub doc_depends : List DocId
  pub doc_arrives : List DocArrival

-- `&Modification{Claimant: claimant}`
abbrev pub empty_modification : String → Modification
empty_modification claimant = record {
  reset_claims = [];
  claimant = claimant;
  inserts = [];
  changes = [];
  deletes = [];
  depends = [];
  arrives = [];
  doc_inserts = [];
  doc_changes = [];
  doc_deletes = [];
  doc_depends = [];
  doc_arrives = [];
}

-- ModifyArg
abbrev pub ModifyArg : Type 0
ModifyArg = Modification → Modification

-- NewModification
unfoldable pub new_modification : String → List ModifyArg → Modification
new_modification claimant args = apply_args args (empty_modification claimant)
  where
    apply_args : List ModifyArg → Modification → Modification
    apply_args [] m = m
    apply_args (arg ∷ rest) m = apply_args rest (arg m)

-- ModifyAs
abbrev pub modify_as : String → ModifyArg
modify_as id m = record m { claimant = id }

-- ResetClaims
unfoldable pub reset_claims_of : String → Modification → Modification
reset_claims_of id m = record m { reset_claims = id ∷ m.reset_claims }

-- ResetsClaims
unfoldable pub resets_claims : Modification → String → Bool
resets_claims m id = any (λ r. r == id) m.reset_claims

-- WithModification
unfoldable pub with_modification : Modification → ModifyArg
with_modification src dest = record dest {
  inserts = dest.inserts ++ src.inserts;
  changes = dest.changes ++ src.changes;
  deletes = dest.deletes ++ src.deletes;
  depends = dest.depends ++ src.depends;
  arrives = dest.arrives ++ src.arrives;
  doc_inserts = dest.doc_inserts ++ src.doc_inserts;
  doc_changes = dest.doc_changes ++ src.doc_changes;
  doc_deletes = dest.doc_deletes ++ src.doc_deletes;
  doc_depends = dest.doc_depends ++ src.doc_depends;
  doc_arrives = dest.doc_arrives ++ src.doc_arrives;
  reset_claims = src.reset_claims ++ dest.reset_claims;
}

-- IsEmpty: every length is 0 exactly when their sum is.
unfoldable pub names_nothing : Modification → Bool
names_nothing m =
    is_empty m.inserts
    && is_empty m.changes
    && is_empty m.deletes
    && is_empty m.depends
    && is_empty m.arrives
    && is_empty m.doc_inserts
    && is_empty m.doc_changes
    && is_empty m.doc_deletes
    && is_empty m.doc_depends
    && is_empty m.doc_arrives

-- A doc set in a map: its namespace and key.
abbrev pub SetName : Type 0
SetName = String × String

instance abbrev pub set_name_eq : Eq SetName
set_name_eq = record { dec = pair_discrete text_discrete text_discrete }

-- The last loop of EnsureModifyKeys, with the sets seen so far.
unfoldable pub check_doc_arrives : Dict SetName Bool → List DocArrival → Result (Unit {0})
check_doc_arrives seen [] = ok tt
check_doc_arrives seen (a ∷ rest) = do
  refuse_if (not (is_set_ref a.doc_id)) Invalid.arrival_of_doc
  refuse_if (a.ns == "") Invalid.arrival_without_namespace
  refuse_if (contains (a.ns, a.key) seen) Invalid.arrives_twice
  check_doc_arrives (insert (a.ns, a.key) true seen) rest

-- EnsureModifyKeys
unfoldable pub ensure_modify_keys : Modification → Result (Unit {0})
ensure_modify_keys m = do
  refuse_if (names_nothing m) Invalid.nothing_to_do
  for_each (λ ins. refuse_if (ins.queue == "") Invalid.insert_without_queue) m.inserts
  for_each (λ c. refuse_if (c.queue == "") Invalid.change_without_queue) m.changes
  for_each (λ a. refuse_if (a.queue == "") Invalid.arrival_without_queue) m.arrives
  for_each (λ ins. refuse_if (ins.ns == "") Invalid.doc_insert_without_namespace) m.doc_inserts
  check_doc_arrives [] m.doc_arrives

-- DocKey
unfoldable pub doc_key : String → String → String
doc_key ns id = ns <> "\0" <> id

abbrev pub Versions : Type 0
Versions = Dict String ℕ

-- addTaskDep and addDocDep
unfoldable pub add_dep : Invalid → String → ℕ → Versions → Result Versions
add_dep why id version deps =
    if contains id deps then err (invalid why) else ok (insert id version deps)

-- The version -1 that inserts are recorded at, as the bit pattern of an `int32`.
abbrev pub minus_one : ℕ
minus_one = 4_294_967_295

-- A loop that calls addTaskDep or addDocDep on each entry.
unfoldable pub add_deps : Invalid → List (String × ℕ) → Versions → Result Versions
add_deps why [] deps = ok deps
add_deps why ((id, version) ∷ rest) deps = add_dep why id version deps >>= add_deps why rest

-- The same, with `if id == "" { continue }`.
unfoldable pub add_named_deps : Invalid → List (String × String) → Versions → Result Versions
add_named_deps why [] deps = ok deps
add_named_deps why ((id, key) ∷ rest) deps =
    let added = add_dep why key minus_one deps >>= add_named_deps why rest in
    let skipped = add_named_deps why rest deps in if id == "" then skipped else added

-- modDependencies
unfoldable pub mod_dependencies : Modification → Result (Versions × Versions)
mod_dependencies m = do
  t₁ ← add_deps Invalid.task_twice (map (λ t. (t.id, t.version)) m.changes) []
  t₂ ← add_deps Invalid.task_twice (map (λ t. (t.id, t.version)) m.deletes) t₁
  t₃ ← add_deps Invalid.task_twice (map (λ t. (t.id, t.version)) m.arrives) t₂
  d₁ ← add_deps Invalid.doc_twice (map (λ d. (doc_key d.ns d.id, d.version)) m.doc_changes) []
  d₂ ← add_deps Invalid.doc_twice (map (λ d. (doc_key d.ns d.id, d.version)) m.doc_deletes) d₁
  ok (t₃, d₂)

-- AllDependencies
unfoldable pub all_dependencies : Modification → Result (Versions × Versions)
all_dependencies m = do
  (t₃, d₂) ← mod_dependencies m
  t₄ ← add_deps Invalid.task_twice (map (λ t. (t.id, t.version)) m.depends) t₃
  t₅ ← add_named_deps Invalid.task_twice (map (λ t. (t.id, t.id)) m.inserts) t₄
  d₃ ← add_deps Invalid.doc_twice (map (λ d. (doc_key d.ns d.id, d.version)) m.doc_depends) d₂
  d₄ ← add_named_deps Invalid.doc_twice (map (λ d. (d.id, doc_key d.ns d.id)) m.doc_inserts) d₃
  ok (t₅, d₄)
