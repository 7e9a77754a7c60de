-- ===== src/Validate.antt =====
-- The checks of a request before a backend touches its storage:
-- pkg/backend/internal/validate/validate.go, and the Validate methods and NormalizeArrival of
-- entroq.go and doc.go. `len` counts bytes, as Go's does.
pub mod Claims
pub mod Accepts
use entroq.Base.{
  ℤ, pos_part, neg_part, sub_ℕ, ◌+ℤ◌, ◌≤ℤ◌, ltb_ℤ, +ℤ_parts, eq_of_parts, int_laws, +ℤ_assoc,
  +ℤ-zero, zero-+ℤ, pos, negsuc, Time, Duration, add, after, before, is_zero, is_positive,
  is_zero_duration, int32_mod, inc32, IsInt32, is_positive32, inc32_moves, inc32-IsInt32, le32,
  Dict, lookup, insert, erase, contains, lookup-insert, lookup-erase, contains-insert, contains-nil,
  get_or, get_or-insert, map_values, lookup-map_values, ltb, leb, if◌then◌else◌, ltb→lt, lt→ltb,
  le→not-ltb, Bool-cases, Option-cases, is_some, length, All, is_empty, any, keep, length-append,
  All-append, is_empty-keep, Distinct, everywhere, append-nil, append_assoc, text_discrete, Eq,
  string_eq, nat_eq, ◌==◌, pair_discrete, runs, ℕ, zero, suc, ◌+◌, ◌-◌, ◌*◌, ◌/◌, ◌%◌, ◌^◌, ◌≤◌,
  ◌<◌, String, ◌<>◌, len, ◌≡◌, refl, sym, ap, ◌∙◌, ◌≢◌, ◌↔◌, ◌⊎◌, inl, inr, Bool, true, false, not,
  ◌&&◌, ◌||◌, Option, none, some, List, [], ◌∷◌, ◌++◌, map, arith,
}
use entroq.Task.{
  TaskId, new_task_id, TaskData, Task, new_task, id_version, data_of, TaskArrival, arrival_change,
}
use entroq.Doc.{
  DocId, new_doc_id, new_doc_set_ref, is_set_ref, DocData, Doc, DocArrival, DocSet, DocSetClaim,
  DocClaim,
}
use entroq.Errors.{
  Message, DependencyError, no_failures, Invalid, Failure, Result, ◌>>=◌, ◌>>◌, refuse_if, for_each,
  no_message, queue_mismatch, set_held, missing_task, lapsed_task, nothing_to_do,
  insert_without_queue, change_without_queue, arrival_without_queue, doc_insert_without_namespace,
  arrival_of_doc, arrival_without_namespace, arrives_twice, task_twice, doc_twice, two_references,
  set_delete, place_taken_twice, too_long, no_queues, no_claimant, no_duration, duration_too_long,
  no_sets, no_namespace, no_key, duplicate_set, two_leases, no_lease, negative_duration,
  lease_and_task, task_without_place, hold_in_past, invalid, dependency, missing_id, err, ok,
}
use entroq.Modification.{
  Modification, empty_modification, ModifyArg, new_modification, modify_as, reset_claims_of,
  resets_claims, with_modification, names_nothing, SetName, set_name_eq, check_doc_arrives,
  ensure_modify_keys, doc_key, Versions, add_dep, minus_one, add_deps, add_named_deps,
  mod_dependencies, all_dependencies,
}

-- 30 days and 365 days, in nanoseconds
abbrev pub max_claim_duration : ℕ
max_claim_duration = 2_592_000_000_000_000

abbrev pub arrival_past_window : ℕ
arrival_past_window = 31_536_000_000_000_000

-- MaxIDBytes, MaxClaimantBytes, MaxNamespaceBytes, MaxDocKeyBytes
abbrev pub max_id_bytes : ℕ
max_id_bytes = 64

abbrev pub max_claimant_bytes : ℕ
max_claimant_bytes = 512

abbrev pub max_namespace_bytes : ℕ
max_namespace_bytes = 1024

abbrev pub max_doc_key_bytes : ℕ
max_doc_key_bytes = 256

-- `d > limit`
abbrev pub exceeds : Duration → ℕ → Bool
exceeds (pos n) limit = ltb limit n
exceeds (negsuc n) limit = false

-- `d < 0`
abbrev pub is_negative : Duration → Bool
is_negative (pos n) = false
is_negative (negsuc n) = true

pub record ClaimQuery : Type 0 where
  pub queues : List String
  pub claimant : String
  pub duration : Duration
  pub poll_time : Duration

-- ClaimQuery.Validate
unfoldable pub validate_claim : ClaimQuery → Result (Unit {0})
validate_claim q = do
  refuse_if (is_empty q.queues) Invalid.no_queues
  refuse_if (q.claimant == "") Invalid.no_claimant
  refuse_if (not (is_positive q.duration)) Invalid.no_duration
  refuse_if (exceeds q.duration max_claim_duration) Invalid.duration_too_long

-- The loop of DocClaim.Validate, with the sets seen so far
unfoldable pub check_claim_sets : Dict SetName Bool → List DocSetClaim → Result (Unit {0})
check_claim_sets seen [] = ok tt
check_claim_sets seen (s ∷ rest) = do
  refuse_if (s.ns == "") Invalid.no_namespace
  refuse_if (s.key == "") Invalid.no_key
  refuse_if (contains (s.ns, s.key) seen) Invalid.duplicate_set
  check_claim_sets (insert (s.ns, s.key) true seen) rest

-- `q.TaskToMatch != nil && (q.TaskToMatch.ID == "" || q.TaskToMatch.Queue == "")`
abbrev pub matches_no_place : Option TaskId → Bool
matches_no_place none = false
matches_no_place (some t) = t.id == "" || t.queue == ""

-- DocClaim.Validate
unfoldable pub validate_doc_claim : DocClaim → Result (Unit {0})
validate_doc_claim q = do
  refuse_if (is_empty q.sets) Invalid.no_sets
  check_claim_sets [] q.sets
  refuse_if (q.claimant == "") Invalid.no_claimant
  refuse_if (ltb 1 q.leases) Invalid.two_leases
  refuse_if (is_negative q.duration) Invalid.negative_duration
  refuse_if (exceeds q.duration max_claim_duration) Invalid.duration_too_long
  refuse_if (is_positive q.duration && is_some q.task_to_match) Invalid.lease_and_task
  refuse_if (matches_no_place q.task_to_match) Invalid.task_without_place

-- check
abbrev pub check : String → ℕ → Result (Unit {0})
check s limit = refuse_if (ltb limit (len s)) Invalid.too_long

-- Claimant
abbrev pub check_claimant : String → Result (Unit {0})
check_claimant claimant = check claimant max_claimant_bytes

-- validate.Claim
unfoldable pub check_claim : ClaimQuery → Result (Unit {0})
check_claim cq = do validate_claim cq; check_claimant cq.claimant

-- validate.DocClaim
unfoldable pub check_doc_claim : DocClaim → Result (Unit {0})
check_doc_claim cq = do
  validate_doc_claim cq
  refuse_if (is_zero_duration cq.duration && not (is_some cq.task_to_match)) Invalid.no_lease
  for_each (λ s. check s.ns max_namespace_bytes >> check s.key max_doc_key_bytes) cq.sets
  check_claimant cq.claimant

-- doc
abbrev pub check_doc : String → String → String → String → Result (Unit {0})
check_doc ns id key secondary_key = do
  check ns max_namespace_bytes
  check id max_id_bytes
  check key max_doc_key_bytes
  check secondary_key max_doc_key_bytes

-- The closure `both` of docRefs
abbrev pub check_one : DocId → Result (Unit {0})
check_one r = refuse_if (not (r.id == "") && not (r.key == "")) Invalid.two_references

-- docRefs
unfoldable pub doc_refs : Modification → Result (Unit {0})
doc_refs m = do
  for_each (λ d. check_one d >> refuse_if (is_set_ref d) Invalid.set_delete) m.doc_deletes
  for_each check_one m.doc_depends

-- The place of an insert: its namespace, key and secondary key
abbrev pub Place : Type 0
Place = SetName × String

instance abbrev pub place_eq : Eq Place
place_eq = record { dec = pair_discrete (pair_discrete text_discrete text_discrete) text_discrete }

abbrev pub place_of : DocData → Place
place_of d = ((d.ns, d.key), d.secondary_key)

-- The loop of docPlaces, with the places seen so far
unfoldable pub check_places : Dict Place Bool → List DocData → Result (Unit {0})
check_places seen [] = ok tt
check_places seen (d ∷ rest) = do
  refuse_if (contains (place_of d) seen) Invalid.place_taken_twice
  check_places (insert (place_of d) true seen) rest

-- docPlaces
abbrev pub doc_places : Modification → Result (Unit {0})
doc_places m = check_places [] m.doc_inserts

-- `writes > 0` in lengths
abbrev pub writes_something : Modification → Bool
writes_something m = not (
    is_empty m.inserts
    && is_empty m.changes
    && is_empty m.doc_inserts
    && is_empty m.doc_changes
    && is_empty m.arrives
    && is_empty m.doc_arrives)

-- lengths
unfoldable pub lengths : Modification → Result (Unit {0})
lengths m = do
  if writes_something m then check_claimant m.claimant else ok tt
  for_each (λ t. check t.id max_id_bytes) m.inserts
  for_each (λ t. check t.id max_id_bytes) m.changes
  for_each (λ d. check_doc d.ns d.id d.key d.secondary_key) m.doc_inserts
  for_each (λ d. check_doc d.ns d.id d.key d.secondary_key) m.doc_changes

-- validate.Modification
unfoldable pub check_modification : Modification → Result (Unit {0})
check_modification m = do
  ensure_modify_keys m
  doc_refs m
  doc_places m
  _ ← all_dependencies m
  lengths m

-- NormalizeArrival
unfoldable pub normalize_arrival : Time → Time → Time
normalize_arrival at now = if ltb (at + arrival_past_window) now then now else at

-- RenewalDurationFor, for a lease that is not negative and below a third of the largest int64
unfoldable pub renewal_duration_for : ℕ → ℕ
renewal_duration_for lease = lease * 2 / 3
