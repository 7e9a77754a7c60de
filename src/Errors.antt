-- ===== src/Errors.antt =====
-- The errors that operations return: DependencyError and InvalidArgumentError of entroq.go. A text
-- that `fmt` builds for people is kept as the name of the place that builds it.
use entroq.Base.{List, [], ◌∷◌, Bool, true, false}
use entroq.Task.{TaskId}
use entroq.Doc.{DocId}

-- What DependencyError.Message says.
pub data Message : Type 0 where
  no_message : Message
  queue_mismatch : Message
  set_held : DocId → Message
  missing_task : Message
  lapsed_task : Message
  lost_claim : Message

pub record DependencyError : Type 0 where
  pub inserts : List TaskId
  pub depends : List TaskId
  pub deletes : List TaskId
  pub changes : List TaskId
  pub claims : List TaskId
  pub arrives : List TaskId
  pub doc_inserts : List DocId
  pub doc_depends : List DocId
  pub doc_deletes : List DocId
  pub doc_changes : List DocId
  pub doc_claims : List DocId
  pub doc_arrives : List DocId
  pub message : Message

-- `new(DependencyError)`
abbrev pub no_failures : DependencyError
no_failures = record {
  inserts = [];
  depends = [];
  deletes = [];
  changes = [];
  claims = [];
  arrives = [];
  doc_inserts = [];
  doc_depends = [];
  doc_deletes = [];
  doc_changes = [];
  doc_claims = [];
  doc_arrives = [];
  message = no_message;
}

-- The check that an InvalidArgumentError comes from.
pub data Invalid : Type 0 where
  nothing_to_do insert_without_queue change_without_queue arrival_without_queue : Invalid
  doc_insert_without_namespace arrival_of_doc arrival_without_namespace arrives_twice : Invalid
  task_twice doc_twice two_references set_delete place_taken_twice too_long : Invalid
  no_queues no_claimant no_duration duration_too_long : Invalid
  no_sets no_namespace no_key duplicate_set two_leases no_lease : Invalid
  negative_duration lease_and_task task_without_place hold_in_past : Invalid

pub data Failure : Type 0 where
  invalid : Invalid → Failure
  dependency : DependencyError → Failure
  -- `insert is missing ID`, a plain error
  missing_id : Failure

-- What a function with an error result returns.
pub data Result {κ} (V : Type κ) : Type κ where
  err : Failure → Result V
  ok : V → Result V

infixl 5 ◌>>=◌
-- `if err != nil { return err }`
abbrev pub ◌>>=◌ {ι κ} : {V : Type ι} {W : Type κ} → Result V → (V → Result W) → Result W
err why >>= next = err why
ok v >>= next = next v

infixl 5 ◌>>◌
-- The same after a check, which has no value.
abbrev pub ◌>>◌ {κ} : {W : Type κ} → Result (Unit {0}) → Result W → Result W
check >> next = check >>= λ _. next

-- `if c { return err }`
abbrev pub refuse_if : Bool → Invalid → Result (Unit {0})
refuse_if true why = err (invalid why)
refuse_if false why = ok tt

-- A loop whose body only checks.
abbrev pub for_each {ℓ} : {A : Type ℓ} → (A → Result (Unit {0})) → List A → Result (Unit {0})
for_each check [] = ok tt
for_each check (x ∷ xs) = check x >> for_each check xs
