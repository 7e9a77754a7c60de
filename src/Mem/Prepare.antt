-- ===== src/Mem/Prepare.antt =====
-- The parts of Modify on the in-memory backend, eqmem.go, that read no state of their own: what
-- modPrep collects, and the tasks and docs that writes leave.
use entroq.Base.{
  pos, Time, add, after, is_zero, inc32, Dict, lookup, insert, get_or, if◌then◌else◌, is_some,
  is_empty, keep, string_eq, nat_eq, ◌==◌, String, Bool, not, ◌&&◌, ◌||◌, Option, none, some, List,
  [], ◌∷◌, ◌++◌, map,
}
use entroq.Task.{new_task_id, TaskData, Task, new_task}
use entroq.Doc.{DocData, Doc, DocSet}
use entroq.Errors.{DependencyError, no_failures, queue_mismatch}
use entroq.Modification.{Modification, resets_claims, set_name_eq}
use entroq.Dependency.{doc_name_eq, merge}
use entroq.DocSets.{Lock, overlay}
use entroq.Validate.{place_eq, normalize_arrival}

-- `queue == "" || queue != qByID[id]`
abbrev pub is_misnamed : Dict String String → String → String → Bool
is_misnamed q_by_id queue id = queue == "" || not (queue == get_or id "" q_by_id)

-- ensureModQueues
unfoldable pub ensure_mod_queues : Modification → Dict String String → Option DependencyError
ensure_mod_queues m q_by_id =
    let deletes =
      map (λ d. new_task_id d.id d.version d.queue)
        (keep (λ d. is_misnamed q_by_id d.queue d.id) m.deletes) in
    let depends =
      map (λ d. new_task_id d.id d.version d.queue)
        (keep (λ d. is_misnamed q_by_id d.queue d.id) m.depends) in
    let changes =
      map (λ c. new_task_id c.id c.version c.from_queue)
        (keep (λ c. is_misnamed q_by_id c.from_queue c.id) m.changes) in
    if is_empty deletes && is_empty depends && is_empty changes
    then none
    else some (record no_failures {
      deletes = deletes;
      depends = depends;
      changes = changes;
      message = queue_mismatch;
    })

-- modPrep, the loop over inserts: the queue that holds the ID of an insert into another queue
unfoldable pub misplaced_inserts : Dict String String → List TaskData → Dict String String
misplaced_inserts q_by_id [] = []
misplaced_inserts q_by_id (ins ∷ rest) =
    let others = misplaced_inserts q_by_id rest in
    if ins.id == "" then others else elim (lookup ins.id q_by_id) [
      | none ↦ others
      | some q ↦ if q == ins.queue then others else insert ins.id q others
    ]

-- The names that modPrep collects; the empty one is dropped, and one that stands twice is locked
-- once.
abbrev pub queue_names : Modification → Dict String String → List String
queue_names m misplaced =
    keep (λ q. not (q == ""))
      (map (λ p. p.1) misplaced
        ++ (map (λ i. i.queue) m.inserts
            ++ (map (λ c. c.from_queue) m.changes
                ++ (map (λ c. c.queue) m.changes
                    ++ (map (λ d. d.queue) m.deletes
                        ++ (map (λ d. d.queue) m.depends ++ map (λ a. a.queue) m.arrives))))))

abbrev pub namespace_names : Modification → List String
namespace_names m =
    keep (λ n. not (n == ""))
      (map (λ i. i.ns) m.doc_inserts
        ++ (map (λ c. c.ns) m.doc_changes
            ++ (map (λ d. d.ns) m.doc_deletes
                ++ (map (λ d. d.ns) m.doc_depends ++ map (λ a. a.ns) m.doc_arrives))))

-- holder
abbrev pub holder : String → Time → Time → String
holder claimant at now = if after at now then claimant else ""

-- `if t.IsZero() { t = now }`
abbrev pub or_now : Time → Time → Time
or_now t now = if is_zero t then now else t

pub record ModifyResponse : Type 0 where
  pub inserted_tasks : List Task
  pub changed_tasks : List Task
  pub inserted_docs : List Doc
  pub changed_docs : List Doc
  pub changed_sets : List DocSet

abbrev pub empty_response : ModifyResponse
empty_response = record {
  inserted_tasks = [];
  changed_tasks = [];
  inserted_docs = [];
  changed_docs = [];
  changed_sets = [];
}

-- The task that a change leaves, from the one that is stored
unfoldable pub changed_task : Modification → Time → Task → Task → Task
changed_task m now old c =
    let at = normalize_arrival (add now c.by) now in
    record c {
      version = inc32 c.version;
      claims = if resets_claims m c.id then 0 else old.claims;
      created = old.created;
      at = at;
      claimant = holder m.claimant at now;
      modified = now;
    }

-- The task that an insert leaves
unfoldable pub inserted_task : Modification → Time → TaskData → Task
inserted_task m now td =
    let at = normalize_arrival (add now td.by) now in
    record new_task {
      id = td.id;
      queue = td.queue;
      at = at;
      value = td.value;
      claimant = holder m.claimant at now;
      created = or_now td.created now;
      modified = or_now td.modified now;
      attempt = td.attempt;
      err = td.err;
    }

-- `withLock`, with the set's lock after the modification
abbrev pub with_lock : Lock → Doc → Doc
with_lock l d = overlay d l

-- The doc that a change leaves; the keys and the creation are the stored doc's.
unfoldable pub changed_doc : Time → Lock → Option Doc → Doc → Doc
changed_doc now l none c = with_lock l (record c { modified = now })
changed_doc now l (some old) c = with_lock l (record c {
  key = old.key;
  secondary_key = old.secondary_key;
  created = old.created;
  modified = now;
})

unfoldable pub inserted_doc : Time → Lock → DocData → Doc
inserted_doc now l d = with_lock l (record {
  ns = d.ns;
  id = d.id;
  version = 0;
  claimant = "";
  by = pos 0;
  at = d.at;
  key = d.key;
  secondary_key = d.secondary_key;
  content = d.content;
  created = or_now d.created now;
  modified = or_now d.modified now;
})

-- `taskMod`
abbrev pub task_part : Modification → Modification
task_part m = record m { doc_inserts = []; doc_changes = []; doc_deletes = []; doc_depends = [] }

-- The failures that modifyImpl puts together
abbrev pub all_failures :
    Option DependencyError
    → Option DependencyError
    → Option DependencyError
    → Option DependencyError
all_failures queue_deps task_deps doc_deps =
    let found_deps = if is_some doc_deps then merge task_deps doc_deps else task_deps in
    if is_some queue_deps || is_some found_deps then merge queue_deps found_deps else none
