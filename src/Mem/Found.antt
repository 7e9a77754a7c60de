-- ===== src/Mem/Found.antt =====
-- What Modify on the in-memory backend, eqmem.go, finds under its locks, and the locking of namespaces.
pub mod Stored
use entroq.Base.{
  Dict, lookup, insert, erase, contains, get_or, if◌then◌else◌, is_empty, string_eq, nat_eq, ◌==◌,
  String, ◌&&◌, ◌||◌, Option, none, some, List, [], ◌∷◌, ◌++◌, map,
}
use entroq.Task.{TaskData, Task}
use entroq.Doc.{Doc}
use entroq.Modification.{Modification, SetName, set_name_eq}
use entroq.DocSets.{Lock, absent_lock}
use entroq.Mem.{ClaimHeaps, QueueLock, DocNamespace, task_in}

module _ (heaps : ClaimHeaps) where
  abbrev pub Queues : Type 0
  Queues = Dict String (QueueLock heaps)

  abbrev pub Namespaces : Type 0
  Namespaces = Dict String (DocNamespace heaps)

  -- addFound
  abbrev pub add_found : Queues → String → String → Dict String Task → Dict String Task
  add_found queues q id found =
      if q == "" || id == ""
      then found
      else elim (task_in heaps q id queues) [ none ↦ found | some t ↦ insert t.id t found ]

  -- The calls of addFound: a queue and an ID each
  unfoldable pub find_tasks : Queues → List (String × String) → Dict String Task → Dict String Task
  find_tasks queues [] found = found
  find_tasks queues ((q, id) ∷ rest) found = find_tasks queues rest (add_found queues q id found)

  abbrev pub insert_places : Dict String String → List TaskData → List (String × String)
  insert_places misplaced [] = []
  insert_places misplaced (i ∷ rest) =
      (i.queue, i.id) ∷ (get_or i.id "" misplaced, i.id) ∷ insert_places misplaced rest

  abbrev pub task_places : Modification → Dict String String → List (String × String)
  task_places m misplaced =
      map (λ d. (d.queue, d.id)) m.deletes
      ++ (map (λ d. (d.queue, d.id)) m.depends
          ++ (map (λ c. (c.from_queue, c.id)) m.changes
              ++ (map (λ a. (a.queue, a.id)) m.arrives ++ insert_places misplaced m.inserts)))

  -- foundDocs, which is asked only for docs that the modification names; the names that DocKey joins
  -- have no NUL in them.
  abbrev pub doc_in : Namespaces → String → String → Option Doc
  doc_in nss ns id =
      if ns == "" || id == ""
      then none
      else elim (lookup ns nss) [ none ↦ none | some nl ↦ lookup id nl.by_id ]

  -- docNamespace.Occupant. A set has at most one doc at a secondary key.
  unfoldable pub occupant_in : String → String → Dict String Doc → Option Doc
  occupant_in key secondary [] = none
  occupant_in key secondary ((_, d) ∷ rest) =
      if d.key == key && (d.secondary_key == secondary)
      then some d
      else occupant_in key secondary rest

  abbrev pub occupant_of : Namespaces → SetName → String → Option Doc
  occupant_of nss g secondary = elim (lookup g.0 nss) [
    | none ↦ none
    | some nl ↦ occupant_in g.1 secondary nl.by_id
  ]

  -- docNamespace.Lock
  abbrev pub lock_of : Namespaces → SetName → Lock
  lock_of nss g = elim (lookup g.0 nss) [
    | none ↦ absent_lock
    | some nl ↦ get_or g.1 absent_lock nl.locks
  ]

  -- lockForNamespaceUnsafe
  unfoldable pub lock_namespace : String → Namespaces → Namespaces
  lock_namespace ns nss =
      if contains ns nss then nss else insert ns (record { by_id = []; locks = [] }) nss

  unfoldable pub lock_namespaces : List String → Namespaces → Namespaces
  lock_namespaces [] nss = nss
  lock_namespaces (n ∷ ns) nss = lock_namespaces ns (lock_namespace n nss)

  -- The cleanup of one namespace when lockNamespaces unlocks, with docNamespace.Len
  unfoldable pub unlock_namespace : String → Namespaces → Namespaces
  unlock_namespace n nss = elim (lookup n nss) [
    | none ↦ nss
    | some nl ↦ if is_empty nl.by_id && is_empty nl.locks then erase n nss else nss
  ]

  unfoldable pub unlock_namespaces : List String → Namespaces → Namespaces
  unlock_namespaces [] nss = nss
  unlock_namespaces (n ∷ ns) nss = unlock_namespace n (unlock_namespaces ns nss)
