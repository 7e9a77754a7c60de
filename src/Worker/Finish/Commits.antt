-- ===== src/Worker/Finish/Commits.antt =====
-- Commits: what a finished worker body has written, of pkg/worker/worker.go.
use entroq.Base.{
  Option-cases, All, string_eq, nat_eq, ◌≡◌, ◌≢◌, ◌⊎◌, inl, inr, true, Option, none, arith,
}
use entroq.Task.{Task}
use entroq.Doc.{DocSet}
use entroq.Modification.{Modification, names_nothing, set_name_eq}
use entroq.Worker.{WorkError, Held, docs_in, set_key, lost_dependency}
use entroq.Worker.Commit.{only_arrives}
use entroq.Worker.Sentinels.{Client}
use entroq.Worker.Finish.{
  WorkResult, finish_modification, commit_failed, mods_of, commit_request, finish,
}
use entroq.Worker.Commit.Fixes.{AreAt, doc_name, NamesTask, NamesDoc}

-- The operations of the modification on the task and the docs of the hold, and the arrivals of its
-- sets, name them at the versions that they are held at.
abbrev pub IsCurrent : Held → Modification → Type 0
IsCurrent h m =
    NamesTask m h.task.id h.task.version
    × All (λ d. NamesDoc m (doc_name d) d.version) (docs_in h.sets)
    × All (λ g. AreAt (λ a. (a.ns, a.key)) (λ a. a.version) m.doc_arrives (set_key g) g.version)
        h.sets

IsSameVersion : DocSet → DocSet → Type 0
IsSameVersion g x = set_key x ≡ set_key g → x.version ≡ g.version

module _ {W : Type 0} (c : Client W) where
  commit_failed-fails :
      (result : Option (WorkResult W)) (e : WorkError) (w : W) → (commit_failed result e w).0 ≢ none
  unfolding commit_failed
  commit_failed-fails result (lost_dependency e) w h = ground (arith, h)
  commit_failed-fails result e w h = ground (arith, h)

  -- A worker body is finished without an error only if there was nothing to write or the Modify
  -- succeeded, and it is counted as released only if the Modify succeeded and made the task arrive
  -- without changing or deleting it.
  pub finish-committed :
      (initial : Task) (result : Option (WorkResult W)) (final : Held) (w : W)
      → ((finish c initial result final w).0.0 ≡ none
          → (names_nothing (finish_modification (mods_of result) final (c.now w)) ≡ true)
            ⊎ ((c.modify
                  (commit_request c (finish_modification (mods_of result) final (c.now w)))
                  w).0
                ≡ none))
        × ((finish c initial result final w).0.1 ≡ true
            → (only_arrives (finish_modification (mods_of result) final (c.now w)) final.task.id
                ≡ true)
              × ((c.modify
                    (commit_request c (finish_modification (mods_of result) final (c.now w)))
                    w).0
                  ≡ none))
  unfolding finish
  finish-committed initial result final w = (
    λ h.
        elim (Option-cases
          (c.modify (commit_request c (finish_modification (mods_of result) final (c.now w)))
            w).0) [
              | inl landed ↦ inr landed
              | inr (why, e) ↦ inl (
                  ground (
                    arith,
                    h,
                    e,
                    commit_failed-fails result why
                        (c.modify
                          (commit_request c (finish_modification (mods_of result) final (c.now w)))
                          w).1,
                  ))
            ],
    λ h. (ground (arith, h), ground (arith, h)),
  )
