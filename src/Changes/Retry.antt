-- ===== src/Changes/Retry.antt =====
-- What RetryOrQuarantine asks for.
use entroq.Base.{
  pos, int32_mod, inc32, le32, ltb, leb, if◌then◌else◌, Bool-cases, string_eq, nat_eq, ◌==◌, ℕ, ◌+◌,
  ◌%◌, ◌<◌, String, ◌<>◌, ◌≡◌, refl, ◌∙◌, inl, inr, Bool, true, not, ◌&&◌, List, [], ◌∷◌, ◌++◌,
  arith,
}
use entroq.Task.{Task}
use entroq.Modification.{Modification, reset_claims_of, set_name_eq}
use entroq.Changes.{
  ChangeArg, queue_to, arrival_time_by, appending_err, resetting_claims, attempt_to_next,
  apply_args, change, is_quarantining, retry_or_quarantine,
}

apply_args-append :
    (xs ys : List ChangeArg) (m : Modification) (t : Task)
    → apply_args (xs ++ ys) m t ≡ apply_args ys (apply_args xs m t).0 (apply_args xs m t).1
unfolding apply_args
apply_args-append [] ys m t = refl
apply_args-append (x ∷ xs) ys m t = apply_args-append xs ys (x m t).0 (x m t).1

-- An attempt more reaches the limit of a queue that is named, as int32 values.
abbrev pub reaches : Task → String → ℕ → Bool
reaches t q limit = not (q == "") && (not (limit == 0) && le32 limit (inc32 t.attempt))

pub is_quarantining-reaches :
    (t : Task) (q : String) (limit : ℕ) → is_quarantining t q limit ≡ reaches t q limit
unfolding is_quarantining
is_quarantining-reaches t q limit = ground arith

inc32_below : (v : ℕ) → v < 2_147_483_647 → inc32 v ≡ v + 1
unfolding inc32
inc32_below v h = omega (arith, h)

le32_below : (a b : ℕ) → a < 2_147_483_648 → b < 2_147_483_648 → le32 a b ≡ leb a b
le32_below a b h k =
    let (e, f) : ((a + 2_147_483_648) % int32_mod ≡ a + 2_147_483_648)
        × ((b + 2_147_483_648) % int32_mod ≡ b + 2_147_483_648) =
      (omega (arith, h), omega (arith, k)) in
    rw (e, f) (ground arith)

-- The attempts, this one included, have reached a limit that is not 0, of a queue that is named.
abbrev pub goes_to : Task → String → ℕ → Bool
goes_to t q limit = not (q == "") && (ltb 0 limit && leb limit (t.attempt + 1))

reaches-goes_to :
    (t : Task) (q : String) (limit : ℕ)
    → t.attempt < 2_147_483_647
    → limit < 2_147_483_648
    → reaches t q limit ≡ goes_to t q limit
reaches-goes_to t q limit h k =
    let e = inc32_below t.attempt h in
    let f = le32_below limit (t.attempt + 1) k (omega (arith, h)) in rw (e, f) (ground arith)

-- The change that a retry makes of a task: an attempt more, and the error on a line of its own after
-- those before it.
abbrev pub retried : Task → String → String → ℕ → Task
retried t err_msg quarantine_to after_max_attempts = record t {
  attempt = t.attempt + 1;
  err = if t.err == "" then err_msg else if err_msg == "" then t.err else t.err <> "\n" <> err_msg;
  from_queue = t.queue;
  queue = if goes_to t quarantine_to after_max_attempts then quarantine_to else t.queue;
  at = 0;
  by = pos 0;
}

-- Without overrides, and with attempts that are below the largest int32 and a limit that is not
-- negative, RetryOrQuarantine adds one change and asks for the claim count to be reset: the task is
-- released, an attempt and an error later, into the quarantine queue exactly where one is named and
-- the attempts, this one included, have reached a limit that is not 0.
pub retry_or_quarantine-lem :
    (t : Task) (err_msg quarantine_to : String) (after_max_attempts : ℕ) (m : Modification)
    → t.attempt < 2_147_483_647
    → after_max_attempts < 2_147_483_648
    → retry_or_quarantine t err_msg quarantine_to after_max_attempts [] m ≡ record m {
      reset_claims = t.id ∷ m.reset_claims;
      changes = m.changes ++ retried t err_msg quarantine_to after_max_attempts ∷ [];
    }
unfolding retry_or_quarantine change apply_args reset_claims_of
retry_or_quarantine-lem t err_msg quarantine_to after_max_attempts m h k =
    let q =
      is_quarantining-reaches t quarantine_to after_max_attempts
      ∙ reaches-goes_to t quarantine_to after_max_attempts h k in
    let next = inc32_below t.attempt h in
    elim (Bool-cases (goes_to t quarantine_to after_max_attempts)) [
      | inl e ↦ rw (q, e, next) refl
      | inr e ↦ rw (q, e, next) refl
    ]

-- A task that is quarantined is released at once, whatever the overrides do: the change that is
-- added asks for no arrival later than now.
pub quarantine-released :
    (t : Task) (err_msg quarantine_to : String) (after_max_attempts : ℕ)
    (overrides : List ChangeArg) (m : Modification)
    → is_quarantining t quarantine_to after_max_attempts ≡ true
    → (before_it : List Task) × (c : Task) × ((retry_or_quarantine t err_msg quarantine_to
          after_max_attempts overrides m).changes
        ≡ before_it ++ c ∷ [])
      × (c.by ≡ pos 0)
unfolding retry_or_quarantine change apply_args
quarantine-released t err_msg quarantine_to after_max_attempts overrides m h =
    let args =
      attempt_to_next
      ∷ appending_err err_msg
      ∷ resetting_claims
      ∷ queue_to quarantine_to
      ∷ overrides in
    let start : Task = record t { from_queue = t.queue; at = 0; by = pos 0 } in
    let r = apply_args args m start in
    (
      r.0.changes,
      record r.1 { by = pos 0 },
      rw (h, apply_args-append args (arrival_time_by (pos 0) ∷ []) m start) refl,
      refl,
    )
