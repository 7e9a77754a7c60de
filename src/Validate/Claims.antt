-- ===== src/Validate/Claims.antt =====
-- The claims that a backend accepts, and the arrivals it stores.
use entroq.Base.{
  pos, negsuc, Time, Duration, is_positive, is_zero_duration, Dict, insert, AreNew, AreNew-cons,
  AreNew-nil, is_some, All, Distinct, is_empty_iff, All-iff, string_eq, nat_eq, ℕ, zero, suc, ◌+◌,
  ◌≤◌, String, len, ◌≡◌, refl, ◌≢◌, ◌↔◌, ◌⊎◌, inl, inr, Bool, true, false, not, List, [], ◌∷◌, map,
  arith,
}
use entroq.Doc.{DocSetClaim, DocClaim}
use entroq.Errors.{◌>>◌, ok}
use entroq.Modification.{SetName, set_name_eq}
use entroq.Modification.Keys.{for_each-ok}
use entroq.Validate.{
  max_claim_duration, arrival_past_window, max_claimant_bytes, max_namespace_bytes,
  max_doc_key_bytes, exceeds, is_negative, ClaimQuery, validate_claim, check_claim_sets,
  matches_no_place, validate_doc_claim, check, check_claim, check_doc_claim, place_eq,
  normalize_arrival,
}

-- A text within a limit of bytes.
abbrev pub Fits : ℕ → String → Type 0
Fits limit s = len s ≤ limit

pub check-Fits : (s : String) (limit : ℕ) → (check s limit ≡ ok tt) ↔ Fits limit s
check-Fits s limit = (λ h. ground arith, λ h. ground arith)

-- A duration of a positive number of nanoseconds, at most the longest claim.
abbrev pub IsLease : Duration → Type 0
IsLease d = (is_positive d ≡ true) × (exceeds d max_claim_duration ≡ false)

-- A backend accepts a task claim exactly when it names a queue and a claimant that fits its limit,
-- and asks for a positive duration of at most 30 days.
pub check_claim_iff :
    (q : ClaimQuery)
    → (check_claim q ≡ ok tt) ↔ (
        (q.queues ≢ [])
        × (q.claimant ≢ "")
        × IsLease q.duration
        × Fits max_claimant_bytes q.claimant)
unfolding check_claim validate_claim
check_claim_iff q = (
  λ h. let b = is_empty_iff q.queues in ground (arith, b.0),
  λ h. let b = is_empty_iff q.queues in ground (arith, b.1),
)

abbrev pub claimed_name : DocSetClaim → SetName
claimed_name s = (s.ns, s.key)

check_claim_sets-ok :
    (seen : Dict SetName Bool) (xs : List DocSetClaim)
    → (check_claim_sets seen xs ≡ ok tt)
      ↔ (All (λ s. (s.ns ≢ "") × (s.key ≢ "")) xs × AreNew claimed_name seen xs)
unfolding check_claim_sets
check_claim_sets-ok seen [] = (λ h. (tt, (tt, tt)), λ h. refl)
check_claim_sets-ok seen (s ∷ xs) =
    let k : SetName = (s.ns, s.key) in
    let rest = check_claim_sets-ok (insert k true seen) xs in
    let new = AreNew-cons claimed_name s true seen xs in
    (λ h. ground (arith, rest.0, new.1), λ h. ground (arith, rest.1, new.0 h.1))

-- A doc claim after its checks: sets in namespaces with keys, each named once, a claimant, at most
-- one lease, a duration that is zero or a lease, and exactly one of a duration and a task to match,
-- which has an ID and a queue; and every text is within its limit.
pub record DocClaimAccepted (q : DocClaim) : Type 0 where
  pub something : q.sets ≢ []
  pub named : All (λ s. (s.ns ≢ "") × (s.key ≢ "")) q.sets
  pub once : Distinct (map claimed_name q.sets)
  pub claimant : q.claimant ≢ ""
  pub one_lease : q.leases ≤ 1
  pub duration : (is_negative q.duration ≡ false) × (exceeds q.duration max_claim_duration ≡ false)
  pub holds : is_positive q.duration ≢ is_some q.task_to_match
  pub place : matches_no_place q.task_to_match ≡ false
  pub fits : All (λ s. Fits max_namespace_bytes s.ns × Fits max_doc_key_bytes s.key) q.sets
  pub claimant_fits : Fits max_claimant_bytes q.claimant

check_set-Fits :
    (s : DocSetClaim)
    → ((check s.ns max_namespace_bytes >> check s.key max_doc_key_bytes) ≡ ok tt)
      ↔ (Fits max_namespace_bytes s.ns × Fits max_doc_key_bytes s.key)
check_set-Fits s = (λ h. ground arith, λ h. ground arith)

sign-cases :
    (d : Duration)
    → (is_negative d ≡ true) × (is_positive d ≡ false) × (is_zero_duration d ≡ false)
      ⊎ ((is_negative d ≡ false) × (is_positive d ≡ not (is_zero_duration d)))
sign-cases (pos zero) = inr (refl, refl)
sign-cases (pos (suc n)) = inr (refl, ground arith)
sign-cases (negsuc n) = inl (refl, refl, refl)

-- A backend accepts a doc claim exactly when it is as DocClaimAccepted says.
pub check_doc_claim-DocClaimAccepted :
    (q : DocClaim) → (check_doc_claim q ≡ ok tt) ↔ DocClaimAccepted q
unfolding check_doc_claim validate_doc_claim
check_doc_claim-DocClaimAccepted q =
    let e = is_empty_iff q.sets in
    let s = check_claim_sets-ok [] q.sets in
    let n = AreNew-nil {V = Bool} claimed_name [] q.sets refl in
    let f =
      for_each-ok (λ s. check s.ns max_namespace_bytes >> check s.key max_doc_key_bytes) q.sets in
    let p = All-iff check_set-Fits q.sets in
    let c = check-Fits q.claimant max_claimant_bytes in
    let d = sign-cases q.duration in
    (
      λ h. record {
        something = ground (arith, e.0);
        named = ground (arith, s.0);
        once = ground (arith, s.0, n.0);
        claimant = ground arith;
        one_lease = ground arith;
        duration = ground arith;
        holds = ground arith;
        place = ground arith;
        fits = p.0 (f.0 (ground arith));
        claimant_fits = c.0 (ground arith);
      },
      λ a.
          let sets_ok = s.1 (a.named, n.1 a.once) in
          let fit_ok = f.1 (p.1 a.fits) in
          let claimant_ok = c.1 a.claimant_fits in
          ground (arith, e.1 a.something, a.claimant, a.one_lease, a.duration, a.holds, a.place),
    )

-- A stored arrival is never further before now than the window; it is the one asked for exactly
-- when that was not either, and now otherwise; and normalizing it again changes nothing.
pub normalize_arrival-lem :
    (at now : Time)
    → (now ≤ normalize_arrival at now + arrival_past_window)
      × ((normalize_arrival at now ≡ at) ↔ (now ≤ at + arrival_past_window))
      × ((normalize_arrival at now ≡ at) ⊎ (normalize_arrival at now ≡ now))
      × (normalize_arrival (normalize_arrival at now) now ≡ normalize_arrival at now)
unfolding normalize_arrival
normalize_arrival-lem at now = ground arith
