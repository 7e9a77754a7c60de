-- ===== src/Waiting/Polls.antt =====
-- Polls of PollTryClaim, entroq.go.
use entroq.Base.{
  string_eq, nat_eq, ℕ, zero, suc, ◌+◌, ◌≤◌, ◌≡◌, ap, ◌∙◌, ◌⊎◌, inl, inr, Bool, false, some, arith,
}
use entroq.Task.{Task}
use entroq.Errors.{Failure}
use entroq.Waiting.{
  Try, max_check_interval, start_interval, longer_wait, Polled, poll_loop, poll_try_claim,
  try_failed, no_task, a_task, poll_failed, polled,
}

-- The wait after the n-th that found nothing
unfoldable pub nth_wait : ℕ → ℕ
nth_wait zero = start_interval
nth_wait (suc n) = longer_wait (nth_wait n)

pub nth_wait-bounds : (n : ℕ) → (start_interval ≤ nth_wait n) × (nth_wait n ≤ max_check_interval)
unfolding nth_wait longer_wait
nth_wait-bounds zero = (omega arith, omega arith)
nth_wait-bounds (suc n) = (ground (arith, nth_wait-bounds n), ground (arith, nth_wait-bounds n))

module _ {W : Type 0} (try : W → Try × W) (wait_ends : ℕ → W → Bool × W) where
  -- `n` tries that find nothing, after waits from the one of index `from` on, none of them ended by
  -- the context.
  abbrev pub AreIdle : ℕ → ℕ → W → W → Type 0
  AreIdle zero from w w' = w ≡ w'
  AreIdle (suc n) from w w' =
      ((try w).0 ≡ no_task)
      × ((wait_ends (nth_wait from) (try w).1).0 ≡ false)
      × AreIdle n (suc from) (wait_ends (nth_wait from) (try w).1).1 w'

  idle_turn :
      (k from : ℕ) (w : W)
      → (try w).0 ≡ no_task
      → (wait_ends (nth_wait from) (try w).1).0 ≡ false
      → poll_loop try wait_ends (suc k) (nth_wait from) w
        ≡ poll_loop try wait_ends k (nth_wait (suc from)) (wait_ends (nth_wait from) (try w).1).1
  unfolding poll_loop nth_wait
  idle_turn k from w nothing goes_on = ground (arith, nothing, goes_on)

  poll_loop-AreIdle :
      (n from k : ℕ) (w w' : W)
      → AreIdle n from w w'
      → poll_loop try wait_ends (n + k) (nth_wait from) w
        ≡ poll_loop try wait_ends k (nth_wait (n + from)) w'
  unfolding poll_loop nth_wait
  poll_loop-AreIdle zero from k w w' h =
      let none_more : 0 + k ≡ k = omega arith in
      let same_index : from ≡ 0 + from = omega arith in
      ap (λ x. poll_loop try wait_ends x (nth_wait from) w) none_more
      ∙ ap (λ x. poll_loop try wait_ends k (nth_wait from) x) h
      ∙ ap (λ x. poll_loop try wait_ends k (nth_wait x) w') same_index
  poll_loop-AreIdle (suc n) from k w w' h =
      let turns : suc n + k ≡ suc (n + k) = omega arith in
      let same_index : n + suc from ≡ suc n + from = omega arith in
      ap (λ x. poll_loop try wait_ends x (nth_wait from) w) turns
      ∙ idle_turn (n + k) from w h.0 h.1
      ∙ poll_loop-AreIdle n (suc from) k _ w' h.2
      ∙ ap (λ x. poll_loop try wait_ends k (nth_wait x) w') same_index

  -- A poll whose tries find nothing until one that fails or finds a task, before the context ends,
  -- ends with what that try returned, in one turn more than those; no wait is shorter than the start
  -- interval or longer than the check interval.
  pub poll_try_claim-AreIdle :
      (n : ℕ) (w w' : W) (result : Polled)
      → AreIdle n 0 w w'
      → ((task : Task) × ((try w').0 ≡ a_task task) × (result ≡ polled task))
        ⊎ ((e : Failure) × ((try w').0 ≡ try_failed e) × (result ≡ poll_failed e))
      → (poll_try_claim try wait_ends (n + 1) w ≡ (some result, (try w').1))
        × ((m : ℕ) → (start_interval ≤ nth_wait m) × (nth_wait m ≤ max_check_interval))
  unfolding poll_try_claim nth_wait poll_loop
  poll_try_claim-AreIdle n w w' result idle decided = (
    poll_loop-AreIdle n 0 1 w w' idle ∙ elim decided [
      | inl (task, e, same) ↦ ground (arith, e, same)
      | inr (why, e, same) ↦ ground (arith, e, same)
    ],
    nth_wait-bounds,
  )
