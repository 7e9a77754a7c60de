-- ===== src/Worker/Renewal/Waits.antt =====
-- Waits between renewals: nextRenewalRetry of pkg/worker/worker.go and its jitter.
use entroq.Base.{string_eq, nat_eq, ℕ, zero, suc, ◌+◌, ◌*◌, ◌/◌, ◌≤◌, ◌<◌, ◌≡◌, arith}
use entroq.Task.{Task}
use entroq.Validate.{place_eq, renewal_duration_for}
use entroq.Worker.Renewal.{granted_lease, renew_interval, renewal_margin, next_renewal_retry}

-- The wait before the retry after `n` others, from the first failure on.
unfoldable pub retry_wait : ℕ → ℕ → ℕ → ℕ
retry_wait margin interval zero = next_renewal_retry 0 margin interval
retry_wait margin interval (suc n) =
    next_renewal_retry (retry_wait margin interval n) margin interval

-- The most that the jitter makes of a wait
abbrev pub longest : ℕ → ℕ
longest wait = wait + wait / 4

-- The first renewal is due within the lease, which the margin completes.
pub renewal_margin-rest : (t : Task) → renew_interval t + renewal_margin t ≡ granted_lease t
unfolding renew_interval renewal_margin renewal_duration_for granted_lease
renewal_margin-rest t = omega arith

next_renewal_retry-le :
    (last margin interval : ℕ) → next_renewal_retry last margin interval ≤ interval
unfolding next_renewal_retry
next_renewal_retry-le last margin interval = ground arith

retry_wait-le : (margin interval n : ℕ) → retry_wait margin interval n ≤ interval
unfolding retry_wait
retry_wait-le margin interval zero = next_renewal_retry-le 0 margin interval
retry_wait-le margin interval (suc n) =
    next_renewal_retry-le (retry_wait margin interval n) margin interval

-- No retry waits longer than the ordinary interval, the first three waits are within the margin,
-- and the first two are even when the jitter lengthens them the most, for a margin above 0.
pub retry_wait-fits :
    (margin interval : ℕ)
    → 0 < margin
    → ((n : ℕ) → retry_wait margin interval n ≤ interval)
      × (retry_wait margin interval 0 + retry_wait margin interval 1 + retry_wait margin interval 2
          ≤ margin)
      × (longest (retry_wait margin interval 0) + longest (retry_wait margin interval 1) ≤ margin)
unfolding retry_wait next_renewal_retry
retry_wait-fits margin interval h =
    (λ n. retry_wait-le margin interval n, ground arith, ground arith)

-- With the longest jitter the third wait ends after the margin, at every margin that 32 divides and
-- an interval of at least half of it.
pub retry_wait-overruns :
    (k interval : ℕ)
    → 0 < k
    → 16 * k ≤ interval
    → 32 * k
      < longest (retry_wait (32 * k) interval 0)
        + longest (retry_wait (32 * k) interval 1)
        + longest (retry_wait (32 * k) interval 2)
unfolding retry_wait next_renewal_retry
retry_wait-overruns k interval h half = ground arith
