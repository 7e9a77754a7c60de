-- ===== src/Mem/Eqmem.antt =====
-- The in-memory backend over its own claim heap: what claims take, and what the writes of Modify
-- keep, of pkg/backend/eqmem/eqmem.go and claimheap.go.
use entroq.Base.{Time, string_eq, nat_eq, String, ◌≡◌, ◌⊎◌, Bool, false, List}
use entroq.Task.{Task}
use entroq.Modification.{Modification, set_name_eq}
use entroq.Validate.{ClaimQuery, place_eq}
use entroq.Mem.{nothing, EqMem, must_try_claim_one, task_in}
use entroq.Mem.Heaps.{claim_heaps}
use entroq.Mem.Claims.{AllIndexed, is_available, Takes, must_try_claim_one-Takes}

-- A claim on a queue whose claim heap is sound and agrees with its tasks does not panic. Either it
-- finds none of the queue's tasks available and changes nothing, or it takes one that is: the task
-- comes back one version on, with one more claim, the claimant's until the end of its lease, it is
-- the only one that changes, and every claim heap is sound and agrees with its tasks again.
pub claim_one-Takes :
    (cq : ClaimQuery) (draws : List Bool) (now : Time) (q : String) (st : EqMem claim_heaps)
    → AllIndexed claim_heaps st.queues
    → ((must_try_claim_one claim_heaps cq draws now q st ≡ nothing st)
        × ((id : String)
            → is_available claim_heaps now (task_in claim_heaps q id st.queues) ≡ false))
      ⊎ Takes claim_heaps cq now q st (must_try_claim_one claim_heaps cq draws now q st)
claim_one-Takes cq draws now q st all = must_try_claim_one-Takes claim_heaps cq draws now q st all
