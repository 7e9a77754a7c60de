-- ===== src/Worker/Renewal/Runs.antt =====
-- Runs of the renewal loop of doWhileRenewing, pkg/worker/worker.go.
use entroq.Base.{
  if◌then◌else◌, Bool-cases, is_some, string_eq, nat_eq, ℕ, ◌≡◌, refl, ap, ◌∙◌, inl, inr, Bool,
  true, false, some, List, [], ◌∷◌, map, arith,
}
use entroq.Modification.{set_name_eq}
use entroq.Errors.{ok}
use entroq.Mem.Prepare.{ModifyResponse}
use entroq.Worker.{
  WorkError, Held, set_key, retry_error, move_error, fatal_error, lost_dependency, canceled,
  timed_out, shut_down, unsupported, other_error,
}
use entroq.Worker.Renewal.{
  Renewing, start_renewing, Answer, renewed, stop_renewing, after_refusal, on_tick, Event, Turns,
  Run, hand_over, answered, refused, stop_renew, context_done, tick, stops, ends, ticks, stay,
  go_on,
}
use entroq.Worker.Renewal.Answers.{doc_ids, Covers, renewed-Covers}

-- The same task, doc sets and docs, at whatever versions.
pub record IsSameHold (h k : Held) : Type 0 where
  pub task : k.task.id ≡ h.task.id
  pub sets : map set_key k.sets ≡ map set_key h.sets
  pub docs : map doc_ids k.sets ≡ map doc_ids h.sets

IsSameHold-refl : (h : Held) → IsSameHold h h
IsSameHold-refl h = record { task = refl; sets = refl; docs = refl }

IsSameHold-trans : (h k l : Held) → IsSameHold h k → IsSameHold k l → IsSameHold h l
IsSameHold-trans h k l a b = record {
  task = b.task ∙ a.task;
  sets = b.sets ∙ a.sets;
  docs = b.docs ∙ a.docs;
}

-- What the loop keeps to: it holds what it started with, it is ready to hand over once renewal has
-- stopped or a signal was read.
pub record IsSound (h : Held) (r : Renewing) : Type 0 where
  pub hold : IsSameHold h r.cur
  pub stopped : is_some r.stop_err ≡ true → r.out ≡ true
  pub told : r.hears_stop ≡ false → r.out ≡ true
  pub ended : r.hears_done ≡ false → r.out ≡ true

-- A change of the waits alone
as_before :
    {h : Held} {r : Renewing} {next retry_delay : ℕ}
    → IsSound h r
    → IsSound h (record r { next = next; retry_delay = retry_delay })
as_before s = record { hold = s.hold; stopped = s.stopped; told = s.told; ended = s.ended }

after_refusal-IsSound :
    (interval margin draw : ℕ) (e : WorkError) (h : Held) (r : Renewing)
    → IsSound h r
    → IsSound h (after_refusal interval margin draw e r)
unfolding after_refusal stop_renewing
after_refusal-IsSound interval margin draw canceled h r s = record {
  hold = s.hold;
  stopped = λ _. refl;
  told = λ _. refl;
  ended = λ _. refl;
}
after_refusal-IsSound interval margin draw (lost_dependency e) h r s = record {
  hold = s.hold;
  stopped = λ _. refl;
  told = λ _. refl;
  ended = λ _. refl;
}
after_refusal-IsSound interval margin draw unsupported h r s = record {
  hold = s.hold;
  stopped = λ _. refl;
  told = λ _. refl;
  ended = λ _. refl;
}
after_refusal-IsSound interval margin draw (retry_error e) h r s = as_before s
after_refusal-IsSound interval margin draw (move_error e) h r s = as_before s
after_refusal-IsSound interval margin draw (fatal_error e) h r s = as_before s
after_refusal-IsSound interval margin draw timed_out h r s = as_before s
after_refusal-IsSound interval margin draw shut_down h r s = as_before s
after_refusal-IsSound interval margin draw (other_error e) h r s = as_before s

covered :
    (resp : ModifyResponse) (h k : Held)
    → Covers resp h
    → resp.changed_tasks ≡ k.task ∷ []
    → k.task.id ≡ h.task.id
covered resp h k (t, e, same, _) changed = cc

on_tick-IsSound :
    (interval margin draw : ℕ) (answer : Answer) (h : Held) (r : Renewing)
    → IsSound h r
    → IsSound h (on_tick interval margin draw answer r)
unfolding on_tick stop_renewing
on_tick-IsSound interval margin draw (refused e) h r s =
    elim (is_some r.stop_err)
      as (λ b. IsSound h (
        if b
        then record r { next = interval }
        else after_refusal interval margin draw e (record r { next = interval }))) [
          | true ↦ as_before s
          | false ↦
              after_refusal-IsSound interval margin draw e h (record r { next = interval })
                (as_before s)
        ]
on_tick-IsSound interval margin draw (answered resp) h r s =
    elim (Bool-cases (is_some r.stop_err)) [
      | inl e ↦ rw (e, on_tick) (as_before s)
      | inr e ↦ elim (renewed-Covers r.cur resp) [
        | inl (k, f, covers, changed, kept) ↦
            rw (e, f, on_tick)
              (record {
                hold = IsSameHold-trans h r.cur k s.hold (record {
                  task = covered resp r.cur k covers changed;
                  sets = kept.same_sets;
                  docs = kept.same_docs;
                });
                stopped = s.stopped;
                told = s.told;
                ended = s.ended;
              })
        | inr (f, _) ↦
            rw (e, f, on_tick)
              (record { hold = s.hold; stopped = λ _. refl; told = λ _. refl; ended = λ _. refl })
      ]
    ]

Turns-IsSound :
    (interval margin : ℕ) (h : Held) (r : Renewing) (e : Event) (s : Renewing)
    → Turns interval margin r e s
    → IsSound h r
    → IsSound h s
Turns-IsSound interval margin h r _ _ (stops _ _) k = record {
  hold = k.hold;
  stopped = λ _. refl;
  told = λ _. refl;
  ended = λ _. refl;
}
Turns-IsSound interval margin h r _ _ (ends _ _) k = record {
  hold = k.hold;
  stopped = λ _. refl;
  told = λ _. refl;
  ended = λ _. refl;
}
Turns-IsSound interval margin h r _ _ (ticks _ draw answer _) k =
    on_tick-IsSound interval margin draw answer h r k

Run-IsSound :
    (interval margin : ℕ) (h : Held) (r : Renewing) (es : List Event) (s : Renewing)
    → Run interval margin r es s
    → IsSound h r
    → IsSound h s
Run-IsSound interval margin h r _ s (stay _) k = k
Run-IsSound interval margin h r _ t (go_on _ s _ e es turn run) k =
    Run-IsSound interval margin h s es t run (Turns-IsSound interval margin h r e s turn k)

-- What was decided stays so: a loop that is ready to hand over stays ready, and a loop that has
-- stopped renewing keeps its hold and its reason.
pub record IsSettled (r s : Renewing) : Type 0 where
  pub ready : r.out ≡ true → s.out ≡ true
  pub frozen : is_some r.stop_err ≡ true → (s.cur ≡ r.cur) × (s.stop_err ≡ r.stop_err)

after_refusal-ready :
    (interval margin draw : ℕ) (e : WorkError) (r : Renewing)
    → r.out ≡ true
    → (after_refusal interval margin draw e r).out ≡ true
unfolding after_refusal stop_renewing
after_refusal-ready interval margin draw e r h = ground arith

on_tick-IsSettled :
    (interval margin draw : ℕ) (answer : Answer) (r : Renewing)
    → IsSettled r (on_tick interval margin draw answer r)
unfolding on_tick stop_renewing after_refusal
on_tick-IsSettled interval margin draw answer r = record {
  ready = λ h. ground (
    arith,
    h,
    λ (e : WorkError). after_refusal-ready interval margin draw e (record r { next = interval }) h,
  );
  frozen = λ h. rw (h, on_tick) (refl, refl);
}

Turns-IsSettled :
    (interval margin : ℕ) (r : Renewing) (e : Event) (s : Renewing)
    → Turns interval margin r e s
    → IsSettled r s
Turns-IsSettled interval margin r _ _ (stops _ _) = record {
  ready = λ _. refl;
  frozen = λ _. (refl, refl);
}
Turns-IsSettled interval margin r _ _ (ends _ _) = record {
  ready = λ _. refl;
  frozen = λ _. (refl, refl);
}
Turns-IsSettled interval margin r _ _ (ticks _ draw answer _) =
    on_tick-IsSettled interval margin draw answer r

Run-IsSettled :
    (interval margin : ℕ) (r : Renewing) (es : List Event) (s : Renewing)
    → Run interval margin r es s
    → IsSettled r s
Run-IsSettled interval margin r _ s (stay _) = record { ready = λ h. h; frozen = λ _. (refl, refl) }
Run-IsSettled interval margin r _ t (go_on _ s _ e es turn run) =
    let a = Turns-IsSettled interval margin r e s turn in
    let b = Run-IsSettled interval margin s es t run in
    record {
      ready = λ h. b.ready (a.ready h);
      frozen = λ h.
          let (same, why) = a.frozen h in
          let (same', why') = b.frozen (ap is_some why ∙ h) in (same' ∙ same, why' ∙ why);
    }

start-IsSound : (interval since : ℕ) (h : Held) → IsSound h (start_renewing interval since h)
unfolding start_renewing
start-IsSound interval since h = record {
  hold = IsSameHold-refl h;
  stopped = λ e. ground (arith, e);
  told = λ e. ground (arith, e);
  ended = λ e. ground (arith, e);
}

-- An answer that renews the hold replaces it, and clears the delay of failed renewals.
on_tick-renewed :
    (interval margin draw : ℕ) (resp : ModifyResponse) (r : Renewing) (k : Held)
    → is_some r.stop_err ≡ false
    → renewed r.cur resp ≡ ok k
    → on_tick interval margin draw (answered resp) r
      ≡ record r { next = interval; cur = k; retry_delay = 0 }
unfolding on_tick
on_tick-renewed interval margin draw resp r k e f = rw (e, f, on_tick) refl

-- Whatever the loop has gone through since it started, it holds the task, the doc sets and the docs
-- that it started with, at whatever versions, and once renewal has stopped or a signal was read it
-- is ready to hand them over. While renewal goes on, a tick whose answer renews the hold, to the
-- task and the locks of the answer, leaves the loop with the renewed hold and waiting the interval.
pub Run-start-IsSound :
    (interval margin since : ℕ) (h : Held) (es : List Event) (r : Renewing)
    → Run interval margin (start_renewing interval since h) es r
    → IsSound h r
      × ((draw : ℕ) (resp : ModifyResponse) (k : Held)
          → is_some r.stop_err ≡ false
          → renewed r.cur resp ≡ ok k
          → on_tick interval margin draw (answered resp) r
            ≡ record r { next = interval; cur = k; retry_delay = 0 })
Run-start-IsSound interval margin since h es r run = (
  Run-IsSound interval margin h (start_renewing interval since h) es r run
      (start-IsSound interval since h),
  λ draw resp k. on_tick-renewed interval margin draw resp r k,
)

-- The events have a signal among them.
abbrev pub has_signal : List Event → Bool
has_signal [] = false
has_signal (stop_renew ∷ es) = true
has_signal (context_done ∷ es) = true
has_signal (tick _ _ ∷ es) = has_signal es

hand_over-ready : (r : Renewing) → r.out ≡ true → hand_over r ≡ some (r.cur, r.stop_err)
unfolding hand_over
hand_over-ready r h = ground (arith, h)

was_ready : (r : Renewing) → hand_over r ≡ some (r.cur, r.stop_err) → r.out ≡ true
unfolding hand_over
was_ready r h = ground (arith, h)

-- Once a signal has been read, the loop can hand over what it holds, and whatever turns it takes
-- before it does, it can still. Once renewal has stopped, what it hands over is the hold and the
-- reason of that moment, however many ticks come after.
pub Run-hand_over :
    (interval margin : ℕ) (r : Renewing) (es : List Event) (s : Renewing)
    → Run interval margin r es s
    → (has_signal es ≡ true → hand_over s ≡ some (s.cur, s.stop_err))
      × (hand_over r ≡ some (r.cur, r.stop_err) → hand_over s ≡ some (s.cur, s.stop_err))
      × (is_some r.stop_err ≡ true → (s.cur ≡ r.cur) × (s.stop_err ≡ r.stop_err))
Run-hand_over interval margin r es s run = (
  λ h. hand_over-ready s (signalled r es s run h),
  λ h. hand_over-ready s ((Run-IsSettled interval margin r es s run).ready (was_ready r h)),
  (Run-IsSettled interval margin r es s run).frozen,
)
  where
    signalled :
        (r : Renewing) (es : List Event) (s : Renewing)
        → Run interval margin r es s
        → has_signal es ≡ true
        → s.out ≡ true
    signalled r _ s (stay _) h = ground (arith, h)
    signalled r _ t (go_on _ s _ _ es (stops _ _) run) h =
        (Run-IsSettled interval margin s es t run).ready refl
    signalled r _ t (go_on _ s _ _ es (ends _ _) run) h =
        (Run-IsSettled interval margin s es t run).ready refl
    signalled r _ t (go_on _ s _ _ es (ticks _ draw answer _) run) h = signalled s es t run h
