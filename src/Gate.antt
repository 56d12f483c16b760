-- ===== src/Gate.antt =====
-- The gate before the local model: backend/app/integrations/llm/gate.py, `InferenceGate`, on the
-- semaphore of asyncio. A request runs alone between two awaits, so a step of the gate is what it
-- does from one await to the next; the blocks under the gate's lock await nothing.
pub mod Invariant
pub mod Reach
pub mod Service
pub mod Tests
use praktika.Prelude.{
  ℕ, zero, suc, ◌-◌, Bool, true, false, ◌&&◌, ◌||◌, not, Option, none, some, List, [], ◌∷◌, ◌++◌,
  ltb, leb, ◌==◌, if◌then◌else◌, Error, Result, ok, err,
}

-- The future that a waiting request awaits: not done yet, given a permit, cancelled by the timeout,
-- or given a permit and then cancelled before the request could go on.
pub data Future : Type 0 where
  pending woken cancelled revoked : Future

pub record Waiter : Type 0 where
  pub request : ℕ
  pub future : Future

-- The counters of the gate, and the value and the futures of its semaphore.
pub record Gate : Type 0 where
  pub capacity : ℕ
  pub queue_limit : ℕ
  pub value : ℕ
  pub waiters : List Waiter
  pub waiting : ℕ
  pub active : ℕ

-- `InferenceGate(capacity, queue_limit, timeout)`
unfoldable pub new_gate : ℕ → ℕ → Gate
new_gate capacity queue_limit = record {
  capacity = capacity;
  queue_limit = queue_limit;
  value = capacity;
  waiters = [];
  waiting = 0;
  active = 0;
}

abbrev pub is_pending : Future → Bool
is_pending Future.pending = true
is_pending Future.woken = false
is_pending Future.cancelled = false
is_pending Future.revoked = false

abbrev pub is_cancelled : Future → Bool
is_cancelled Future.pending = false
is_cancelled Future.woken = false
is_cancelled Future.cancelled = true
is_cancelled Future.revoked = false

-- Does somebody wait for a permit?
unfoldable pub has_pending : List Waiter → Bool
has_pending [] = false
has_pending (w ∷ ws) = is_pending w.future || has_pending ws

unfoldable pub has_live : List Waiter → Bool
has_live [] = false
has_live (w ∷ ws) = not (is_cancelled w.future) || has_live ws

-- `Semaphore.locked()`
unfoldable pub locked : Gate → Bool
unfolding has_live
locked g = g.value == 0 || has_live g.waiters

-- The first future that is not done is set.
unfoldable pub wake_first : List Waiter → List Waiter
wake_first [] = []
wake_first (w ∷ ws) =
    if is_pending w.future then record w { future = Future.woken } ∷ ws else w ∷ wake_first ws

-- `Semaphore._wake_next()`
unfoldable pub wake_next : Gate → Gate
unfolding wake_first has_pending
wake_next g =
    if has_pending g.waiters
    then record g { value = g.value - 1; waiters = wake_first g.waiters }
    else g

-- `while value > 0: if not _wake_next(): break`, at most as often as there are permits.
unfoldable pub wake_free : ℕ → Gate → Gate
unfolding wake_next
wake_free zero g = g
wake_free (suc n) g =
    let next = wake_free n (wake_next g) in
    if ltb 0 g.value && has_pending g.waiters then next else g

-- `Semaphore.release()`
unfoldable pub release : Gate → Gate
unfolding wake_next
release g = wake_next (record g { value = suc g.value })

-- A request is past the semaphore: it waits no more, and is active.
unfoldable pub start : Gate → Gate
start g = record g { waiting = g.waiting - 1; active = suc g.active }

-- `slot()` up to the first await: the queue is full, there is a permit, or the request waits.
unfoldable pub enter : ℕ → Gate → Result Gate
unfolding locked start
enter request g =
    if locked g && leb g.queue_limit g.waiting
    then err Error.llm_queue_full
    else (let counted = record g { waiting = suc g.waiting } in
        ok (
          if locked g
          then record counted {
            waiters = g.waiters ++ (record { request = request; future = Future.pending } ∷ []);
          }
          else start (record counted { value = g.value - 1 })))

-- The timeout of `wait_for` cancels the future, or the request whose future is set already.
abbrev pub cancel_future : Future → Future
cancel_future Future.pending = Future.cancelled
cancel_future Future.woken = Future.revoked
cancel_future Future.cancelled = Future.cancelled
cancel_future Future.revoked = Future.revoked

unfoldable pub cancel_waiter : ℕ → List Waiter → List Waiter
cancel_waiter request [] = []
cancel_waiter request (w ∷ ws) =
    if w.request == request
    then record w { future = cancel_future w.future } ∷ ws
    else w ∷ cancel_waiter request ws

unfoldable pub expire : ℕ → Gate → Gate
unfolding cancel_waiter
expire request g = record g { waiters = cancel_waiter request g.waiters }

abbrev pub behind : Waiter → Option (Future × List Waiter) → Option (Future × List Waiter)
behind w none = none
behind w (some (f, ws)) = some (f, w ∷ ws)

-- The future of a request whose future is done, taken out of the semaphore's.
unfoldable pub take_out : ℕ → List Waiter → Option (Future × List Waiter)
take_out request [] = none
take_out request (w ∷ ws) =
    if w.request == request && not (is_pending w.future)
    then some (w.future, ws)
    else behind w (take_out request ws)

-- The rest of `acquire()` and what follows in `slot()`: with the permit of its future the request
-- starts; a cancelled one gives back the permit it may have got and raises.
unfoldable pub go_on : Future → Gate → Result (Unit {0}) × Gate
unfolding wake_free start
go_on Future.woken g = (ok tt, start (wake_free g.value g))
go_on Future.revoked g =
    let given = record g { value = suc g.value } in
    let next = wake_free given.value given in
    (err Error.llm_queue_timeout, record next { waiting = next.waiting - 1 })
go_on Future.cancelled g =
    let next = wake_free g.value g in
    (err Error.llm_queue_timeout, record next { waiting = next.waiting - 1 })
go_on Future.pending g = (ok tt, g)

unfoldable pub resume : ℕ → Gate → Option (Result (Unit {0}) × Gate)
unfolding take_out go_on
resume request g = elim (take_out request g.waiters) [
  | none ↦ none
  | some (f, ws) ↦ some (go_on f (record g { waiters = ws }))
]

-- The end of the `with` block of an active request.
unfoldable pub leave : Gate → Gate
unfolding release
leave g = release (record g { active = g.active - 1 })
