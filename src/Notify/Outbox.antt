-- ===== src/Notify/Outbox.antt =====
-- server/src/notify/outbox-worker.ts: rows of the outbox are leased, delivered, and tried again later.
pub mod Delivery
use cernere.Base.{
  ℕ, zero, suc, ◌+◌, ◌-◌, ◌*◌, ◌/◌, ◌^◌, ◌==◌, ltb, leb, min, ◌&&◌, ◌||◌, not, Bool, true, false,
  Option, none, some, List, [], ◌∷◌, Uuid, if◌then◌else◌, is_none, or_else, update, any, map,
}
use cernere.Notify.Events.{OutboxRow}

abbrev pub batch : ℕ
batch = 20

abbrev pub lease_ms : ℕ
lease_ms = 60000

abbrev pub max_attempts : ℕ
max_attempts = 10

abbrev pub base_delay_ms : ℕ
base_delay_ms = 30000

abbrev pub max_delay_ms : ℕ
max_delay_ms = 60 * 60 * 1000

-- `Math.round(delay * (0.5 + random() / 2))`, with the random number as `r / scale`: the nearest whole
-- number, and of two the larger one.
unfoldable pub backoff_ms : (attempts r scale : ℕ) → ℕ
backoff_ms attempts r scale =
    let delay = min max_delay_ms (base_delay_ms * 2 ^ (attempts - 1)) in
    (delay * (scale + r) + scale) / (2 * scale)

-- The rows that a worker may take.
abbrev pub is_due : ℕ → OutboxRow → Bool
is_due now r =
    is_none r.delivered_at
    && is_none r.failed_at
    && leb r.next_attempt_at now
    && (is_none r.leased_until || ltb (or_else r.leased_until 0) now)

-- `ORDER BY next_attempt_at`.
unfoldable pub insert_due : OutboxRow → List OutboxRow → List OutboxRow
insert_due r [] = r ∷ []
insert_due r (s ∷ rest) =
    if leb r.next_attempt_at s.next_attempt_at then r ∷ s ∷ rest else s ∷ insert_due r rest

unfoldable pub due_rows : ℕ → List OutboxRow → List OutboxRow
unfolding insert_due
due_rows now [] = []
due_rows now (r ∷ rest) =
    if is_due now r then insert_due r (due_rows now rest) else due_rows now rest

unfoldable pub take : ℕ → List OutboxRow → List OutboxRow
take zero rows = []
take (suc n) [] = []
take (suc n) (r ∷ rest) = r ∷ take n rest

abbrev pub leased : ℕ → OutboxRow → OutboxRow
leased now r = record r { leased_until = some (now + lease_ms); attempts = r.attempts + 1 }

-- The rows that are taken, and the table afterwards.
unfoldable pub lease_due : ℕ → List OutboxRow → List OutboxRow × List OutboxRow
unfolding due_rows take
lease_due now rows =
    let taken = take batch (due_rows now rows) in
    (map (leased now) taken, update (λ r. any (λ t. t.id == r.id) taken) (leased now) rows)

-- What a delivery comes to: an error may be permanent, and may name a time to wait.
pub data Outcome : Type 0 where
  sent : Outcome
  failed : (permanent : Bool) (retry_after_ms : Option ℕ) → Outcome

-- A time to wait of zero counts as none.
abbrev retry_delay : Option ℕ → ℕ → ℕ
retry_delay none delay = delay
retry_delay (some zero) delay = delay
retry_delay (some (suc ms)) delay = suc ms

-- What is written into the row after a delivery; `delay` is the backoff.
abbrev pub delivered : ℕ → ℕ → ℕ → Outcome → OutboxRow → OutboxRow
delivered now attempts delay sent r = record r { delivered_at = some now; leased_until = none }
delivered now attempts delay (failed permanent retry_after) r =
    if permanent || leb max_attempts attempts
    then record r { leased_until = none; failed_at = some now }
    else record r { leased_until = none; next_attempt_at = now + retry_delay retry_after delay }

unfoldable pub deliver_one : ℕ → ℕ → ℕ → Outcome → OutboxRow → List OutboxRow → List OutboxRow
unfolding backoff_ms
deliver_one now random scale outcome row rows =
    update (λ r. r.id == row.id)
      (delivered now row.attempts (backoff_ms row.attempts random scale) outcome) rows
