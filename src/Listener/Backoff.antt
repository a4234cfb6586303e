-- ===== src/Listener/Backoff.antt =====
-- The waits between reconnections (api/internal/postgres/listener.go).
use taillight.Base.{
  ℕ, zero, suc, ◌+◌, ◌*◌, ◌/◌, ◌%◌, ◌≤◌, ◌<◌, ◌≡◌, refl, if◌then◌else◌, ltb, List, [], ◌∷◌, some,
  All, arith,
}
use taillight.Listener.{
  Attempt, Reconnected, connected, gave_up, pending, int64_n, with_jitter, next_backoff,
  reconnect_from, reconnect,
}

-- From a second up to 45 of them.
abbrev pub IsWait : ℕ → Type 0
IsWait w = (1000000000 ≤ w) × (w < 45000000000)

int64_n_below : (random n : ℕ) → 0 < n → (m : ℕ) × (int64_n random n ≡ some m) × (m < n)
int64_n_below random zero h = elim h [ ]
int64_n_below random (suc n) h = (random % suc n, refl, omega arith)

with_jitter-IsWait :
    (random backoff : ℕ)
    → 1000000000 ≤ backoff
    → backoff ≤ 30000000000
    → (next : ℕ) × (with_jitter random backoff ≡ some next) × IsWait next
with_jitter-IsWait random backoff low high =
    let (jitter, drawn, small) = int64_n_below random (backoff / 2) (omega arith) in
    (backoff + jitter, rw (drawn, with_jitter) refl, omega arith)

next_backoff-IsWait :
    (random backoff : ℕ)
    → IsWait backoff
    → (next : ℕ) × (next_backoff random backoff ≡ some next) × IsWait next
unfolding next_backoff
next_backoff-IsWait random backoff w =
    with_jitter-IsWait random (if ltb 30000000000 (backoff * 2) then 30000000000 else backoff * 2)
      (ground arith) (ground arith)

-- The first round at which the context has ended or the connection is made.
abbrev pub first_end : List Attempt → Reconnected
first_end [] = pending
first_end (a ∷ attempts) =
    let later = first_end attempts in
    if a.cancelled then gave_up else if a.connects then connected else later

reconnect_from_waits :
    (backoff : ℕ) (attempts : List Attempt)
    → IsWait backoff
    → All IsWait (reconnect_from backoff attempts).0
      × ((reconnect_from backoff attempts).1 ≡ first_end attempts)
unfolding reconnect_from
reconnect_from_waits backoff [] w = (tt, refl)
reconnect_from_waits backoff (a ∷ attempts) w =
    let (next, found, w2) = next_backoff-IsWait a.random backoff w in
    rw (found, reconnect_from) (ground (arith, reconnect_from_waits next attempts w2))

-- Reconnecting ends at the first round at which the context has ended or the connection is made,
-- whatever the jitter, which is never drawn from an empty range; and every wait before a round is at
-- least a second and less than 45 seconds.
pub reconnect_ends :
    (attempts : List Attempt)
    → All IsWait (reconnect attempts).0 × ((reconnect attempts).1 ≡ first_end attempts)
unfolding reconnect
reconnect_ends attempts = reconnect_from_waits 1000000000 attempts (omega arith)
