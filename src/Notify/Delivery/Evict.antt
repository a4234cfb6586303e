-- ===== src/Notify/Delivery/Evict.antt =====
-- Eviction of the rate limiters and circuit breakers that nobody used for a while
-- (api/internal/notification/ratelimit.go and engine.go).
use taillight.Base.{ℕ, ◌-◌, ◌≡◌, refl, if◌then◌else◌, ltb, [], ◌∷◌, Option, none, some, arith}
use taillight.Base.Assoc.{Assoc, lookup, nat_eq, Distinct}
use taillight.Notify.Delivery.{evict_older_than}

-- An entry that is not older than the ttl.
abbrev pub if_fresh : {V : Type 0} → (V → ℕ) → ℕ → ℕ → Option V → Option V
if_fresh last_used now ttl none = none
if_fresh last_used now ttl (some v) = if ltb ttl (now - last_used v) then none else some v

-- After an eviction a key finds its entry if it was used within the ttl, and nothing otherwise; in
-- a map where every key stands once.
pub lookup-evict_older_than :
    {V : Type 0} (last_used : V → ℕ) (now ttl id : ℕ) (m : Assoc ℕ V)
    → Distinct m
    → lookup id (evict_older_than last_used now ttl m) ≡ if_fresh last_used now ttl (lookup id m)
unfolding lookup evict_older_than
lookup-evict_older_than last_used now ttl id [] d = refl
lookup-evict_older_than last_used now ttl id ((k, v) ∷ m) d =
    ground (arith, lookup-evict_older_than last_used now ttl id m d.1, d.0)
