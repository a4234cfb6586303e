-- ===== src/Broker/Invariant.antt =====
-- The invariant of the broker of api/internal/broker/broker.go, and Subscribe.
use taillight.Base.{
  ℕ, suc, ◌+◌, ◌≤◌, ◌<◌, ◌≡◌, refl, false, not, ◌&&◌, if◌then◌else◌, leb, Text, text_eq,
  text_eq_iff, is_empty, length, arith, Bool-cases, inl, inr,
}
use taillight.Base.Assoc.{
  Assoc, lookup, insert, total, text_eq_keys, nat_eq, Distinct, lookup-insert, insert-Distinct,
  total-insert, Every, insert-Every, Every-map, lookup_fresh,
}
use taillight.Broker.{
  Broker, Subscription, count_of, new, len, admit, subscribe, fresh_subscription,
}

-- 1 if the subscription belongs to the client: its total is the client's connection count.
abbrev pub has_key : {F : Type 0} → Text → Subscription F → ℕ
has_key k s = if text_eq s.client_key k then 1 else 0

-- A subscription that the broker may send on: open, and within its channel's capacity.
pub record IsLive {F : Type 0} (s : Subscription F) : Type 0 where
  pub is_open : s.closed ≡ false
  pub fits : length s.buffer ≤ 512

abbrev pub Counts : {F : Type 0} → Assoc ℕ (Subscription F) → Assoc Text ℕ → Type 0
Counts m c = (k : Text) → is_empty k ≡ false → count_of k c ≡ total (has_key k) m

abbrev pub Capped : {F : Type 0} → Assoc ℕ (Subscription F) → Type 0
Capped m = (k : Text) → is_empty k ≡ false → total (has_key k) m ≤ 20

pub record IsWellFormed {F : Type 0} (b : Broker F) : Type 0 where
  pub distinct : Distinct b.subscribers
  pub below : Every (λ i _. i < b.next) b.subscribers
  pub live : Every (λ _ s. IsLive s) b.subscribers
  pub counts_distinct : Distinct b.by_client
  pub counted : Counts b.subscribers b.by_client
  pub at_most : total (λ _. 1) b.subscribers ≤ 1000
  pub capped : Capped b.subscribers

module _ {F : Type 0} where
  pub new-IsWellFormed : IsWellFormed (new {F = F})
  unfolding new
  new-IsWellFormed = record {
    distinct = tt;
    below = tt;
    live = tt;
    counts_distinct = tt;
    counted = λ k named. unfold total lookup in refl;
    at_most = unfold total in omega arith;
    capped = λ k named. unfold total in omega arith;
  }

  -- The new pointer is unused, so every count grows by the new subscription alone.
  total-admit :
      (w : Subscription F → ℕ) (b : Broker F) (s : Subscription F)
      → IsWellFormed b
      → total w (insert b.next s b.subscribers) ≡ total w b.subscribers + w s
  total-admit w b s h =
      ground
        (arith, total-insert w b.next s b.subscribers, lookup_fresh b.next b.subscribers h.below)

  counted-admit :
      (filter : F) (key : Text) (b : Broker F)
      → IsWellFormed b
      → Counts (admit filter key b).subscribers (admit filter key b).by_client
  unfolding admit
  counted-admit filter key b w k named = ground (
    arith,
    total-admit (has_key k) b (fresh_subscription filter key) w,
    lookup-insert key k (count_of key b.by_client + 1) b.by_client,
    text_eq_iff key k,
    w.counted k named,
  )

  Capped-admit :
      (filter : F) (key : Text) (b : Broker F)
      → IsWellFormed b
      → (is_empty key ≡ false → count_of key b.by_client < 20)
      → Capped (admit filter key b).subscribers
  unfolding admit
  Capped-admit filter key b w room k named = ground (
    arith,
    total-admit (has_key k) b (fresh_subscription filter key) w,
    text_eq_iff key k,
    w.counted k named,
    w.capped k named,
    room,
  )

  admit-IsWellFormed :
      (filter : F) (key : Text) (b : Broker F)
      → IsWellFormed b
      → len b < 1000
      → (is_empty key ≡ false → count_of key b.by_client < 20)
      → IsWellFormed (admit filter key b)
  unfolding admit len
  admit-IsWellFormed filter key b w space room = record {
    distinct = insert-Distinct _ _ _ w.distinct;
    below =
        insert-Every (λ i _. i < suc b.next) _ _ _ (omega arith)
          (Every-map (λ i _ h. omega arith) b.subscribers w.below);
    live = insert-Every _ _ _ _ (record { is_open = refl; fits = omega arith }) w.live;
    counts_distinct = ground (
      arith,
      insert-Distinct key (count_of key b.by_client + 1) b.by_client w.counts_distinct,
      w.counts_distinct,
    );
    counted = unfold admit in counted-admit filter key b w;
    at_most = ground (arith, total-admit (λ _. 1) b (fresh_subscription filter key) w);
    capped = Capped-admit filter key b w room;
  }

  -- On a well-formed broker, a registration, granted or refused, leaves it well-formed: at
  -- most 1000 subscriptions and 20 of each named client, with a right count for each, and
  -- every channel open and within its capacity.
  pub subscribe-IsWellFormed :
      (filter : F) (key : Text) (b : Broker F)
      → IsWellFormed b
      → IsWellFormed (subscribe filter key b).0
  unfolding subscribe
  subscribe-IsWellFormed filter key b w = elim (Bool-cases (leb 1000 (len b))) [
    | inl full ↦ rw full w
    | inr space ↦ elim (Bool-cases (not (is_empty key) && leb 20 (count_of key b.by_client))) [
      | inl taken ↦ rw (space, taken) w
      | inr room ↦
          rw (space, room) (admit-IsWellFormed filter key b w (ground arith) (λ n. ground arith))
    ]
  ]
