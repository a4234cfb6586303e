-- ===== src/Broker/Removal.antt =====
-- Unsubscribe and Shutdown of api/internal/broker/broker.go, with the broker's invariant.
use taillight.Base.{
  ℕ, ◌-◌, ◌≡◌, refl, true, text_eq_iff, [], ◌∷◌, none, some, arith, Bool-cases, ◌==◌, Option-cases,
  inl, inr,
}
use taillight.Base.Assoc.{
  Assoc, lookup, insert, total, text_eq_keys, nat_eq, lookup-insert, lookup-insert_self, Distinct,
  lookup-delete_ne, lookup-delete_self, insert-Distinct, delete-Distinct, total-delete, Every,
  delete-Every, lookup-Every,
}
use taillight.Broker.{
  Broker, Subscription, count_of, dec_client, close, release, unsubscribe, close_all, shutdown,
}
use taillight.Broker.Invariant.{IsWellFormed, IsLive, Counts, has_key}

module _ {F : Type 0} where
  -- Dropping a subscription and its connection keeps every client's count.
  counted-release :
      (i : ℕ) (s c : Subscription F) (b : Broker F)
      → IsWellFormed b
      → lookup i b.subscribers ≡ some s
      → Counts (release i s c b).subscribers (release i s c b).by_client
  unfolding release dec_client
  counted-release i s c b w found k named = ground (
    arith,
    total-delete (has_key k) i b.subscribers,
    lookup-insert s.client_key k (count_of s.client_key b.by_client - 1) b.by_client,
    lookup-delete_ne s.client_key k b.by_client,
    lookup-delete_self s.client_key b.by_client w.counts_distinct,
    text_eq_iff s.client_key k,
    w.counted k named,
  )

  release-IsWellFormed :
      (i : ℕ) (s c : Subscription F) (b : Broker F)
      → IsWellFormed b
      → lookup i b.subscribers ≡ some s
      → IsWellFormed (release i s c b)
  unfolding release dec_client
  release-IsWellFormed i s c b w found = record {
    distinct = delete-Distinct i b.subscribers w.distinct;
    below = delete-Every _ i b.subscribers w.below;
    live = delete-Every _ i b.subscribers w.live;
    counts_distinct = ground (
      arith,
      w.counts_distinct,
      delete-Distinct s.client_key b.by_client w.counts_distinct,
      insert-Distinct s.client_key (count_of s.client_key b.by_client - 1) b.by_client
          w.counts_distinct,
    );
    counted = unfold release in counted-release i s c b w found;
    at_most = omega (arith, total-delete (λ _. 1) i b.subscribers, w.at_most);
    capped = λ k named. omega (arith, total-delete (has_key k) i b.subscribers, w.capped k named);
  }

  -- On a well-formed broker, unsubscribing never panics, and gives a well-formed broker
  -- without the subscription.
  pub unsubscribe-IsWellFormed :
      (i : ℕ) (b : Broker F)
      → IsWellFormed b
      → (b' : Broker F) × (unsubscribe i b ≡ some b')
        × IsWellFormed b'
        × (lookup i b'.subscribers ≡ none)
  unfolding unsubscribe
  unsubscribe-IsWellFormed i b w = elim (Option-cases (lookup i b.subscribers)) [
    | inl gone ↦ (b, rw (gone, unsubscribe), w, gone)
    | inr (s, found) ↦ (
      release i s (record s { closed = true }) b,
      unfold close in
          ground (arith, (lookup-Every (λ _ x. IsLive x) i s b.subscribers w.live found).is_open),
      release-IsWellFormed i s _ b w found,
      unfold release in lookup-delete_self i b.subscribers w.distinct,
    )
  ]

  -- A registry takes over what it is given, and keeps the keys that it is not given.
  close_all-total :
      (m released : Assoc ℕ (Subscription F))
      → Distinct m
      → Every (λ _ s. IsLive s) m
      → (r : Assoc ℕ (Subscription F)) × (close_all m released ≡ some r)
        × ((i : ℕ) (s : Subscription F)
            → lookup i m ≡ some s
            → lookup i r ≡ some (record s { closed = true }))
        × ((i : ℕ) → lookup i m ≡ none → lookup i r ≡ lookup i released)
  unfolding close_all lookup
  close_all-total [] released d h = (released, refl, λ i s found. cc, λ i gone. refl)
  close_all-total ((j, s) ∷ m) released d h =
      let c = record s { closed = true } in
      let (r, done, moved, kept) = close_all-total m (insert j c released) d.1 h.1 in
      (
        r,
        unfold close in ground (arith, done, h.0.is_open),
        λ i t found. elim (Bool-cases (j == i)) [
          | inl here ↦ ground (arith, kept i, lookup-insert_self j c released, d.0)
          | inr other ↦ moved i t (ground arith)
        ],
        λ i gone. ground (arith, kept i, lookup-insert j i c released),
      )

  -- On a well-formed broker, a shutdown does not panic: it closes the channel of every
  -- subscription there was, with what waits in it kept, and leaves a well-formed broker with no
  -- subscription. The other channels that were closed before stay as they are.
  pub shutdown-IsWellFormed :
      (b : Broker F)
      → IsWellFormed b
      → (b' : Broker F) × (shutdown b ≡ some b')
        × IsWellFormed b'
        × (b'.subscribers ≡ [])
        × ((i : ℕ) (s : Subscription F)
            → lookup i b.subscribers ≡ some s
            → lookup i b'.released ≡ some (record s { closed = true }))
        × ((i : ℕ) → lookup i b.subscribers ≡ none → lookup i b'.released ≡ lookup i b.released)
  unfolding shutdown
  shutdown-IsWellFormed b w =
      let (released, done, moved, kept) =
        close_all-total b.subscribers b.released w.distinct w.live in
      (
        record b { subscribers = []; released = released; by_client = [] },
        rw (done, shutdown),
        record {
          distinct = tt;
          below = tt;
          live = tt;
          counts_distinct = tt;
          counted = λ k named. unfold total lookup in refl;
          at_most = unfold total in omega arith;
          capped = λ k named. unfold total in omega arith;
        },
        refl,
        moved,
        kept,
      )
