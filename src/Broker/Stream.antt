-- ===== src/Broker/Stream.antt =====
-- One client's stream over any interleaving of broadcasts and reads of its channel
-- (api/internal/broker/broker.go).
use mathlib.Core.List.{Sublistᴰ}
use mathlib.Core.List.Sublistᴰ
use mathlib.Core.Path.{ap₂}
use taillight.Base.{
  ◌∙◌, ℕ, ◌+◌, ◌≡◌, refl, ap, sym, subst, Bool, if◌then◌else◌, ltb, List, [], ◌∷◌, ◌++◌, Option,
  none, some, length, length-append, append_assoc, append-nil, arith, Bool-cases, inl, inr, ◌⊎◌,
}
use taillight.Broker.{Subscription, Message, receive, offer}
use taillight.Broker.Invariant.{IsLive}
use taillight.Broker.Delivery.{offered, dropped, offer-offered, offered-IsLive}

pub data Happening (E : Type 0) : Type 0 where
  published : E → Happening E
  reads : Happening E

pub record Client (F : Type 0) : Type 0 where
  pub received : List Message
  pub subscription : Subscription F
  pub drops : ℕ

-- What the client has read and what waits in its channel, oldest first.
abbrev pub seen : {F : Type 0} → Client F → List Message
seen c = c.received ++ c.subscription.buffer

Sublistᴰ-insert {ℓ} :
    {A : Type ℓ} {xs : List A} (a : A) (ys zs : List A)
    → Sublistᴰ xs (ys ++ zs)
    → Sublistᴰ xs (ys ++ a ∷ zs)
Sublistᴰ-insert a [] zs h = Sublistᴰ.cons h
Sublistᴰ-insert a (y ∷ ys) zs (Sublistᴰ.cons h) = Sublistᴰ.cons (Sublistᴰ-insert a ys zs h)
Sublistᴰ-insert a (y ∷ ys) zs (Sublistᴰ.cons-cons e h) =
    Sublistᴰ.cons-cons e (Sublistᴰ-insert a ys zs h)

module _ {E F : Type 0} (matches : F → E → Bool) (message : E → Option Message) where
  -- One broadcast as the client meets it, or one read; `none` is a panic.
  step : Happening E → Client F → Option (Client F)
  step (published event) c = elim (message event) [
    | none ↦ some c
    | some msg ↦ elim (offer matches event msg c.subscription) [
      | none ↦ none
      | some (s, d) ↦ some (record c { subscription = s; drops = c.drops + d })
    ]
  ]
  step reads c = elim (receive c.subscription) [
    | none ↦ some c
    | some (msg, s) ↦ some (record c { received = c.received ++ msg ∷ []; subscription = s })
  ]

  unfoldable pub run : List (Happening E) → Client F → Option (Client F)
  unfolding step
  run [] c = some c
  run (h ∷ hs) c = elim (step h c) [ none ↦ none | some c' ↦ run hs c' ]

  -- The message that a happening has for a client with this filter, if any.
  abbrev pub wanted_now : F → Happening E → List Message
  wanted_now filter reads = []
  wanted_now filter (published event) = elim (message event) [
    | none ↦ []
    | some msg ↦ if matches filter event then msg ∷ [] else []
  ]

  -- The messages of the published events that the filter passes, in order.
  abbrev pub wanted : F → List (Happening E) → List Message
  wanted filter [] = []
  wanted filter (h ∷ hs) = wanted_now filter h ++ wanted filter hs

  -- A step keeps the filter and the liveness, and the client sees its wanted message as the
  -- newest, or counts one drop for it.
  abbrev Goes : Happening E → Client F → Client F → Type 0
  Goes h c c' =
      (c'.subscription.filter ≡ c.subscription.filter)
      × IsLive c'.subscription
      × (((seen c' ≡ seen c ++ wanted_now c.subscription.filter h) × (c'.drops ≡ c.drops))
          ⊎ ((msg : Message) × (wanted_now c.subscription.filter h ≡ msg ∷ [])
              × (seen c' ≡ seen c)
              × (c'.drops ≡ c.drops + 1)))

  offered_cases :
      (event : E) (c : Client F) (msg : Message)
      → message event ≡ some msg
      → let s = offered matches event msg c.subscription in
        let d = c.drops + dropped matches event c.subscription in
        ((c.received ++ s.buffer ≡ seen c ++ wanted_now c.subscription.filter (published event))
          × (d ≡ c.drops))
        ⊎ ((m : Message) × (wanted_now c.subscription.filter (published event) ≡ m ∷ [])
            × (c.received ++ s.buffer ≡ seen c)
            × (d ≡ c.drops + 1))
  offered_cases event c msg e = elim (Bool-cases (matches c.subscription.filter event)) [
    | inr other ↦
        inl (ground (arith, append-nil (c.received ++ c.subscription.buffer)), ground arith)
    | inl passed ↦ elim (Bool-cases (ltb (length c.subscription.buffer) 512)) [
      | inl room ↦
          inl
            (ground (arith, append_assoc c.received c.subscription.buffer (msg ∷ [])), ground arith)
      | inr full ↦ inr (msg, ground arith, ground arith, ground arith)
    ]
  ]

  published-Goes :
      (event : E) (c : Client F) (o : Option Message)
      → message event ≡ o
      → IsLive c.subscription
      → (c' : Client F) × (step (published event) c ≡ some c') × Goes (published event) c c'
  unfolding step
  published-Goes event c none e live = (
    c,
    rw (e, step) refl,
    (refl, live, inl (rw (e, wanted_now) (sym (append-nil (seen c))), refl)),
  )
  published-Goes event c (some msg) e live =
      let s = c.subscription in
      let c' = record c {
        subscription = offered matches event msg s;
        drops = c.drops + dropped matches event s;
      } in
      (
        c',
        rw (e, offer-offered matches event msg s live, step) refl,
        (ground arith, offered-IsLive matches event msg s live, offered_cases event c msg e),
      )

  reads-Goes :
      (c : Client F) (waiting : List Message)
      → c.subscription.buffer ≡ waiting
      → IsLive c.subscription
      → (c' : Client F) × (step reads c ≡ some c') × Goes reads c c'
  unfolding step receive
  reads-Goes c [] e live = (c, ground arith, (refl, live, inl (sym (append-nil (seen c)), refl)))
  reads-Goes c (msg ∷ rest) e live = (
    record c {
      received = c.received ++ msg ∷ [];
      subscription = record (c.subscription) { buffer = rest };
    },
    ground arith,
    (
      refl,
      ground arith,
      inl (ground (arith, append_assoc c.received (msg ∷ []) rest, append-nil (seen c)), refl),
    ),
  )

  step-Goes :
      (h : Happening E) (c : Client F)
      → IsLive c.subscription
      → (c' : Client F) × (step h c ≡ some c') × Goes h c c'
  step-Goes (published event) c live = published-Goes event c (message event) refl live
  step-Goes reads c live = reads-Goes c c.subscription.buffer refl live

  -- How a run ends: without a panic, the client having seen a subsequence of what it had seen
  -- and then the wanted messages, in order, and every one missing counted as a drop.
  abbrev pub Ends : List (Happening E) → Client F → Type 0
  Ends hs c =
      (c' : Client F) × (run hs c ≡ some c')
      × Sublistᴰ (seen c') (seen c ++ wanted c.subscription.filter hs)
      × (length (seen c') + c'.drops
          ≡ length (seen c) + c.drops + length (wanted c.subscription.filter hs))

  Ends-step :
      (h : Happening E) (hs : List (Happening E)) (c c1 : Client F)
      → step h c ≡ some c1
      → Goes h c c1
      → Ends hs c1
      → Ends (h ∷ hs) c
  unfolding run
  Ends-step h hs c c1 steps (filter, live, inl (sees, drops)) (c', ends, order, count) = (
    c',
    ground arith,
    subst (Sublistᴰ (seen c'))
        (ap₂ (λ a f. a ++ wanted f hs) sees filter
          ∙ append_assoc (seen c) (wanted_now c.subscription.filter h)
              (wanted c.subscription.filter hs))
        order,
    ground (
      arith,
      ap length sees,
      length-append (seen c) (wanted_now c.subscription.filter h),
      length-append (wanted_now c.subscription.filter h) (wanted c.subscription.filter hs),
      ap (λ f. length (wanted f hs)) filter,
    ),
  )
  Ends-step h hs c c1 steps (filter, live, inr (msg, now, sees, drops)) (c', ends, order, count) = (
    c',
    ground arith,
    rw now (
        Sublistᴰ-insert msg (seen c) (wanted c.subscription.filter hs)
          (subst (Sublistᴰ (seen c')) (ap₂ (λ a f. a ++ wanted f hs) sees filter) order)),
    ground (
      arith,
      ap length sees,
      ap length now,
      length-append (seen c) (wanted_now c.subscription.filter h),
      length-append (wanted_now c.subscription.filter h) (wanted c.subscription.filter hs),
      ap (λ f. length (wanted f hs)) filter,
    ),
  )

  -- For a client with a live subscription, any interleaving of broadcasts and reads goes
  -- without a panic: what the client has read and what waits for it is a subsequence of what
  -- it had before followed by the events that its filter passes, in the order of publication,
  -- and the number missing is the number of drops.
  pub run_in_order : (hs : List (Happening E)) (c : Client F) → IsLive c.subscription → Ends hs c
  unfolding run
  run_in_order [] c live = (c, refl, rw append-nil (Sublistᴰ.refl (seen c)), omega arith)
  run_in_order (h ∷ hs) c live =
      let (c1, steps, goes) = step-Goes h c live in
      Ends-step h hs c c1 steps goes (run_in_order hs c1 goes.1)
