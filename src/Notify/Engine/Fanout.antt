-- ===== src/Notify/Engine/Fanout.antt =====
-- An event and the engine: its rules and its dispatch channel
-- (api/internal/notification/engine.go).
use taillight.Base.{
  ℕ, ◌≤◌, ◌≡◌, refl, Bool, true, not, ◌&&◌, ◌||◌, if◌then◌else◌, ltb, ◌==◌, Text, text_eq, List, [],
  ◌∷◌, Option, none, some, length, any, All, All-append, arith, Bool-cases, inl, inr, length-append,
}
use taillight.Notify.Types.{Channel, Rule, Payload}
use taillight.Notify.Suppressor.{Flush, record_match}
use taillight.Notify.Suppressor.Invariant.{IsConsistent, record_match-IsConsistent}
use taillight.Notify.Engine.{
  Engine, DispatchJob, windows_for, resolve_channels, find_rule, enqueue, on_flush, flush_with,
  record_with, payload_of, walk_rules, handle_event,
}

-- A job has a channel to send to, and sends only to channels of its rule.
abbrev pub IsDeliverable : DispatchJob → Type 0
IsDeliverable job =
    (1 ≤ length job.channels)
    × All (λ ch. any (λ id. id == ch.id) job.rule.channel_ids ≡ true) job.channels

-- The suppressor is consistent, the dispatch channel holds no more than its buffer, and every job
-- on it can be delivered.
pub record IsSound (e : Engine) : Type 0 where
  pub consistent : IsConsistent e.suppressor
  pub bounded : length e.dispatch_queue ≤ e.cfg.dispatch_buffer
  pub deliverable : All IsDeliverable e.dispatch_queue

resolve_channels-listed :
    (ids : List ℕ) (channels : List Channel)
    → All (λ ch. any (λ id. id == ch.id) ids ≡ true) (resolve_channels ids channels)
unfolding resolve_channels
resolve_channels-listed ids [] = tt
resolve_channels-listed ids (ch ∷ channels) = elim (Bool-cases (any (λ id. id == ch.id) ids)) [
  | inl listed ↦ rw listed (listed, resolve_channels-listed ids channels)
  | inr other ↦ rw other (resolve_channels-listed ids channels)
]

enqueue-IsSound :
    (job : DispatchJob) (e : Engine) → IsDeliverable job → IsSound e → IsSound (enqueue job e)
unfolding enqueue
enqueue-IsSound job e d s =
    elim (Bool-cases (ltb (length e.dispatch_queue) e.cfg.dispatch_buffer)) [
      | inl space ↦ rw space (record {
        consistent = s.consistent;
        bounded = rw (length-append e.dispatch_queue (job ∷ [])) (ground arith);
        deliverable = All-append IsDeliverable e.dispatch_queue (job ∷ []) s.deliverable (d, tt);
      })
      | inr full ↦
          rw full
            (record { consistent = s.consistent; bounded = s.bounded; deliverable = s.deliverable })
    ]

on_flush-IsSound : (f : Flush) (e : Engine) → IsSound e → IsSound (on_flush f e)
unfolding on_flush
on_flush-IsSound f e s =
    let rule = find_rule f.rule_id e.rules in
    let channels = resolve_channels rule.channel_ids e.channels in
    elim (Bool-cases (length channels == 0)) [
      | inl nobody ↦ rw nobody s
      | inr somebody ↦ rw somebody (
          enqueue-IsSound _ e (ground arith, resolve_channels-listed rule.channel_ids e.channels) s)
    ]

flush_with-IsSound : (o : Option Flush) (e : Engine) → IsSound e → IsSound (flush_with o e)
flush_with-IsSound none e s = s
flush_with-IsSound (some f) e s = on_flush-IsSound f e s

record_with-IsSound :
    (r : Rule) (group_key : Text) (payload : Payload) (e : Engine)
    → IsSound e
    → IsSound (record_with r group_key payload e)
unfolding record_with
record_with-IsSound r group_key payload e s =
    let w = windows_for e.cfg r in
    let out = record_match r.id group_key w.0 w.1 w.2 payload e.suppressor in
    flush_with-IsSound out.1 (record e { suppressor = out.0 })
      (record {
        consistent =
            record_match-IsConsistent r.id group_key w.0 w.1 w.2 payload e.suppressor s.consistent;
        bounded = s.bounded;
        deliverable = s.deliverable;
      })

module _ {E : Type 0} (kind : Text) (matches : Rule → E → Bool) (group_key : Rule → E → Text)
    (timestamp : ℕ) (attach : Payload → E → Payload) where
  walk_rules-IsSound :
      (rules : List Rule) (event : E) (e : Engine)
      → IsSound e
      → IsSound (walk_rules kind matches group_key timestamp attach rules event e)
  unfolding walk_rules
  walk_rules-IsSound [] event e s = s
  walk_rules-IsSound (r ∷ rules) event e s =
      elim (Bool-cases (not r.enabled || not (text_eq r.event_kind kind))) [
        | inl off ↦ rw off (walk_rules-IsSound rules event e s)
        | inr on ↦ rw on (elim (Bool-cases (matches r event)) [
          | inl hit ↦ rw hit (walk_rules-IsSound rules event _ (record_with-IsSound r _ _ e s))
          | inr miss ↦ rw miss (walk_rules-IsSound rules event e s)
        ])
      ]

  -- An event of any feed keeps the engine sound: the suppressor consistent, the dispatch
  -- channel within its buffer, and every waiting job with at least one channel, all of them
  -- its rule's.
  pub handle_event-IsSound :
      (event : E) (e : Engine)
      → IsSound e
      → IsSound (handle_event kind matches group_key timestamp attach event e)
  unfolding handle_event
  handle_event-IsSound event e s = walk_rules-IsSound e.rules event e s

  -- The rules of the cache that an event matches.
  abbrev pub matching : List Rule → E → List Rule
  matching [] event = []
  matching (r ∷ rules) event =
      if r.enabled && text_eq r.event_kind kind && matches r event
      then r ∷ matching rules event
      else matching rules event

  abbrev pub record_all : List Rule → E → Engine → Engine
  record_all [] event e = e
  record_all (r ∷ rules) event e = record_all rules event (
      record_with r (group_key r event) (payload_of kind matches group_key timestamp attach r event)
        e)

  walk_rules-matching :
      (rules : List Rule) (event : E) (e : Engine)
      → walk_rules kind matches group_key timestamp attach rules event e
        ≡ record_all (matching rules event) event e
  unfolding walk_rules
  walk_rules-matching [] event e = refl
  walk_rules-matching (r ∷ rules) event e = ground (
    arith,
    walk_rules-matching rules event e,
    walk_rules-matching rules event (
        record_with r (group_key r event)
          (payload_of kind matches group_key timestamp attach r event) e),
  )

  -- An event is recorded once with each enabled rule of its kind that matches it, in the order of
  -- the cache, and with no other rule.
  pub handle_event-matching :
      (event : E) (e : Engine)
      → handle_event kind matches group_key timestamp attach event e
        ≡ record_all (matching e.rules event) event e
  unfolding handle_event
  handle_event-matching event e = walk_rules-matching e.rules event e
