-- ===== src/Bridge/Marking.antt =====
-- The sinks of a dispatch and the mute rules (api/internal/ingestbridge/bridge.go).
use taillight.Base.{
  ℕ, Bool, true, false, ◌&&◌, if◌then◌else◌, Text, text_eq, List, [], ◌∷◌, Option, none, some, ◌≡◌,
  refl, ap, arith,
}
use taillight.Model.Event.{SrvlogEvent, NetlogEvent}
use taillight.Model.Unicode.{Unicode}
use taillight.Model.Filter.{srvlog_matches, netlog_matches}
use taillight.Mute.{
  Rule, MuteSet, Snapshot, snapshot, replace, active, match_srvlog, match_netlog, srvlog_filter,
  netlog_filter, feed_srvlog, feed_netlog,
}
use taillight.Mute.Lowest.{is_some, lowest_id, match_event-lowest}
use taillight.Bridge.{
  Notification, EventFetcher, Muter, Sinks, Effect, broadcast_srvlog_call, notify_srvlog_call,
  broadcast_netlog_call, notify_netlog_call, mark_srvlog, mark_netlog, fan_out, dispatch,
  channel_srvlog, channel_netlog,
}

-- mute.Set as the bridge's Muter, at an instant.
abbrev pub muter_at : Unicode → Snapshot → Muter
muter_at u at = record { match_srvlog = match_srvlog u at; match_netlog = match_netlog u at }

-- The events that the effects hand to each sink.
abbrev pub notified_srvlog : List Effect → List SrvlogEvent
notified_srvlog [] = []
notified_srvlog (notify_srvlog_call e ∷ effects) = e ∷ notified_srvlog effects
notified_srvlog (broadcast_srvlog_call e ∷ effects) = notified_srvlog effects
notified_srvlog (broadcast_netlog_call e ∷ effects) = notified_srvlog effects
notified_srvlog (notify_netlog_call e ∷ effects) = notified_srvlog effects

abbrev pub notified_netlog : List Effect → List NetlogEvent
notified_netlog [] = []
notified_netlog (notify_netlog_call e ∷ effects) = e ∷ notified_netlog effects
notified_netlog (broadcast_srvlog_call e ∷ effects) = notified_netlog effects
notified_netlog (broadcast_netlog_call e ∷ effects) = notified_netlog effects
notified_netlog (notify_srvlog_call e ∷ effects) = notified_netlog effects

abbrev pub broadcast_srvlog_of : List Effect → List SrvlogEvent
broadcast_srvlog_of [] = []
broadcast_srvlog_of (broadcast_srvlog_call e ∷ effects) = e ∷ broadcast_srvlog_of effects
broadcast_srvlog_of (notify_srvlog_call e ∷ effects) = broadcast_srvlog_of effects
broadcast_srvlog_of (broadcast_netlog_call e ∷ effects) = broadcast_srvlog_of effects
broadcast_srvlog_of (notify_netlog_call e ∷ effects) = broadcast_srvlog_of effects

abbrev pub broadcast_netlog_of : List Effect → List NetlogEvent
broadcast_netlog_of [] = []
broadcast_netlog_of (broadcast_netlog_call e ∷ effects) = e ∷ broadcast_netlog_of effects
broadcast_netlog_of (notify_srvlog_call e ∷ effects) = broadcast_netlog_of effects
broadcast_netlog_of (broadcast_srvlog_call e ∷ effects) = broadcast_netlog_of effects
broadcast_netlog_of (notify_netlog_call e ∷ effects) = broadcast_netlog_of effects

-- A fetched row that no rule mutes.
abbrev pub unmuted : (SrvlogEvent → Option ℕ) → Option SrvlogEvent → List SrvlogEvent
unmuted rule none = []
unmuted rule (some e) = if is_some (rule e) then [] else record e { muted_by = none } ∷ []

-- A fetched row with its mark.
abbrev pub marked : (SrvlogEvent → Option ℕ) → Option SrvlogEvent → List SrvlogEvent
marked rule none = []
marked rule (some e) = record e { muted_by = rule e } ∷ []

channels_differ : (t : Text) → text_eq t channel_srvlog ≡ true → text_eq t channel_netlog ≡ false
unfolding text_eq
channels_differ [] h = refl
channels_differ (c ∷ t) h = ground arith

-- What a fan-out hands to the sinks, by its mark.
fan_out-srvlog :
    (e : SrvlogEvent) (has : Bool) (o : Option ℕ)
    → let effects =
        fan_out has broadcast_srvlog_call notify_srvlog_call (record e { muted_by = o }) in
      (notified_srvlog effects
        ≡ (if has then if is_some o then [] else record e { muted_by = none } ∷ [] else []))
      × (notified_netlog effects ≡ [])
      × (broadcast_srvlog_of effects ≡ record e { muted_by = o } ∷ [])
      × (broadcast_netlog_of effects ≡ [])
unfolding fan_out
fan_out-srvlog e true none = (refl, refl, refl, refl)
fan_out-srvlog e true (some r) = (refl, refl, refl, refl)
fan_out-srvlog e false none = (refl, refl, refl, refl)
fan_out-srvlog e false (some r) = (refl, refl, refl, refl)

fan_out-netlog :
    (e : NetlogEvent) (has : Bool) (o : Option ℕ)
    → let effects =
        fan_out has broadcast_netlog_call notify_netlog_call (record e { muted_by = o }) in
      (notified_netlog effects
        ≡ (if has then if is_some o then [] else record e { muted_by = none } ∷ [] else []))
      × (notified_srvlog effects ≡ [])
      × (broadcast_netlog_of effects ≡ record e { muted_by = o } ∷ [])
      × (broadcast_srvlog_of effects ≡ [])
unfolding fan_out
fan_out-netlog e true none = (refl, refl, refl, refl)
fan_out-netlog e true (some r) = (refl, refl, refl, refl)
fan_out-netlog e false none = (refl, refl, refl, refl)
fan_out-netlog e false (some r) = (refl, refl, refl, refl)

-- What a set of rules does to a row: it is marked with the lowest id of the rules that mute it.
module _ (u : Unicode) (rules : List Rule) (s : MuteSet) (now : ℕ) where
  abbrev pub at : Snapshot
  at = snapshot (replace rules s) now

  abbrev pub srvlog_rule : SrvlogEvent → Option ℕ
  srvlog_rule e =
      lowest_id (λ r. active at feed_srvlog r && srvlog_matches u (srvlog_filter r) e) rules

  abbrev pub netlog_rule : NetlogEvent → Option ℕ
  netlog_rule e =
      lowest_id (λ r. active at feed_netlog r && netlog_matches u (netlog_filter r) e) rules

  mark_srvlog-rule :
      (e : SrvlogEvent)
      → mark_srvlog (some (muter_at u at)) e ≡ record e { muted_by = srvlog_rule e }
  unfolding mark_srvlog match_srvlog
  mark_srvlog-rule e =
      ap (λ o. record e { muted_by = o })
        (match_event-lowest srvlog_filter (srvlog_matches u) rules s now feed_srvlog e)

  mark_netlog-rule :
      (e : NetlogEvent)
      → mark_netlog (some (muter_at u at)) e ≡ record e { muted_by = netlog_rule e }
  unfolding mark_netlog match_netlog
  mark_netlog-rule e =
      ap (λ o. record e { muted_by = o })
        (match_event-lowest netlog_filter (netlog_matches u) rules s now feed_netlog e)

  -- The three ways a dispatch goes, with the marks computed from the rules.
  abbrev effects_of :
      Bool
      → (SrvlogEvent → Effect)
      → (SrvlogEvent → Effect)
      → (SrvlogEvent → Option ℕ)
      → Option SrvlogEvent
      → List Effect
  effects_of has broadcast notify rule none = []
  effects_of has broadcast notify rule (some e) =
      fan_out has broadcast notify (record e { muted_by = rule e })

  row-srvlog :
      (has : Bool) (row : Option SrvlogEvent)
      → (elim row [
        | none ↦ []
        | some e ↦
            fan_out has broadcast_srvlog_call notify_srvlog_call
              (mark_srvlog (some (muter_at u at)) e)
      ])
        ≡ effects_of has broadcast_srvlog_call notify_srvlog_call srvlog_rule row
  row-srvlog has none = refl
  row-srvlog has (some e) =
      ap (fan_out has broadcast_srvlog_call notify_srvlog_call) (mark_srvlog-rule e)

  row-netlog :
      (has : Bool) (row : Option NetlogEvent)
      → (elim row [
        | none ↦ []
        | some e ↦
            fan_out has broadcast_netlog_call notify_netlog_call
              (mark_netlog (some (muter_at u at)) e)
      ])
        ≡ effects_of has broadcast_netlog_call notify_netlog_call netlog_rule row
  row-netlog has none = refl
  row-netlog has (some e) =
      ap (fan_out has broadcast_netlog_call notify_netlog_call) (mark_netlog-rule e)

  dispatch-marked :
      (n : Notification) (f : EventFetcher) (k : Sinks)
      → dispatch n f (some (muter_at u at)) k ≡ (
          if text_eq n.channel channel_srvlog
          then if k.broadcast_srvlog
            then effects_of k.notify_srvlog broadcast_srvlog_call notify_srvlog_call srvlog_rule
                (f.get_srvlog n.id)
            else []
          else if text_eq n.channel channel_netlog
          then if k.broadcast_netlog
            then effects_of k.notify_netlog broadcast_netlog_call notify_netlog_call netlog_rule
                (f.get_netlog n.id)
            else []
          else [])
  unfolding dispatch
  dispatch-marked n f k =
      rw
        (
          row-srvlog k.notify_srvlog (f.get_srvlog n.id),
          row-netlog k.notify_netlog (f.get_netlog n.id),
        )
        refl

  effects_of-srvlog :
      (has : Bool) (row : Option SrvlogEvent)
      → let effects = effects_of has broadcast_srvlog_call notify_srvlog_call srvlog_rule row in
        (notified_srvlog effects ≡ (if has then unmuted srvlog_rule row else []))
        × (notified_netlog effects ≡ [])
        × (broadcast_srvlog_of effects ≡ marked srvlog_rule row)
        × (broadcast_netlog_of effects ≡ [])
  effects_of-srvlog true none = (refl, refl, refl, refl)
  effects_of-srvlog false none = (refl, refl, refl, refl)
  effects_of-srvlog has (some e) = fan_out-srvlog e has (srvlog_rule e)

  effects_of-netlog :
      (has : Bool) (row : Option NetlogEvent)
      → let effects = effects_of has broadcast_netlog_call notify_netlog_call netlog_rule row in
        (notified_netlog effects ≡ (if has then unmuted netlog_rule row else []))
        × (notified_srvlog effects ≡ [])
        × (broadcast_netlog_of effects ≡ marked netlog_rule row)
        × (broadcast_srvlog_of effects ≡ [])
  effects_of-netlog true none = (refl, refl, refl, refl)
  effects_of-netlog false none = (refl, refl, refl, refl)
  effects_of-netlog has (some e) = fan_out-netlog e has (netlog_rule e)

  -- After the given rules are swapped in, a dispatch hands the engine exactly this: the row
  -- of the notification's feed, if the feed is broadcast, it has an engine, its row is
  -- fetched, and no active rule of that feed matches the row. This holds for both feeds, so
  -- an unknown channel notifies nothing.
  pub dispatch_notifies :
      (n : Notification) (f : EventFetcher) (k : Sinks)
      → let effects = dispatch n f (some (muter_at u at)) k in
        (notified_srvlog effects ≡ (
          if text_eq n.channel channel_srvlog && k.broadcast_srvlog && k.notify_srvlog
          then unmuted srvlog_rule (f.get_srvlog n.id)
          else []))
        × (notified_netlog effects ≡ (
            if text_eq n.channel channel_netlog && k.broadcast_netlog && k.notify_netlog
            then unmuted netlog_rule (f.get_netlog n.id)
            else []))
  dispatch_notifies n f k = rw dispatch-marked (
      ground (
        arith,
        channels_differ n.channel,
        effects_of-srvlog k.notify_srvlog (f.get_srvlog n.id),
        effects_of-netlog k.notify_netlog (f.get_netlog n.id),
      ))

  -- After the given rules are swapped in, a dispatch broadcasts exactly the fetched row of the
  -- notification's feed, if the feed is broadcast, marked with the lowest id of the active rules
  -- of that feed that match it, muted or not.
  pub dispatch_broadcasts :
      (n : Notification) (f : EventFetcher) (k : Sinks)
      → let effects = dispatch n f (some (muter_at u at)) k in
        (broadcast_srvlog_of effects ≡ (
          if text_eq n.channel channel_srvlog && k.broadcast_srvlog
          then marked srvlog_rule (f.get_srvlog n.id)
          else []))
        × (broadcast_netlog_of effects ≡ (
            if text_eq n.channel channel_netlog && k.broadcast_netlog
            then marked netlog_rule (f.get_netlog n.id)
            else []))
  dispatch_broadcasts n f k = rw dispatch-marked (
      ground (
        arith,
        channels_differ n.channel,
        effects_of-srvlog k.notify_srvlog (f.get_srvlog n.id),
        effects_of-netlog k.notify_netlog (f.get_netlog n.id),
      ))
