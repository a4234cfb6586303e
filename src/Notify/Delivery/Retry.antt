-- ===== src/Notify/Delivery/Retry.antt =====
-- The log rows and the waits of a delivery (api/internal/notification/engine.go).
use taillight.Base.{
  ℕ, suc, ◌≤◌, ◌≡◌, refl, ap, sym, ◌∙◌, Bool, true, false, Text, codes, List, [], ◌∷◌, some, length,
  arith, Bool-cases, inl, inr, ◌⊎◌,
}
use taillight.Notify.Types.{Channel, Rule, Payload, SendResult, LogEntry}
use taillight.Notify.Delivery.{
  Outside, Action, log_row, wait_for, AttemptStatus, attempt_success, attempt_failed,
  attempt_suppressed, attempts, finish, send_with_retry, row, retry_schedule, reason_of,
}

-- The rows and the waits of a delivery, in their order.
abbrev pub rows : List Action → List LogEntry
rows [] = []
rows (log_row r ∷ acts) = r ∷ rows acts
rows (wait_for d ∷ acts) = rows acts

abbrev pub waits : List Action → List ℕ
waits [] = []
waits (log_row r ∷ acts) = waits acts
waits (wait_for d ∷ acts) = d ∷ waits acts

abbrev pub last_status : List LogEntry → Text
last_status [] = []
last_status (r ∷ []) = r.status
last_status (r ∷ q ∷ rs) = last_status (q ∷ rs)

last_status_cons :
    (r : LogEntry) (rs : List LogEntry) → 1 ≤ length rs → last_status (r ∷ rs) ≡ last_status rs
last_status_cons r [] h = ground arith
last_status_cons r (q ∷ rs) h = refl

-- Every status but the last is a failure.
abbrev pub AllFailedButLast : List LogEntry → Type 0
AllFailedButLast [] = Unit {0}
AllFailedButLast (r ∷ []) = Unit {0}
AllFailedButLast (r ∷ q ∷ rs) = (r.status ≡ codes "failed") × AllFailedButLast (q ∷ rs)

-- One list begins another.
abbrev pub IsPrefix : List ℕ → List ℕ → Type 0
IsPrefix [] ys = Unit {0}
IsPrefix (x ∷ xs) [] = ⊥
IsPrefix (x ∷ xs) (y ∷ ys) = (x ≡ y) × IsPrefix xs ys

module _ {B : Type 0} (o : Outside B) (rule : Rule) (ch : Channel) (payload : Payload) where
  failed_cons :
      (r : LogEntry) (rs : List LogEntry)
      → r.status ≡ codes "failed"
      → AllFailedButLast rs
      → AllFailedButLast (r ∷ rs)
  failed_cons r [] h hs = tt
  failed_cons r (q ∷ rs) h hs = (h, hs)

  -- What an attempt with the delays that are left does.
  IsRun : List ℕ → List Action → Type 0
  IsRun delays acts =
      (length (rows acts) ≤ suc (length delays))
      × IsPrefix (waits acts) delays
      × AllFailedButLast (rows acts)
      × (length (rows acts) ≤ suc (length (waits acts)))
      × (length (waits acts) ≤ length (rows acts))

  finish_last-IsRun :
      (status : AttemptStatus) (result : SendResult)
      → IsRun [] (finish o rule ch payload status result [])
  unfolding finish row IsRun
  finish_last-IsRun attempt_success result = (ground arith, tt, tt, ground arith, ground arith)
  finish_last-IsRun attempt_failed result = (ground arith, tt, tt, ground arith, ground arith)
  finish_last-IsRun attempt_suppressed result = (ground arith, tt, tt, ground arith, ground arith)

  finish_more-IsRun :
      (status : AttemptStatus) (result : SendResult) (d : ℕ) (delays : List ℕ) (rest : List Action)
      → IsRun delays rest
      → IsRun (d ∷ delays) (finish o rule ch payload status result (wait_for d ∷ rest))
  unfolding finish row IsRun
  finish_more-IsRun attempt_success result d delays rest h =
      (ground arith, tt, tt, ground arith, ground arith)
  finish_more-IsRun attempt_failed result d delays rest h = (
    ground arith,
    (refl, h.1),
    failed_cons
        (row o rule ch payload (codes "failed") (some (reason_of o rule ch payload result)) result)
        (rows rest) refl h.2,
    ground arith,
    ground arith,
  )
  finish_more-IsRun attempt_suppressed result d delays rest h =
      (ground arith, tt, tt, ground arith, ground arith)

  no_action-IsRun : (delays : List ℕ) → IsRun delays []
  unfolding IsRun
  no_action-IsRun delays = (ground arith, tt, tt, ground arith, ground arith)

  attempts-IsRun :
      (attempt : ℕ) (delays : List ℕ) (cb : B)
      → IsRun delays ((attempts o rule ch payload attempt delays cb).1)
  unfolding attempts
  attempts-IsRun attempt [] cb = elim (Bool-cases (o.cancelled attempt)) [
    | inl stops ↦ rw stops (no_action-IsRun [])
    | inr goes ↦ rw goes (finish_last-IsRun _ _)
  ]
  attempts-IsRun attempt (d ∷ delays) cb = elim (Bool-cases (o.cancelled attempt)) [
    | inl stops ↦ rw stops (no_action-IsRun (d ∷ delays))
    | inr goes ↦ rw goes (elim (Bool-cases (o.cancelled_wait attempt)) [
      | inl ends ↦ rw ends (finish_more-IsRun _ _ d delays [] (no_action-IsRun delays))
      | inr waits_on ↦
          rw waits_on (finish_more-IsRun _ _ d delays _ (attempts-IsRun (suc attempt) delays _))
    ])
  ]

  finish_logs :
      (status : AttemptStatus) (result : SendResult) (rest : List Action)
      → 1 ≤ length (rows (finish o rule ch payload status result rest))
  unfolding finish
  finish_logs attempt_success result rest = ground arith
  finish_logs attempt_failed result rest = ground arith
  finish_logs attempt_suppressed result rest = ground arith

  attempts_log :
      (attempt : ℕ) (delays : List ℕ) (cb : B)
      → o.cancelled attempt ≡ false
      → 1 ≤ length (rows ((attempts o rule ch payload attempt delays cb).1))
  unfolding attempts
  attempts_log attempt [] cb goes = rw goes (finish_logs _ _ [])
  attempts_log attempt (d ∷ delays) cb goes =
      rw goes (elim (Bool-cases (o.cancelled_wait attempt)) [
        | inl ends ↦ rw ends (finish_logs _ _ _)
        | inr waits_on ↦ rw waits_on (finish_logs _ _ _)
      ])

  attempts_start :
      (cb : B)
      → (o.cancelled 1 ≡ true)
        ⊎ (1 ≤ length (rows ((attempts o rule ch payload 1 retry_schedule cb).1)))
  attempts_start cb = elim (Bool-cases (o.cancelled 1)) [
    | inl stops ↦ inl stops
    | inr goes ↦ inr (attempts_log 1 retry_schedule cb goes)
  ]

  finish_persists :
      (status : AttemptStatus) (result : SendResult) (d : ℕ) (delays : List ℕ) (rest : List Action)
      → 1 ≤ length (rows rest)
      → (last_status (rows rest) ≡ codes "failed" → length (rows rest) ≡ suc (length delays))
      → last_status (rows (finish o rule ch payload status result (wait_for d ∷ rest)))
        ≡ codes "failed"
      → length (rows (finish o rule ch payload status result (wait_for d ∷ rest)))
        ≡ suc (suc (length delays))
  unfolding finish row
  finish_persists attempt_success result d delays rest some_row h e = ground arith
  finish_persists attempt_failed result d delays rest some_row h e = ap suc (
      h (
        sym (
          last_status_cons
            (row o rule ch payload (codes "failed") (some (reason_of o rule ch payload result))
              result)
            (rows rest) some_row)
        ∙ e))
  finish_persists attempt_suppressed result d delays rest some_row h e = ground arith

  finish_once :
      (status : AttemptStatus) (result : SendResult)
      → last_status (rows (finish o rule ch payload status result [])) ≡ codes "failed"
      → length (rows (finish o rule ch payload status result [])) ≡ 1
  unfolding finish
  finish_once attempt_success result e = ground arith
  finish_once attempt_failed result e = ground arith
  finish_once attempt_suppressed result e = ground arith

  attempts_persist :
      (attempt : ℕ) (delays : List ℕ) (cb : B)
      → ((n : ℕ) → o.cancelled n ≡ false)
      → ((n : ℕ) → o.cancelled_wait n ≡ false)
      → let logged = rows ((attempts o rule ch payload attempt delays cb).1) in
        last_status logged ≡ codes "failed" → length logged ≡ suc (length delays)
  unfolding attempts
  attempts_persist attempt [] cb h1 h2 = rw (h1 attempt) (finish_once _ _)
  attempts_persist attempt (d ∷ delays) cb h1 h2 =
      rw (h1 attempt, h2 attempt)
        (finish_persists _ _ d delays _ (attempts_log (suc attempt) delays _ (h1 (suc attempt)))
          (attempts_persist (suc attempt) delays _ h1 h2))

  -- A delivery logs at most five attempts, and at least one unless the context was cancelled
  -- before the first; every row but the last says failed; the waits follow the schedule from
  -- its beginning, and there are no more of them than rows.
  pub send_with_retry_audits :
      (allowed : Bool) (cb : B)
      → let acts = (send_with_retry o rule ch payload allowed cb).1 in
        (length (rows acts) ≤ 5)
        × ((o.cancelled 1 ≡ true) ⊎ (1 ≤ length (rows acts)))
        × AllFailedButLast (rows acts)
        × IsPrefix (waits acts) retry_schedule
        × (length (waits acts) ≤ length (rows acts))
  unfolding send_with_retry IsRun
  send_with_retry_audits true cb =
      let h = attempts-IsRun 1 retry_schedule cb in (h.0, attempts_start cb, h.2, h.1, ground arith)
  send_with_retry_audits false cb = (ground arith, inr (ground arith), tt, tt, ground arith)

  -- A delivery that is never cancelled and whose last row says failed has logged five
  -- attempts: it gives up on a failure no earlier.
  pub send_with_retry_persists :
      (allowed : Bool) (cb : B)
      → ((n : ℕ) → o.cancelled n ≡ false)
      → ((n : ℕ) → o.cancelled_wait n ≡ false)
      → let logged = rows ((send_with_retry o rule ch payload allowed cb).1) in
        last_status logged ≡ codes "failed" → length logged ≡ 5
  unfolding send_with_retry row
  send_with_retry_persists true cb h1 h2 h = attempts_persist 1 retry_schedule cb h1 h2 h
  send_with_retry_persists false cb h1 h2 h = ground arith
