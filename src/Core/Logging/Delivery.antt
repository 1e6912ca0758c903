-- ===== src/Core/Logging/Delivery.antt =====
-- What becomes of the messages to the log, and what fields they carry.
use mathlib.Core.List.{append_assoc, append-nil}
use spawner.Prelude.{
  Bool, true, false, ◌+◌, ◌≤◌, ◌≡◌, refl, sym, ap, ◌∙◌, List, [], ◌∷◌, ◌++◌, Option, inl, inr,
  arith, ltb, length, length-append, Bool-cases, if_cases,
}
use spawner.Prelude.Result.{Result, ok, err}
use spawner.Prelude.Text.{Text}
use spawner.Messages.Logging.{Component}
use spawner.Core.Logging.{
  LogMessage, LogEvent, Logger, channel_size, init, try_send, on_event, attach_nats, do_logs_round,
  log_message, publish_oldest,
}

pub data Step (V : Type 0) : Type 0 where
  event : LogEvent V → Step V
  attach : Step V
  round : Bool → Step V

-- `attach_nats` leaves the handle as it is after an error.
abbrev attached_or : {V : Type 0} → Logger V → Result Text (Logger V) → Logger V
attached_or l (ok l') = l'
attached_or l (err e) = l

module _ {V : Type 0} (parse : Text → Option V) (string : Text → V) (component : Component) where
  abbrev pub step : Logger V → Step V → Logger V
  step l (event e) = on_event parse string component l e
  step l attach = attached_or l (attach_nats l)
  step l (round sent) = do_logs_round l sent

  abbrev pub run : Logger V → List (Step V) → Logger V
  run l [] = l
  run l (s ∷ steps) = run (step l s) steps

  -- The messages of all events, whether they found room or not.
  abbrev pub messages : List (Step V) → List (LogMessage V)
  messages [] = []
  messages (event e ∷ steps) = log_message parse string component e ∷ messages steps
  messages (attach ∷ steps) = messages steps
  messages (round sent ∷ steps) = messages steps

  -- What is known after the messages `sent`.
  abbrev Known : List (LogMessage V) → Logger V → Type 0
  Known sent l =
      (length l.waiting ≤ channel_size)
      × (l.warnings + l.errors ≡ 0 → l.published ++ l.waiting ≡ sent)
      × (length (l.published ++ l.waiting) + (l.warnings + l.errors) ≡ length sent)

  try_send-Known :
      (sent : List (LogMessage V)) (l : Logger V) (m : LogMessage V)
      → Known sent l
      → Known (sent ++ m ∷ []) (try_send l m)
  unfolding try_send
  try_send-Known sent l m (a, b, c) = elim (Bool-cases (ltb (length l.waiting) channel_size)) [
    | inl e ↦ rw (e) (
      let q = length-append l.waiting (m ∷ []) in ground (arith, q),
      λ w. sym (append_assoc l.published l.waiting (m ∷ [])) ∙ ap (λ x. x ++ m ∷ []) (b w),
      let q = length-append (l.published ++ l.waiting) (m ∷ []) in
          let r = length-append sent (m ∷ []) in
          let y = ap length (append_assoc l.published l.waiting (m ∷ [])) in
          omega (arith, q, r, c, y),
    )
    | inr e ↦
        rw (e)
          (a, λ w. absurd (omega arith), let r = length-append sent (m ∷ []) in omega (arith, r, c))
  ]

  attach-Known :
      (sent : List (LogMessage V)) (l : Logger V)
      → Known sent l
      → Known sent (attached_or l (attach_nats l))
  unfolding attach_nats
  attach-Known sent l k = elim (Bool-cases l.attached) [ inl e ↦ rw (e) k | inr e ↦ rw (e) k ]

  publish_oldest-Known :
      (sent : List (LogMessage V)) (l : Logger V) (published : Bool) (q : List (LogMessage V))
      → l.waiting ≡ q
      → Known sent l
      → Known sent (publish_oldest l published q)
  publish_oldest-Known sent l published [] e k = k
  publish_oldest-Known sent l true (m ∷ ms) e (a, b, c) =
      let y : (l.published ++ m ∷ []) ++ ms ≡ l.published ++ l.waiting =
        append_assoc l.published (m ∷ []) ms ∙ ap (λ x. l.published ++ x) (sym e) in
      let z = ap length y in (ground (arith, e), λ w. y ∙ b w, omega (arith, z, c))
  publish_oldest-Known sent l false (m ∷ ms) e (a, b, c) =
      let z = length-append l.published (m ∷ ms) in
      let y = length-append l.published ms in
      let x = ap (λ w. length (l.published ++ w)) e in
      (ground (arith, e), λ w. absurd (omega arith), omega (arith, x, y, z, c))

  round-Known :
      (sent : List (LogMessage V)) (l : Logger V) (published : Bool)
      → Known sent l
      → Known sent (do_logs_round l published)
  unfolding do_logs_round
  round-Known sent l published k =
      if_cases (Known sent) l.attached (publish_oldest l published l.waiting) l
        (λ _. publish_oldest-Known sent l published l.waiting refl k) (λ _. k)

  run-Known :
      (steps : List (Step V)) (sent : List (LogMessage V)) (l : Logger V)
      → Known sent l
      → Known (sent ++ messages steps) (run l steps)
  unfolding on_event
  run-Known [] sent l k = rw (append-nil sent) k
  run-Known (event e ∷ steps) sent l k =
      let m = log_message parse string component e in
      rw⁻¹ (append_assoc sent (m ∷ []) (messages steps))
        (run-Known steps (sent ++ m ∷ []) (try_send l m) (try_send-Known sent l m k))
  run-Known (attach ∷ steps) sent l k = run-Known steps sent _ (attach-Known sent l k)
  run-Known (round published ∷ steps) sent l k =
      run-Known steps sent _ (round-Known sent l published k)

  -- Over any events, attachments and rounds of the task that publishes, whether its calls succeed or
  -- fail: at most 128 messages wait; while no event found the channel full and no call failed, what was
  -- published and what waits are the messages of all events, each once and in order; and for each
  -- message that is missing a warning or an error was printed.
  pub run_delivered :
      (steps : List (Step V))
      → let l = run init steps in
        (length l.waiting ≤ channel_size)
        × (l.warnings + l.errors ≡ 0 → l.published ++ l.waiting ≡ messages steps)
        × (length (l.published ++ l.waiting) + (l.warnings + l.errors) ≡ length (messages steps))
  unfolding init
  run_delivered steps = run-Known steps [] init (omega arith, λ _. refl, omega arith)
