-- ===== src/Bridge/Setting.antt =====
-- `set`: what reaches the device, and when.
use matter_thread2mqtt.Prelude.{
  ℤ, Text, List, [], ◌∷◌, ◌++◌, Bool, false, Option, none, some, ◌≡◌, refl, sym, ◌∙◌, ap, inl, inr,
  Option-cases, append_assoc, append-nil,
}
use matter_thread2mqtt.Python.{Runtime, Num, Value, Fields, ok, Outcome-cases, round_num, times}
use matter_thread2mqtt.Devices.{Opts, Command, write}
use matter_thread2mqtt.Bridge.{
  Device, Write, granted, refused, Effect, send, publish, Message, error_payload, topic_root,
  Client, plan, send_all, set_with, set_checked, set, settings, transition_value, transition_of,
  flag_value, flag_of,
}

abbrev pub error_effect : Text → Message → Effect
error_effect request m = publish topic_root (error_payload request m) false

module _ (py : Runtime) (dev : Device) (opts : Opts) where
  -- The commands of the writes, each to the write's endpoint of the device's node, in order.
  pub data Built : List Write → List Effect → Type 0 where
    done : Built [] []
    build :
        {w : Write} {ws : List Write} {es : List Effect} (cmd : Command)
        → write py w.cap.kind w.value opts ≡ ok cmd
        → Built ws es
        → Built (w ∷ ws) (send dev.node_id w.cap.ep cmd ∷ es)

  -- The commands of the first few of the writes.
  pub data Prefix : List Write → List Effect → Type 0 where
    stop : {ws : List Write} → Prefix ws []
    sent :
        {w : Write} {ws : List Write} {es : List Effect} (cmd : Command)
        → write py w.cap.kind w.value opts ≡ ok cmd
        → Prefix ws es
        → Prefix (w ∷ ws) (send dev.node_id w.cap.ep cmd ∷ es)

module _ (py : Runtime) (client : Client) (dev : Device) where
  send_all-Prefix :
      (opts : Opts) (ws : List Write) (s : List Effect)
      → (es : List Effect) × (Prefix py dev opts ws es)
        × ((send_all py client dev opts ws s).1 ≡ s ++ es)
  unfolding send_all
  send_all-Prefix opts [] s = ([], stop, sym (append-nil s))
  send_all-Prefix opts (w ∷ ws) s = elim (Outcome-cases (write py w.cap.kind w.value opts)) [
    | inr (e, failed) ↦ ([], stop, rw failed (sym (append-nil s)))
    | inl (cmd, h) ↦
        let x : Effect = send dev.node_id w.cap.ep cmd in
        elim (Option-cases (client.answer s x)) [
          | inr (e, failed) ↦ (x ∷ [], sent cmd h stop, rw h (rw failed refl))
          | inl fine ↦
              let (es, p, q) = send_all-Prefix opts ws (s ++ x ∷ []) in
              (x ∷ es, sent cmd h p, rw h (rw fine (q ∙ append_assoc s (x ∷ []) es)))
        ]
  ]

  send_all-Built :
      (opts : Opts) (ws : List Write) (es : List Effect) (s : List Effect)
      → ((h : List Effect) (e : Effect) → client.answer h e ≡ none)
      → Built py dev opts ws es
      → send_all py client dev opts ws s ≡ (ok tt, s ++ es)
  unfolding send_all
  send_all-Built opts [] es s calm done = ap (λ (l : List Effect). (ok tt, l)) (sym (append-nil s))
  send_all-Built opts (w ∷ ws) es s calm (build {es = more} cmd h b) =
      let x : Effect = send dev.node_id w.cap.ep cmd in
      rw h (
        rw (calm s x) (
          send_all-Built opts ws more (s ++ x ∷ []) calm b
          ∙ ap (λ (l : List Effect). (ok tt, l)) (append_assoc s (x ∷ []) more)))

  -- What a set request may have done by the time it ends: nothing, one error message, or the first
  -- few commands of a plan that passed all checks.
  pub data Done (request : Text) (payload : Fields) (s t : List Effect) : Type 0 where
    nothing : t ≡ s → Done request payload s t
    reported : (m : Message) → t ≡ s ++ error_effect request m ∷ [] → Done request payload s t
    wrote :
        (opts : Opts) (ws : List Write) (es : List Effect)
        → plan py dev (settings payload) ≡ ok (granted ws)
        → Prefix py dev opts ws es
        → t ≡ s ++ es
        → Done request payload s t

  set_with-Done :
      (request : Text) (payload : Fields) (n : Num) (b : Bool) (s : List Effect)
      → Done request payload s (set_with py client request dev (settings payload) n b s).1
  unfolding set_with
  set_with-Done request payload n b s = elim (Outcome-cases (round_num py (times py n 10))) [
    | inr (e, failed) ↦ nothing (rw failed refl)
    | inl (tenths, h) ↦ elim (Outcome-cases (plan py dev (settings payload))) [
      | inr (e, failed) ↦ nothing (rw h (rw failed refl))
      | inl (refused m, p) ↦ reported m (rw h (rw p refl))
      | inl (granted ws, p) ↦
          let opts : Opts = record { transition = tenths; with_on_off = b } in
          let (es, q, e) = send_all-Prefix opts ws s in wrote opts ws es p q (rw h (rw p e))
    ]
  ]

  set_checked-Done :
      (request : Text) (payload : Fields) (t w : Value) (n : Option Num) (b : Option Bool)
      (s : List Effect)
      → Done request payload s (set_checked py client request dev (settings payload) t w n b s).1
  unfolding set_checked
  set_checked-Done request payload t w none b s = reported _ refl
  set_checked-Done request payload t w (some n) none s = reported _ refl
  set_checked-Done request payload t w (some n) (some b) s = set_with-Done request payload n b s

  -- Whatever the request and the client's answers, `set` sends no command unless the whole request
  -- passed the checks, and what it has sent when it ends, by an exception or not, are the commands of
  -- the first few of the planned writes, in the plan's order, each once and to the device's node.
  -- Otherwise it did nothing, or published one error message.
  pub set-Done :
      (request : Text) (payload : Fields) (s : List Effect)
      → Done request payload s (set py client request dev payload s).1
  unfolding set
  set-Done request payload s =
      set_checked-Done request payload (transition_value py payload) (flag_value payload)
        (transition_of py (transition_value py payload)) (flag_of (flag_value payload)) s

  set_with-Built :
      (request : Text) (rest : Fields) (n : Num) (b : Bool) (tenths : ℤ) (ws : List Write)
      (es s : List Effect)
      → round_num py (times py n 10) ≡ ok tenths
      → plan py dev rest ≡ ok (granted ws)
      → Built py dev (record { transition = tenths; with_on_off = b }) ws es
      → ((h : List Effect) (e : Effect) → client.answer h e ≡ none)
      → set_with py client request dev rest n b s ≡ (ok tt, s ++ es)
  unfolding set_with
  set_with-Built request rest n b tenths ws es s hr hp built calm =
      rw hr (
        rw hp (send_all-Built (record { transition = tenths; with_on_off = b }) ws es s calm built))

  -- A set request with valid options and a granted plan whose commands can all be built, to a client
  -- that does not fail: `set` returns, and has sent exactly the planned commands, in order.
  pub set-Built :
      (request : Text) (payload : Fields) (n : Num) (b : Bool) (tenths : ℤ) (ws : List Write)
      (es s : List Effect)
      → transition_of py (transition_value py payload) ≡ some n
      → flag_of (flag_value payload) ≡ some b
      → round_num py (times py n 10) ≡ ok tenths
      → plan py dev (settings payload) ≡ ok (granted ws)
      → Built py dev (record { transition = tenths; with_on_off = b }) ws es
      → ((h : List Effect) (e : Effect) → client.answer h e ≡ none)
      → set py client request dev payload s ≡ (ok tt, s ++ es)
  unfolding set
  set-Built request payload n b tenths ws es s ht hb hr hp built calm =
      let t : Value = transition_value py payload in
      let w : Value = flag_value payload in
      ap (λ o. set_checked py client request dev (settings payload) t w o (flag_of w) s) ht
      ∙ ap (λ o. set_checked py client request dev (settings payload) t w (some n) o s) hb
      ∙ set_with-Built request (settings payload) n b tenths ws es s hr hp built calm
