-- ===== src/Link/Offline.antt =====
-- The bridge on the connection: when the connection is gone, its devices are offline, and stay so.
use matter_thread2mqtt.Prelude.{
  ℤ, Text, List, [], ◌∷◌, ◌++◌, map, false, Option, none, some, ◌≡◌, refl, sym, ap, ◌∙◌, subst, inl,
  inr, arith, All, All-weaken, find, ◌==◌, int_eq, nat_eq,
}
use matter_thread2mqtt.Python.{Runtime, Outcome, Outcome-cases}
use matter_thread2mqtt.Devices.{DataModel}
use matter_thread2mqtt.Bridge.{
  Client, Device, Effect, publish, Payload, availability_payload, Tables, Act, out, Result,
  availability, on_matter_connect, on_matter_disconnect, flush_state, publish_found, result_of,
  state_from,
}
use matter_thread2mqtt.Bridge.Retained.{
  availability_topic, kept, kept_same, retained, retained-append,
}
use matter_thread2mqtt.Link.Loop.{Session, Matter, Callback, turn, run, logged, connection}

-- A client of the Matter server with its effects so far, and the devices of its nodes.
pub record Server : Type 0 where
  pub client : Client
  pub past : List Effect
  -- `Device(n)` for each of its nodes
  pub made : Outcome (List Device)

-- The tables of the bridge, and what it has done.
abbrev pub Owner : Type 0
Owner = Tables × List Act

abbrev pub after_acts : List Act → Result → Outcome (Unit {0}) × Owner
after_acts acts (r, t, more) = (r, (t, acts ++ more))

module _ (py : Runtime) (ids : DataModel) where
  -- `Matter(on_connect=self.on_matter_connect, on_disconnect=self.on_matter_disconnect)`
  abbrev pub bridge_connect : Server → Callback Owner
  bridge_connect server (t, acts) =
      after_acts acts (on_matter_connect py ids server.client server.past server.made t)

  abbrev pub bridge_disconnect : Callback Owner
  bridge_disconnect (t, acts) = after_acts acts (on_matter_disconnect t)

  -- What the event loop does while there is no client: timers run out, and requests are answered or
  -- fail, none of which is retained.
  pub data Away (o : Owner) : Owner → Type 0 where
    still : Away o o
    timer :
        {t : Tables} {acts : List Act}
        → Away o (t, acts)
        → (client : Client) (s : List Effect) (n : ℤ)
        → Away o ((flush_state py ids client s n t).1, acts ++ (flush_state py ids client s n t).2)
    said :
        {t : Tables} {acts : List Act}
        → Away o (t, acts)
        → (topic : Text) (p : Payload) → Away o (t, acts ++ out (publish topic p false) ∷ [])

  -- The availability topic of each device of the table says offline, if before the acts the retained
  -- messages were `old`.
  abbrev pub ShowOffline : (old : Text → Option Payload) → List Act → List Device → Type 0
  ShowOffline old acts ds =
      All
        (λ d.
          retained (availability_topic d) (old (availability_topic d)) acts
          ≡ some (availability_payload false))
        ds

  kept-offline :
      (topic : Text) (x : Option Payload) (d : Device)
      → x ≡ some (availability_payload false)
      → kept topic x (availability d false) ≡ some (availability_payload false)
  kept-offline topic x d h = ground arith

  offline_stays :
      (topic : Text) (ds : List Device) (x : Option Payload)
      → x ≡ some (availability_payload false)
      → retained topic x (map (λ d. availability d false) ds) ≡ some (availability_payload false)
  unfolding retained
  offline_stays topic [] x h = h
  offline_stays topic (d ∷ ds) x h = offline_stays topic ds _ (kept-offline topic x d h)

  all_offline :
      (ds : List Device) (old : Text → Option Payload)
      → ShowOffline old (map (λ d. availability d false) ds) ds
  unfolding retained
  all_offline [] old = tt
  all_offline (d ∷ ds) old = (
    offline_stays (availability_topic d) ds _ (kept_same (old (availability_topic d)) d false),
    all_offline ds (λ t. kept t (old t) (availability d false)),
  )

  -- Later acts that leave the retained messages alone.
  ShowOffline-quiet :
      (old : Text → Option Payload) (acts more : List Act) (ds : List Device)
      → ((topic : Text) (x : Option Payload) → retained topic x more ≡ x)
      → ShowOffline old acts ds
      → ShowOffline old (acts ++ more) ds
  ShowOffline-quiet old acts more ds quiet h =
      All-weaken _ _ ds
        (λ d e.
          retained-append (availability_topic d) (old (availability_topic d)) acts more
          ∙ (quiet (availability_topic d) _ ∙ e))
        h

  publish_found-quiet :
      (client : Client) (s : List Effect) (t : Tables) (d : Option Device)
      → ((publish_found py ids client s t d).1 ≡ t)
        × ((topic : Text) (x : Option Payload)
            → retained topic x (publish_found py ids client s t d).2 ≡ x)
  unfolding publish_found result_of retained
  publish_found-quiet client s t none = (refl, λ topic x. refl)
  publish_found-quiet client s t (some d) =
      elim (Outcome-cases (state_from py ids client d d.props s)) [
        | inl (st, h) ↦ (
          rw (h, publish_found, result_of) refl,
          λ topic x. rw (h, publish_found, result_of, retained) refl,
        )
        | inr (e, h) ↦ (
          rw (h, publish_found, result_of) refl,
          λ topic x. rw (h, publish_found, result_of, retained) refl,
        )
      ]

  flush_state-quiet :
      (client : Client) (s : List Effect) (n : ℤ) (t : Tables)
      → ((flush_state py ids client s n t).1.devices ≡ t.devices)
        × ((topic : Text) (x : Option Payload)
            → retained topic x (flush_state py ids client s n t).2 ≡ x)
  unfolding flush_state
  flush_state-quiet client s n t =
      let (same, quiet) = publish_found-quiet client s _ (find (λ d. d.node_id == n) t.devices) in
      (ap (λ (u : Tables). u.devices) same, quiet)

  Away-ShowOffline :
      (old : Text → Option Payload) {o u : Owner}
      → Away o u
      → ShowOffline old o.1 o.0.devices
      → ShowOffline old u.1 u.0.devices
  Away-ShowOffline old still h = h
  Away-ShowOffline old (timer {t = t} {acts = acts} a client s n) h =
      let (same, quiet) = flush_state-quiet client s n t in
      subst (ShowOffline old (acts ++ (flush_state py ids client s n t).2)) (sym same)
        (ShowOffline-quiet old acts _ t.devices quiet (Away-ShowOffline old a h))
  Away-ShowOffline old (said {t = t} {acts = acts} a topic p) h =
      ShowOffline-quiet old acts (out (publish topic p false) ∷ []) t.devices
        (λ k x. unfold retained in refl) (Away-ShowOffline old a h)

  -- No client is left, and each device of the table is offline on its retained topic.
  abbrev pub IsOffline : (old : Text → Option Payload) → Matter Server Owner → Type 0
  IsOffline old m = (m.client ≡ none) × ShowOffline old m.state.1 m.state.0.devices

  disconnect-ShowOffline :
      (old : Text → Option Payload) (o : Owner)
      → ShowOffline old (bridge_disconnect o).1.1 (bridge_disconnect o).1.0.devices
  unfolding on_matter_disconnect
  disconnect-ShowOffline old (t, acts) =
      All-weaken _ _ t.devices
        (λ d e.
          retained-append (availability_topic d) (old (availability_topic d)) acts
            (map (λ d. availability d false) t.devices)
          ∙ e)
        (all_offline t.devices (λ k. retained k (old k) acts))

  turn-IsOffline :
      (old : Text → Option Payload) (s : Session Server Owner) (m : Matter Server Owner)
      → ((o : Owner) → Away o (s.paused o))
      → IsOffline old (turn bridge_connect bridge_disconnect s m)
  unfolding turn logged
  turn-IsOffline old s m away =
      let o = (connection bridge_connect bridge_disconnect s m).1.state in
      (refl, Away-ShowOffline old (away (bridge_disconnect o).1) (disconnect-ShowOffline old o))

  -- After any sessions, at least one, which may fail in any way, and after the pause that follows the last
  -- one, in which timers may run out and requests may be answered but no client is there: still no
  -- client is there, and whatever was retained before, the availability topic of each device of the
  -- table says offline.
  pub run-IsOffline :
      (old : Text → Option Payload) (ss : List (Session Server Owner)) (s : Session Server Owner)
      (m : Matter Server Owner)
      → ((o : Owner) → Away o (s.paused o))
      → IsOffline old (run bridge_connect bridge_disconnect (ss ++ s ∷ []) m)
  unfolding run
  run-IsOffline old [] s m away = turn-IsOffline old s m away
  run-IsOffline old (r ∷ ss) s m away =
      run-IsOffline old ss s (turn bridge_connect bridge_disconnect r m) away
