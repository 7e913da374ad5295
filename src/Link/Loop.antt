-- ===== src/Link/Loop.antt =====
-- `Matter._run`, which connects and keeps the connection, for ever.
use matter_thread2mqtt.Prelude.{List, [], ◌∷◌, ◌++◌, Bool, Option, none, some, if◌then◌else◌}
use matter_thread2mqtt.Python.{Outcome, ok, raise}

-- What the world does in one turn of the loop. `opened` is making the session and the client and
-- connecting it, `ready` whether the node cache is there when the wait returns, `described` the
-- look-ups for the log, `listened` how `listen` ends. The event loop runs other callbacks and tasks while
-- `_run` awaits: `connecting`, `during` and `paused` are what they do to the state `S` until the wait
-- for the node cache returns, while the client listens, and in the pause at the end.
pub record Session (C S : Type 0) : Type 0 where
  pub opened : Outcome C
  pub ready : Bool
  pub described : Outcome (Unit {0})
  pub connecting : S → S
  pub during : S → S
  pub listened : Outcome (Unit {0})
  pub paused : S → S

pub data Call (C : Type 0) : Type 0 where
  connected : C → Call C
  disconnected slept : Call C

-- The client, the state of the callbacks' owner, and what the loop has called so far.
pub record Matter (C S : Type 0) : Type 0 where
  pub client : Option C
  pub state : S
  pub calls : List (Call C)

abbrev pub Callback : Type 0 → Type 0
Callback S = S → Outcome (Unit {0}) × S

module _ {C S : Type 0} where
  -- A callback that raises is only logged.
  unfoldable pub logged : Callback S → Call C → Matter C S → Matter C S
  logged callback entry m = record m { state = (callback m.state).1; calls = m.calls ++ entry ∷ [] }

  -- `await listen`
  unfoldable pub listen : Session C S → Matter C S → Outcome (Unit {0}) × Matter C S
  listen s m = (s.listened, record m { state = s.during m.state })

  module _ (on_connect : C → Callback S) (on_disconnect : Callback S) where
    -- The part from the log line to the callback.
    unfoldable pub announce : C → Session C S → Matter C S → Outcome (Unit {0}) × Matter C S
    unfolding logged listen
    announce c s m = elim s.described [
      | raise e ↦ (raise e, m)
      | ok u ↦ listen s (logged (on_connect c) (connected c) (record m { client = some c }))
    ]

    -- The body of the outer `try`.
    unfoldable pub connection : Session C S → Matter C S → Outcome (Unit {0}) × Matter C S
    unfolding announce listen
    connection s m =
        let n = record m { state = s.connecting m.state } in
        elim s.opened [
          | raise e ↦ (raise e, n)
          | ok c ↦ if s.ready then announce c s n else listen s n
        ]

    -- One turn: an exception of the connection is only logged.
    unfoldable pub turn : Session C S → Matter C S → Matter C S
    unfolding connection logged
    turn s m =
        let after =
          logged on_disconnect disconnected (record (connection s m).1 { client = none }) in
        record after { state = s.paused after.state; calls = after.calls ++ slept ∷ [] }

    -- The loop, for as long as these sessions last.
    unfoldable pub run : List (Session C S) → Matter C S → Matter C S
    unfolding turn
    run [] m = m
    run (s ∷ ss) m = run ss (turn s m)
