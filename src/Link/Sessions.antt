-- ===== src/Link/Sessions.antt =====
-- The loop goes on after every session, whatever fails in it.
use matter_thread2mqtt.Prelude.{
  List, [], ◌∷◌, ◌++◌, Bool, true, false, none, ◌≡◌, refl, ap, sym, ◌∙◌, append_assoc, append-nil,
}
use matter_thread2mqtt.Python.{Outcome, ok, raise}
use matter_thread2mqtt.Link.Loop.{
  Session, Call, connected, disconnected, slept, Matter, Callback, logged, listen, announce,
  connection, turn, run,
}

-- A session is a connection if its client opens, gets the node cache, and can be logged.
abbrev pub greeting : {C : Type 0} → Outcome C → Bool → Outcome (Unit {0}) → List (Call C)
greeting (ok c) true (ok u) = connected c ∷ []
greeting _ _ _ = []

module _ {C S : Type 0} where
  -- The calls of a session: perhaps the connection, then always its end and the pause.
  abbrev pub calls_of : Session C S → List (Call C)
  calls_of s = greeting s.opened s.ready s.described ++ disconnected ∷ slept ∷ []

  abbrev pub calls_of_all : List (Session C S) → List (Call C)
  calls_of_all [] = []
  calls_of_all (s ∷ ss) = calls_of s ++ calls_of_all ss

  module _ (on_connect : C → Callback S) (on_disconnect : Callback S) where
    connection-calls :
        (o : Outcome C) (r : Bool) (d : Outcome (Unit {0})) (connecting during paused : S → S)
        (l : Outcome (Unit {0})) (m : Matter C S)
        → (connection on_connect on_disconnect
            (record {
              opened = o;
              ready = r;
              described = d;
              connecting = connecting;
              during = during;
              listened = l;
              paused = paused;
            })
            m).1.calls
          ≡ m.calls ++ greeting o r d
    unfolding connection announce listen logged
    connection-calls (raise e) r d connecting during paused l m = sym (append-nil m.calls)
    connection-calls (ok c) true (ok u) connecting during paused l m = refl
    connection-calls (ok c) true (raise e) connecting during paused l m = sym (append-nil m.calls)
    connection-calls (ok c) false d connecting during paused l m = sym (append-nil m.calls)

    turn-calls :
        (s : Session C S) (m : Matter C S)
        → (turn on_connect on_disconnect s m).calls ≡ m.calls ++ calls_of s
    unfolding turn logged
    turn-calls s m =
        ap (λ (l : List (Call C)). (l ++ disconnected ∷ []) ++ slept ∷ [])
          (connection-calls s.opened s.ready s.described s.connecting s.during s.paused s.listened
            m)
        ∙ (append_assoc (m.calls ++ greeting s.opened s.ready s.described) (disconnected ∷ [])
              (slept ∷ [])
            ∙ append_assoc m.calls (greeting s.opened s.ready s.described)
                (disconnected ∷ slept ∷ []))

    turn-client :
        (s : Session C S) (m : Matter C S) → (turn on_connect on_disconnect s m).client ≡ none
    unfolding turn logged
    turn-client s m = refl

    run-calls :
        (ss : List (Session C S)) (m : Matter C S)
        → (run on_connect on_disconnect ss m).calls ≡ m.calls ++ calls_of_all ss
    unfolding run
    run-calls [] m = sym (append-nil m.calls)
    run-calls (s ∷ ss) m =
        run-calls ss (turn on_connect on_disconnect s m)
        ∙ ap (λ (l : List (Call C)). l ++ calls_of_all ss) (turn-calls s m)
        ∙ append_assoc m.calls (calls_of s) (calls_of_all ss)

    run-client :
        (ss : List (Session C S)) (m : Matter C S)
        → m.client ≡ none
        → (run on_connect on_disconnect ss m).client ≡ none
    unfolding run
    run-client [] m h = h
    run-client (s ∷ ss) m h = run-client ss (turn on_connect on_disconnect s m) (turn-client s m)

    -- Whatever the sessions do and whichever of the callbacks raise, the loop goes through all of them:
    -- for each one it calls `on_connect` if the client got the node cache, and then, before the pause and
    -- the next session, always `on_disconnect`. No client is left when it pauses.
    pub run-Forever :
        (ss : List (Session C S)) (m : Matter C S)
        → m.client ≡ none
        → ((run on_connect on_disconnect ss m).calls ≡ m.calls ++ calls_of_all ss)
          × ((run on_connect on_disconnect ss m).client ≡ none)
    run-Forever ss m h = (run-calls ss m, run-client ss m h)
