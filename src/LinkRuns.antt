-- ===== src/LinkRuns.antt =====
-- The theorems on the connection, the device table and the reset attempts, at concrete data.
use matter_thread2mqtt.Prelude.{
  ◌≤◌, int_eq, text_eq, pos, [], ◌∷◌, ◌++◌, true, false, none, ◌≡◌, refl,
}
use matter_thread2mqtt.Python.{codes, ok, raise, client_error}
use matter_thread2mqtt.Link.Loop.{Session, Matter, run}
use matter_thread2mqtt.Link.Sessions.{calls_of_all, run-Forever}
use matter_thread2mqtt.Link.Offline.{
  Server, Owner, bridge_connect, bridge_disconnect, Away, still, timer, IsOffline, run-IsOffline,
}
use matter_thread2mqtt.Bridge.{schedule_state, flush_state}
use matter_thread2mqtt.Bridge.{Device, Tables, rebuild}
use matter_thread2mqtt.Reset.{Port, main}
use matter_thread2mqtt.Reset.Attempts.{reads, main-attempts}
use matter_thread2mqtt.Samples.{py, ids, calm, lamp}

abbrev refused_session : Session Server Owner
refused_session = record {
  opened = raise (client_error 1);
  ready = false;
  described = ok tt;
  connecting = λ o. o;
  during = λ o. o;
  listened = ok tt;
  paused = λ o. o;
}

-- While it is connected the lamp reports a change; the timer runs out in the pause.
abbrev update : Owner → Owner
unfolding schedule_state
update (t, acts) = ((schedule_state (pos 7) t).1, acts ++ (schedule_state (pos 7) t).2)

abbrev run_out : Owner → Owner
unfolding flush_state
run_out (t, acts) =
    ((flush_state py ids calm [] (pos 7) t).1, acts ++ (flush_state py ids calm [] (pos 7) t).2)

run_out-Away : (o : Owner) → Away py ids o (run_out o)
unfolding run_out
run_out-Away (t, acts) = timer still calm [] (pos 7)

abbrev lamp_session : Session Server Owner
lamp_session = record {
  opened = ok (record { client = calm; past = []; made = ok (lamp ∷ []) });
  ready = true;
  described = ok tt;
  connecting = λ o. o;
  during = update;
  listened = raise (client_error 2);
  paused = run_out;
}

abbrev new_matter : Matter Server Owner
new_matter = record {
  client = none;
  state = (record { devices = []; attr_unsubs = []; pending_state = []; timers = [] }, []);
  calls = [];
}

abbrev last_matter : Matter Server Owner
last_matter =
    run (bridge_connect py ids) (bridge_disconnect py ids) (refused_session ∷ lamp_session ∷ [])
      new_matter

run-Forever_example :
    (last_matter.calls ≡ calls_of_all (refused_session ∷ lamp_session ∷ []))
    × (last_matter.client ≡ none)
run-Forever_example =
    run-Forever (bridge_connect py ids) (bridge_disconnect py ids)
      (refused_session ∷ lamp_session ∷ []) new_matter refl

-- Nothing was retained before.
run-IsOffline_example : IsOffline py ids (λ k. none) last_matter
run-IsOffline_example =
    run-IsOffline py ids (λ k. none) (refused_session ∷ []) lamp_session new_matter run_out-Away

-- The lamp under another name, as the client may list it a second time.
abbrev renamed_lamp : Device
renamed_lamp = record lamp { friendly_name = codes "shelf" }

abbrev old_tables : Tables
old_tables = record { devices = []; attr_unsubs = pos 3 ∷ []; pending_state = []; timers = [] }

abbrev rebuilt_tables : Tables
rebuilt_tables = (rebuild py ids calm [] (ok (lamp ∷ renamed_lamp ∷ [])) old_tables).1

-- A chip that stays in download mode.
abbrev stuck_port : Port
stuck_port = record {
  opens = true;
  cut = λ n. none;
  chunks = λ n. codes "waiting for download" ∷ [];
}

main-attempts_example : reads (main stuck_port 3).0 ≤ 3
main-attempts_example = main-attempts stuck_port 3
