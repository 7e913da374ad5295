-- ===== src/Link/Reading.antt =====
-- `Bridge.rebuild` from the nodes of the client: the devices are all made before anything changes.
use matter_thread2mqtt.Prelude.{List, [], ◌∷◌, ◌++◌, ◌≡◌, refl, ap}
use matter_thread2mqtt.Python.{Runtime, Outcome, ok, raise, Exc, ◌>>=◌, Fields}
use matter_thread2mqtt.Devices.{Printing}
use matter_thread2mqtt.Bridge.{Client, Device, Effect, Tables, Result, rebuild}
use matter_thread2mqtt.Nodes.{NodeModel, Node, new_device}

raises_after :
    (o : Outcome (Device × Fields)) (r : Outcome (List Device)) (f : Exc)
    → r ≡ raise f
    → (x : Exc) × ((o >>= λ d. r >>= λ ds. ok (d.0 ∷ ds)) ≡ raise x)
raises_after (ok d) r f h = (f, ap (λ (l : Outcome (List Device)). l >>= λ ds. ok (d.0 ∷ ds)) h)
raises_after (raise e) r f h = (e, refl)

module _ (py : Runtime) (pr : Printing) (model : NodeModel) where
  -- `Device(n) for n in client.get_nodes()`
  unfoldable pub read_nodes : List Node → Outcome (List Device)
  unfolding new_device
  read_nodes [] = ok []
  read_nodes (n ∷ ns) = do d ← new_device py pr model n; ds ← read_nodes ns; ok (d.0 ∷ ds)

  -- `rebuild`, with the nodes of the client
  unfoldable pub rebuild_nodes : Client → List Effect → List Node → Tables → Result
  unfolding rebuild read_nodes
  rebuild_nodes client past nodes t = rebuild py model.ids client past (read_nodes nodes) t

  read_nodes-raise :
      (before : List Node) (n : Node) (after : List Node) (e : Exc)
      → new_device py pr model n ≡ raise e
      → (f : Exc) × (read_nodes (before ++ n ∷ after) ≡ raise f)
  unfolding read_nodes
  read_nodes-raise [] n after e h = (
    e,
    ap (λ (o : Outcome (Device × Fields)). o >>= λ d. read_nodes after >>= λ ds. ok (d.0 ∷ ds)) h,
  )
  read_nodes-raise (m ∷ before) n after e h =
      let (f, r) = read_nodes-raise before n after e h in
      raises_after (new_device py pr model m) (read_nodes (before ++ n ∷ after)) f r

  -- If the device of any one node cannot be made, then the rebuild raises and does nothing at all: no
  -- device is added, dropped or published, whatever the other nodes are.
  pub rebuild_nodes-Stopped :
      (client : Client) (past : List Effect) (before : List Node) (n : Node) (after : List Node)
      (e : Exc) (t : Tables)
      → new_device py pr model n ≡ raise e
      → (f : Exc) × (rebuild_nodes client past (before ++ n ∷ after) t ≡ (raise f, t, []))
  unfolding rebuild_nodes
  rebuild_nodes-Stopped client past before n after e t h =
      let (f, r) = read_nodes-raise before n after e h in (f, rw r refl)
