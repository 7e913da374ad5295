-- ===== src/Bridge/Exec.antt =====
-- Coroutines of the bridge: what was done before an exception stays done, so the effects come back
-- beside the exception too. Between two awaits other tasks may run; what they change of the client
-- shows in its answers, which may depend on all that happened before.
use matter_thread2mqtt.Prelude.{ℕ, ℤ, Text, List, [], ◌∷◌, ◌++◌, Option, none, some, false}
use matter_thread2mqtt.Python.{Value, Outcome, ok, raise, Exc, client_error}
use matter_thread2mqtt.Devices.{AttrId}
use matter_thread2mqtt.Bridge.State.{Effect, publish, Message, error_payload, topic_root}

-- The Matter client (python-matter-server) and its attribute cache.
pub record Client : Type 0 where
  -- what an awaited call raises, after the given effects; `none` if it returns
  pub answer : List Effect → Effect → Option ℕ
  -- `get_attribute_value(ep, cid, aid)` of a node: `none` is a KeyError, `null` a Nullable
  pub attribute : List Effect → ℤ → ℤ → AttrId → Option Value

abbrev pub Exec {ℓ} : Type ℓ → Type ℓ
Exec A = List Effect → Outcome A × List Effect

abbrev pub continue {ℓ κ} :
    {A : Type ℓ} {B : Type κ} → Outcome A → (A → Exec B) → List Effect → Outcome B × List Effect
continue (ok a) f s = f a s
continue (raise e) f s = (raise e, s)

-- `try: m; except Exception as e: handler(e)`
abbrev pub catch : Outcome (Unit {0}) → (Exc → Exec (Unit {0})) → Exec (Unit {0})
catch (ok a) handler s = (ok a, s)
catch (raise e) handler s = handler e s

infixl 5 ◌>>=◌ ◌>>◌
abbrev pub ◌>>=◌ {ℓ κ} : {A : Type ℓ} {B : Type κ} → Exec A → (A → Exec B) → Exec B
◌>>=◌ m f s = let (r, s') = m s in continue r f s'

abbrev pub ◌>>◌ {ℓ} : {B : Type ℓ} → Exec (Unit {0}) → Exec B → Exec B
m >> k = m >>= λ _. k

abbrev pub pure {ℓ} : {A : Type ℓ} → A → Exec A
pure a s = (ok a, s)

abbrev pub lift {ℓ} : {A : Type ℓ} → Outcome A → Exec A
lift r s = (r, s)

-- An mqtt publication, which is queued and does not raise.
abbrev pub emit : Effect → Exec (Unit {0})
emit e s = (ok tt, s ++ e ∷ [])

-- `Bridge.error`
abbrev pub error : Text → Message → Exec (Unit {0})
error request msg = emit (publish topic_root (error_payload request msg) false)

module _ (client : Client) where
  -- An awaited call of the client.
  abbrev pub call : Effect → Exec (Unit {0})
  call e s =
      (elim (client.answer s e) [ none ↦ ok tt | some x ↦ raise (client_error x) ], s ++ e ∷ [])
