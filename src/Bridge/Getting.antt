-- ===== src/Bridge/Getting.antt =====
-- `get`: which attributes are read from the device, and what is published.
use matter_thread2mqtt.Prelude.{
  Text, List, [], ◌∷◌, ◌++◌, map, Bool, true, false, ◌||◌, none, some, ◌≡◌, refl, sym, ◌∙◌, ap, inl,
  inr, text_eq, nat_eq, subst, eqb_list_iff, contains, contains-append, Distinct, Distinct-snoc,
  All, Bool-cases, Option-cases, arith, append_assoc, append-nil,
}
use matter_thread2mqtt.Python.{
  Runtime, Value, Fields, Outcome, ok, raise, Exc, client_error, sorted_texts, Outcome-cases,
}
use matter_thread2mqtt.Devices.{DataModel, Cap, gettable, paths}
use matter_thread2mqtt.Bridge.{
  Device, granted, refused, Verdict, unknown_property, not_readable, Verdict-cases, Effect, refresh,
  publish, Message, state_payload, Client, prop_of, state_from, state_topic, publish_state,
  extend_new, gather, refresh_all, requested, get, continue,
}
use matter_thread2mqtt.Bridge.Setting.{error_effect}

extend_new-Distinct : (known new : List Text) → Distinct known → Distinct (extend_new known new)
unfolding extend_new
extend_new-Distinct known [] d = d
extend_new-Distinct known (p ∷ new) d = elim (Bool-cases (contains known p)) [
  | inl old ↦ rw old (extend_new-Distinct known new d)
  | inr fresh ↦ rw fresh (extend_new-Distinct (known ++ p ∷ []) new (Distinct-snoc known p d fresh))
]

contains-extend_new :
    (known new : List Text) (p : Text)
    → contains (extend_new known new) p ≡ (contains known p || contains new p)
unfolding extend_new contains
contains-extend_new known [] p = ground arith
contains-extend_new known (q ∷ new) p = ground (
  arith,
  contains-extend_new known new p,
  contains-extend_new (known ++ q ∷ []) new p,
  contains-append known (q ∷ []) p,
  eqb_list_iff p q,
)

module _ (ids : DataModel) (dev : Device) where
  -- A property that `get` can read.
  pub record Readable (prop : Text) : Type 0 where
    pub cap : Cap
    pub known : prop_of dev.props prop ≡ some cap
    pub can_get : gettable cap.kind ≡ true

  abbrev serves : Text → Text → Bool
  serves prop p = elim (prop_of dev.props prop) [
    | none ↦ false
    | some cap ↦ contains (paths ids cap) p
  ]

  -- The path belongs to one of the properties.
  abbrev pub wanted : List Text → Text → Bool
  wanted [] p = false
  wanted (prop ∷ props) p = serves prop p || wanted props p

  gather_lem :
      (props known ps : List Text)
      → gather ids dev props known ≡ granted ps
      → Distinct known
      → All Readable props
        × Distinct ps
        × ((p : Text) → contains ps p ≡ (contains known p || wanted props p))
  unfolding gather
  gather_lem [] known ps h d =
      let e : known ≡ ps = ground arith in
      (tt, subst Distinct e d, λ p. ground (arith, ap (λ (l : List Text). contains l p) e))
  gather_lem (prop ∷ props) known ps h d = elim (Option-cases (prop_of dev.props prop)) [
    | inl unknown ↦ absurd (ground arith)
    | inr (cap, found) ↦ elim (Bool-cases (gettable cap.kind)) [
      | inl can ↦
          let (a, b, c) =
            gather_lem props (extend_new known (paths ids cap)) ps (ground arith)
              (extend_new-Distinct known (paths ids cap) d) in
          (
            (record { cap = cap; known = found; can_get = can }, a),
            b,
            λ p. ground (arith, c p, contains-extend_new known (paths ids cap) p),
          )
      | inr cannot ↦ absurd (ground arith)
    ]
  ]

  -- Why the properties cannot be read: the first one that the device does not have or that cannot be
  -- read, after ones that can.
  pub data Refused (props : List Text) : Message → Type 0 where
    unknown :
        (before : List Text) (prop : Text) (after : List Text)
        → props ≡ before ++ prop ∷ after
        → All Readable before
        → prop_of dev.props prop ≡ none
        → Refused props (unknown_property prop (sorted_texts (map (λ p. p.0) dev.props)))
    unreadable :
        (before : List Text) (prop : Text) (after : List Text) (cap : Cap)
        → props ≡ before ++ prop ∷ after
        → All Readable before
        → prop_of dev.props prop ≡ some cap
        → gettable cap.kind ≡ false
        → Refused props (not_readable prop)

  later :
      (prop : Text) (props : List Text) (m : Message)
      → Readable prop
      → Refused props m
      → Refused (prop ∷ props) m
  later prop props m r (unknown before q after e rs h) =
      unknown (prop ∷ before) q after (ap (λ (l : List Text). prop ∷ l) e) (r, rs) h
  later prop props m r (unreadable before q after cap e rs h g) =
      unreadable (prop ∷ before) q after cap (ap (λ (l : List Text). prop ∷ l) e) (r, rs) h g

  abbrev message_of : Verdict (List Text) → Message → Message
  message_of (refused m) n = m
  message_of (granted ps) n = n

  gather_refused :
      (props known : List Text) (m : Message)
      → gather ids dev props known ≡ refused m
      → Refused props m
  unfolding gather
  gather_refused [] known m h = absurd (cc)
  gather_refused (prop ∷ props) known m h = elim (Option-cases (prop_of dev.props prop)) [
    | inl none_there ↦
        let same : refused (unknown_property prop (sorted_texts (map (λ p. p.0) dev.props)))
            ≡ refused m =
          ground arith in
        subst (Refused (prop ∷ props)) (ap (λ v. message_of v m) same)
          (unknown [] prop props refl tt none_there)
    | inr (cap, found) ↦ elim (Bool-cases (gettable cap.kind)) [
      | inl can ↦
          later prop props m (record { cap = cap; known = found; can_get = can })
            (gather_refused props (extend_new known (paths ids cap)) m (ground arith))
      | inr cannot ↦
          let same : refused (not_readable prop) ≡ refused m = ground arith in
          subst (Refused (prop ∷ props)) (ap (λ v. message_of v m) same)
            (unreadable [] prop props cap refl tt found cannot)
    ]
  ]

module _ (py : Runtime) (ids : DataModel) (client : Client) (dev : Device) where
  abbrev pub refreshes : List Text → List Effect
  refreshes ps = map (refresh dev.node_id) ps

  -- How the live reads can end: all were made, or the call for the last one made raised.
  pub data Refreshed (ps : List Text) (s : List Effect)
      : Outcome (Unit {0}) × List Effect → Type 0 where
    all_read :
        {x : Outcome (Unit {0}) × List Effect} → x ≡ (ok tt, s ++ refreshes ps) → Refreshed ps s x
    broke_off :
        {x : Outcome (Unit {0}) × List Effect} (read unread : List Text) (e : Exc)
        → ps ≡ read ++ unread
        → x ≡ (raise e, s ++ refreshes read)
        → Refreshed ps s x

  refresh_step :
      (p : Text) (ps : List Text) (s : List Effect) {x : Outcome (Unit {0}) × List Effect}
      → Refreshed ps (s ++ refresh dev.node_id p ∷ []) x
      → Refreshed (p ∷ ps) s x
  refresh_step p ps s (all_read e) =
      all_read (e ∙ ap (λ (l : List Effect). (ok tt, l)) (append_assoc s _ (refreshes ps)))
  refresh_step p ps s (broke_off read unread x split e) =
      broke_off (p ∷ read) unread x (ap (λ (l : List Text). p ∷ l) split)
        (e ∙ ap (λ (l : List Effect). (raise x, l)) (append_assoc s _ (refreshes read)))

  refresh_all_lem :
      (ps : List Text) (s : List Effect) → Refreshed ps s (refresh_all py ids client dev ps s)
  unfolding refresh_all
  refresh_all_lem [] s = all_read (ap (λ (l : List Effect). (ok tt, l)) (sym (append-nil s)))
  refresh_all_lem (p ∷ ps) s = elim (Option-cases (client.answer s (refresh dev.node_id p))) [
    | inl fine ↦
        rw fine (refresh_step p ps s (refresh_all_lem ps (s ++ refresh dev.node_id p ∷ [])))
    | inr (c, failed) ↦ rw failed (broke_off (p ∷ []) ps (client_error c) refl refl)
  ]

  -- The paths to read for a request: all requested properties (all of the device's if none is named)
  -- can be read, and the paths are theirs, each once.
  pub record Selected (payload : Fields) (ps : List Text) : Type 0 where
    pub readable : All (Readable ids dev) (requested dev payload)
    pub once : Distinct ps
    pub complete : (p : Text) → contains ps p ≡ wanted ids dev (requested dev payload) p

  pub data Got (request : Text) (payload : Fields) (s : List Effect)
      (x : Outcome (Unit {0}) × List Effect) : Type 0 where
    rejected :
        (m : Message)
        → Refused ids dev (requested dev payload) m
        → x ≡ (ok tt, s ++ error_effect request m ∷ [])
        → Got request payload s x
    answered :
        (ps : List Text) (state : List (Text × Value))
        → Selected payload ps
        → state_from py ids client dev dev.props (s ++ refreshes ps) ≡ ok state
        → x ≡ (
          ok tt,
          (s ++ refreshes ps) ++ publish (state_topic dev) (state_payload state) false ∷ [],
        )
        → Got request payload s x
    failed :
        (ps read unread : List Text) (e : Exc)
        → Selected payload ps
        → ps ≡ read ++ unread
        → x ≡ (raise e, s ++ refreshes read)
        → Got request payload s x

  Got-state :
      (request : Text) (payload : Fields) (ps : List Text) (s : List Effect)
      → Selected payload ps
      → Got request payload s (publish_state py ids client dev (s ++ refreshes ps))
  unfolding publish_state
  Got-state request payload ps s sel =
      elim (Outcome-cases (state_from py ids client dev dev.props (s ++ refreshes ps))) [
        | inl (st, h) ↦ rw h (answered ps st sel h refl)
        | inr (e, h) ↦ rw h (failed ps ps [] e sel (sym (append-nil ps)) refl)
      ]

  get_rest :
      (request : Text) (payload : Fields) (ps : List Text) (s : List Effect)
      (x : Outcome (Unit {0}) × List Effect)
      → Selected payload ps
      → Refreshed ps s x
      → Got request payload s (continue x.0 (λ _. publish_state py ids client dev) x.1)
  get_rest request payload ps s x sel (all_read e) = rw e (Got-state request payload ps s sel)
  get_rest request payload ps s x sel (broke_off read unread c split e) =
      rw e (failed ps read unread c sel split refl)

  -- Whatever the request and the client's answers, `get` ends in one of three ways. If a requested
  -- property (with none named, any of the device) is unknown or cannot be read, it publishes one error
  -- message on the first such and reads nothing. If all can be read, it reads every attribute path of
  -- the requested properties (of all, if none is named), each once, and then publishes the state that
  -- the cache shows after the reads; or an exception ends it after the first few of those reads, before
  -- anything is published.
  pub get-Got :
      (request : Text) (payload : Fields) (s : List Effect)
      → Got request payload s (get py ids client request dev payload s)
  unfolding get
  get-Got request payload s = elim (Verdict-cases (gather ids dev (requested dev payload) [])) [
    | inr (m, h) ↦
        rw (h, get) (rejected m (gather_refused ids dev (requested dev payload) [] m h) refl)
    | inl (ps, h) ↦
        let (a, b, c) = gather_lem ids dev (requested dev payload) [] ps h tt in
        rw (h, get)
          (get_rest request payload ps s (refresh_all py ids client dev ps s)
            (record { readable = a; once = b; complete = unfold contains in c })
            (refresh_all_lem ps s))
  ]
