-- ===== src/Bridge/WriteLoop.antt =====
-- `order_writes` as a whole: the loop over the endpoints, from the lemmas about one endpoint.
use matter_thread2mqtt.Prelude.{
  ℤ, List, [], ◌∷◌, ◌++◌, Bool, true, false, not, ◌≡◌, refl, ◌∙◌, ap, sym, subst, inl, inr, int_eq,
  text_eq, eqb_ℤ, eqb_ℤ_iff, keep, find, all, All, arith, Bool-cases, keep-append, all-append,
  all-keep, All-append, append-nil,
}
use mathlib.Core.Path.{ap₂}
use matter_thread2mqtt.Python.{Runtime, Outcome, ok, raise, ◌>>=◌}
use matter_thread2mqtt.Bridge.{
  Write, Verdict, granted, refused, Group, is_state, at, add_to_group, group_from, has_name,
  arrange, arrange_all, order_writes,
}
use matter_thread2mqtt.Bridge.WriteOrder.{
  Writable, states, others, clash, expected, Arranged, arrange_lem,
}
use matter_thread2mqtt.Bridge.WriteGroups.{
  group_at, is_on, IsGrouped, group_from-IsGrouped, group_at-group, at-ne, at_self,
}

module _ (py : Runtime) where
  all-expected : (p : Write → Bool) (g : List Write) → all p g ≡ true → all p (expected py g) ≡ true
  all-expected p g h = ground (
    arith,
    all-keep p is_state g h,
    all-keep p (λ w. not (is_state w)) g h,
    all-append p (states g) (others g),
  )

  -- What the whole loop yields over groups of writes that were let through.
  abbrev Settled : List Group → Outcome (Verdict (List Write)) → Type 0
  Settled gs (ok (granted o)) =
      (ep : ℤ) → (clash py (group_at ep gs) ≡ false) × (at ep o ≡ expected py (group_at ep gs))
  Settled gs (ok (refused m)) = (ep : ℤ) × (clash py (group_at ep gs) ≡ true)
  Settled gs (raise e) = ⊥

  abbrev AllGroups : List Group → Type 0
  AllGroups [] = Unit
  AllGroups ((e, g) ∷ gs) = All (Writable py) g × AllGroups gs

  no_writes : (clash py [] ≡ false) × (expected py [] ≡ [])
  unfolding keep find has_name
  no_writes = (refl, refl)

  settle_head :
      (e : ℤ) (g o : List Write) (gs : List Group) (more : List Write)
      → all (is_on e) g ≡ true
      → group_at e gs ≡ []
      → clash py g ≡ false
      → o ≡ expected py g
      → Settled gs (ok (granted more))
      → Settled ((e, g) ∷ gs) (ok (granted (o ++ more)))
  unfolding group_at at
  settle_head e g o gs more own fresh calm arranged rest ep =
      let own_o : all (is_on e) o ≡ true = rw arranged (all-expected (is_on e) g own) in
      elim (Bool-cases (eqb_ℤ e ep)) [
        | inl same ↦
            let p : e ≡ ep = (eqb_ℤ_iff e ep).0 same in
            let none_left : at ep more ≡ [] =
              (rest ep).1
              ∙ ap (expected py) (subst (λ x. group_at x gs ≡ []) p fresh)
              ∙ no_writes.1 in
            rw same (
              calm,
              keep-append (is_on ep) o more
                  ∙ ap₂ ◌++◌ (at_self ep o (subst (λ x. all (is_on x) o ≡ true) p own_o)) none_left
                  ∙ append-nil o
                  ∙ arranged,
            )
        | inr other ↦ rw other (
          (rest ep).0,
          keep-append (is_on ep) o more
              ∙ ap (λ (l : List Write). l ++ at ep more)
                  (at-ne ep e o (λ p. ground (arith, eqb_ℤ_iff e ep)) own_o)
              ∙ (rest ep).1,
        )
      ]

  settle_cons :
      (e : ℤ) (g : List Write) (gs : List Group) (r rs : Outcome (Verdict (List Write)))
      → all (is_on e) g ≡ true
      → group_at e gs ≡ []
      → Arranged py g r
      → Settled gs rs
      → Settled ((e, g) ∷ gs) (
          r >>= λ v. elim v [
            | refused m ↦ ok (refused m)
            | granted first ↦ rs >>= λ rest.
                ok (elim rest [ refused m ↦ refused m | granted more ↦ granted (first ++ more) ])
          ])
  settle_cons e g gs (ok (granted o)) (ok (granted more)) own fresh (calm, arranged) rest =
      settle_head e g o gs more own fresh calm arranged rest
  settle_cons e g gs (ok (granted o)) (ok (refused m)) own fresh _ (ep, c) = (
    ep,
    unfold group_at in
        elim (Bool-cases (eqb_ℤ e ep)) [
          | inl same ↦ ground (
            arith,
            no_writes,
            ap (clash py) (subst (λ x. group_at x gs ≡ []) ((eqb_ℤ_iff e ep).0 same) fresh),
          )
          | inr other ↦ rw other c
        ],
  )
  settle_cons e g gs (ok (granted o)) (raise x) own fresh _ rest = absurd rest
  settle_cons e g gs (ok (refused m)) rs own fresh c rest =
      (e, unfold group_at in rw ((eqb_ℤ_iff e e).1 refl) c)
  settle_cons e g gs (raise x) rs own fresh c rest = absurd c

  arrange_all_lem : (gs : List Group) → IsGrouped gs → AllGroups gs → Settled gs (arrange_all py gs)
  unfolding arrange_all
  arrange_all_lem [] h a = λ ep. unfold group_at at keep in (no_writes.0, sym no_writes.1)
  arrange_all_lem ((e, g) ∷ gs) (own, fresh, h) (good, a) =
      settle_cons e g gs (arrange py e g) (arrange_all py gs) own fresh (arrange_lem py e g good)
        (arrange_all_lem gs h a)

  add_to_group-AllGroups :
      (e : ℤ) (w : Write) (gs : List Group)
      → Writable py w
      → AllGroups gs
      → AllGroups (add_to_group e w gs)
  unfolding add_to_group
  add_to_group-AllGroups e w [] h a = ((h, tt), tt)
  add_to_group-AllGroups e w ((k, g) ∷ gs) h (good, a) = elim (Bool-cases (eqb_ℤ k e)) [
    | inl same ↦ rw same (All-append (Writable py) g (w ∷ []) good (h, tt), a)
    | inr other ↦ rw other (good, add_to_group-AllGroups e w gs h a)
  ]

  group_from-AllGroups :
      (gs : List Group) (ws : List Write)
      → All (Writable py) ws
      → AllGroups gs
      → AllGroups (group_from gs ws)
  unfolding group_from
  group_from-AllGroups gs [] h a = a
  group_from-AllGroups gs (w ∷ ws) (h, hs) a =
      group_from-AllGroups (add_to_group w.cap.ep w gs) ws hs
        (add_to_group-AllGroups w.cap.ep w gs h a)

  -- The outcome of `order_writes` as it should be: an order in which every endpoint has its own
  -- writes, the state first and nothing else if the light turns off; or a refusal for an endpoint
  -- whose writes clash.
  abbrev pub Ordered : List Write → Outcome (Verdict (List Write)) → Type 0
  Ordered ws (ok (granted o)) =
      (ep : ℤ) → (clash py (at ep ws) ≡ false) × (at ep o ≡ expected py (at ep ws))
  Ordered ws (ok (refused m)) = (ep : ℤ) × (clash py (at ep ws) ≡ true)
  Ordered ws (raise e) = ⊥

  Settled-groups :
      (ws : List Write) (r : Outcome (Verdict (List Write)))
      → Settled (group_from [] ws) r
      → Ordered ws r
  Settled-groups ws (ok (granted o)) h = λ ep.
      subst (λ g. (clash py g ≡ false) × (at ep o ≡ expected py g)) (group_at-group ep ws) (h ep)
  Settled-groups ws (ok (refused m)) (ep, c) =
      (ep, subst (λ g. clash py g ≡ true) (group_at-group ep ws) c)
  Settled-groups ws (raise e) h = h

  -- For writes that were let through by `validate`, `order_writes` never raises. It refuses the
  -- request only if on some endpoint color_temp and color are both set, or a TOGGLE comes with other
  -- properties. Otherwise no endpoint has such a clash, and on every endpoint the ordered writes are
  -- those that were requested there, in their order but with the state writes first, and without
  -- the other properties where the state asked for is OFF.
  pub order_writes_lem : (ws : List Write) → All (Writable py) ws → Ordered ws (order_writes py ws)
  unfolding order_writes
  order_writes_lem ws h = Settled-groups ws (arrange_all py (group_from [] ws)) (
      arrange_all_lem (group_from [] ws) (group_from-IsGrouped [] ws tt)
        (group_from-AllGroups [] ws h tt))
