-- ===== src/Amqp/Reactor/Handlers/Bound.antt =====
-- What the handler of amqp/reactor/handlers.ts does with an event.
use axiam_typescript_sdk.Prelude.{
  ◌≡◌, ◌∙◌, ◌⊎◌, inl, inr, refl, sym, ap, subst, String, List, [], ◌∷◌, Option, none, some, str_eq,
  eq_iff, if◌then◌else◌, Bool-cases, Option-cases, is_some,
}
use axiam_typescript_sdk.Prelude.Dict
use axiam_typescript_sdk.Amqp.Reactor.Registry.{event_spec}
use axiam_typescript_sdk.Amqp.Reactor.Protocol.{ReactorEvent}
use axiam_typescript_sdk.Amqp.Reactor.Runtime.{settles, abstains}
use axiam_typescript_sdk.Amqp.Reactor.Handlers.{
  ReactorHandler, ReactorHandlerMap, BindingError, Binding, bound, refused, bind_group, bind_groups,
  nonempty, reactor_handlers, dispatch,
}

-- The first binding of a name in a group.
abbrev in_group : String → ReactorHandlerMap → Option ReactorHandler
in_group k [] = none
in_group k ((event, none) ∷ group) = in_group k group
in_group k ((event, some h) ∷ group) = if str_eq event k then some h else in_group k group

abbrev first_of : Option ReactorHandler → Option ReactorHandler → Option ReactorHandler
first_of none later = later
first_of (some h) later = some h

-- The first binding of a name in the groups.
abbrev pub binding_of : String → List ReactorHandlerMap → Option ReactorHandler
binding_of k [] = none
binding_of k (g ∷ gs) = first_of (in_group k g) (binding_of k gs)

first_of-none : (o : Option ReactorHandler) → first_of o none ≡ o
first_of-none none = refl
first_of-none (some h) = refl

bound_injective : {a b : List (String × ReactorHandler)} → bound a ≡ bound b → a ≡ b
bound_injective e = cc

refused_bound : {e : BindingError} {a : List (String × ReactorHandler)} → refused e ≡ bound a → ⊥
refused_bound e = cc

first_of_assoc :
    (a b c : Option ReactorHandler) → first_of (first_of a b) c ≡ first_of a (first_of b c)
first_of_assoc none b c = refl
first_of_assoc (some h) b c = refl

Binding-cases :
    (b : Binding)
    → ((e : BindingError) × (b ≡ refused e))
      ⊎ ((t : List (String × ReactorHandler)) × (b ≡ bound t))
Binding-cases (refused e) = inl (e, refl)
Binding-cases (bound t) = inr (t, refl)

nonempty_lem : (t table : List (String × ReactorHandler)) → nonempty t ≡ bound table → t ≡ table
nonempty_lem [] table e = absurd (refused_bound e)
nonempty_lem (b ∷ t) table e = bound_injective e

bind_group-get :
    (table : List (String × ReactorHandler)) (group : ReactorHandlerMap)
    (result : List (String × ReactorHandler))
    → bind_group table group ≡ bound result
    → (k : String) → Dict.get k result ≡ first_of (Dict.get k table) (in_group k group)
unfolding bind_group
bind_group-get table [] result e k =
    subst (λ t. Dict.get k t ≡ first_of (Dict.get k table) none) (bound_injective e)
      (sym (first_of-none (Dict.get k table)))
bind_group-get table ((event, none) ∷ group) result e k =
    elim (Bool-cases (is_some (event_spec event))) [
      | inl known ↦ absurd (refused_bound (rw (known, bind_group) at e))
      | inr unknown ↦ absurd (refused_bound (rw (unknown, bind_group) at e))
    ]
bind_group-get table ((event, some h) ∷ group) result e k =
    elim (Bool-cases (is_some (event_spec event))) [
      | inr unknown ↦ absurd (refused_bound (rw (unknown, bind_group) at e))
      | inl known ↦ elim (Option-cases (Dict.get event table)) [
        | inr (x, taken) ↦ absurd (refused_bound (rw (known, taken, bind_group) at e))
        | inl free ↦
            let rest =
              bind_group-get (Dict.set event h table) group result
                (rw (known, free, bind_group) at e) k in
            rest ∙ step event h table group k free
      ]
    ]
  where
    step :
        (event : String) (h : ReactorHandler) (table : List (String × ReactorHandler))
        (group : ReactorHandlerMap) (k : String)
        → Dict.get event table ≡ none
        → first_of (Dict.get k (Dict.set event h table)) (in_group k group)
          ≡ first_of (Dict.get k table) (if str_eq event k then some h else in_group k group)
    step event h table group k free = elim (Bool-cases (str_eq event k)) [
      | inl hit ↦
          let missing = subst (λ x. Dict.get x table ≡ none) ((eq_iff event k).0 hit) free in
          rw (Dict.get-set event k h table, hit, missing) refl
      | inr miss ↦ rw (Dict.get-set event k h table, miss) refl
    ]

bind_groups-get :
    (table : List (String × ReactorHandler)) (groups : List ReactorHandlerMap)
    (result : List (String × ReactorHandler))
    → bind_groups table groups ≡ bound result
    → (k : String) → Dict.get k result ≡ first_of (Dict.get k table) (binding_of k groups)
unfolding bind_groups
bind_groups-get table [] result e k =
    subst (λ t. Dict.get k t ≡ first_of (Dict.get k table) none) (bound_injective e)
      (sym (first_of-none (Dict.get k table)))
bind_groups-get table (g ∷ gs) result e k = elim (Binding-cases (bind_group table g)) [
  | inl (x, bad) ↦ absurd (refused_bound (rw (bad, bind_groups) at e))
  | inr (t, good) ↦
      bind_groups-get t gs result (rw (good, bind_groups) at e) k
      ∙ ap (λ o. first_of o (binding_of k gs)) (bind_group-get table g t good k)
      ∙ first_of_assoc (Dict.get k table) (in_group k g) (binding_of k gs)
]

-- An event runs the first handler that a group binds to its name, and where none does it is
-- abstained from.
pub dispatch-binding_of :
    (groups : List ReactorHandlerMap) (table : List (String × ReactorHandler))
    (event : ReactorEvent)
    → reactor_handlers groups ≡ bound table
    → dispatch table event ≡ elim (binding_of event.event groups) [
      | none ↦ settles abstains
      | some handler ↦ handler event
    ]
unfolding reactor_handlers dispatch
dispatch-binding_of groups table event e = elim (Binding-cases (bind_groups [] groups)) [
  | inl (x, bad) ↦ absurd (refused_bound (rw (bad, reactor_handlers) at e))
  | inr (t, good) ↦
      let same = nonempty_lem t table (rw (good, reactor_handlers) at e) in
      rw (bind_groups-get [] groups table (good ∙ ap bound same) event.event, dispatch) refl
]
