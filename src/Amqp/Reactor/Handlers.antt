-- ===== src/Amqp/Reactor/Handlers.antt =====
-- amqp/reactor/handlers.ts: one handler out of groups of handlers by event name.
pub mod Bound
mod Tests
use axiam_typescript_sdk.Prelude.{
  ℕ, zero, suc, ◌+◌, ◌-◌, ◌*◌, ◌^◌, ◌≤◌, ◌<◌, min, max, ◌≡◌, ◌≢◌, ◌↔◌, ◌∙◌, ◌⊎◌, inl, inr, refl,
  sym, ap, subst, String, Bool, true, false, not, ◌&&◌, ◌||◌, List, [], ◌∷◌, ◌++◌, map, Option,
  none, some, arith, str_eq, eq_iff, ltb, leb, ◌==◌, if◌then◌else◌, ltb→lt, lt→ltb, leb→le, le→leb,
  ==_iff, Bool-cases, Option-cases, or_else, is_some, length, length-append, All, All-append, any,
  contains,
}
use axiam_typescript_sdk.Prelude.Dict
use axiam_typescript_sdk.Amqp.Reactor.Registry.{event_spec}
use axiam_typescript_sdk.Amqp.Reactor.Protocol.{ReactorEvent}
use axiam_typescript_sdk.Amqp.Reactor.Runtime.{HandlerRun, settles, abstains}

abbrev pub ReactorHandler : Type 0
ReactorHandler = ReactorEvent → HandlerRun

-- A group: what its properties are bound to, `none` where that is not a function.
abbrev pub ReactorHandlerMap : Type 0
ReactorHandlerMap = List (String × Option ReactorHandler)

pub data BindingError : Type 0 where
  not_hookable not_a_function already_bound : (event : String) → BindingError
  no_bindings : BindingError

pub data Binding : Type 0 where
  refused : BindingError → Binding
  bound : List (String × ReactorHandler) → Binding

abbrev with_handler : String → Option ReactorHandler → (ReactorHandler → Binding) → Binding
with_handler event none next = refused (not_a_function event)
with_handler event (some handler) next = next handler

-- The loop over the properties of one group.
pub bind_group : List (String × ReactorHandler) → ReactorHandlerMap → Binding
unfolding event_spec
bind_group table [] = bound table
bind_group table ((event, handler) ∷ group) =
    if not (is_some (event_spec event))
    then refused (not_hookable event)
    else with_handler event handler (λ h.
      let rest = bind_group (Dict.set event h table) group in
      if is_some (Dict.get event table) then refused (already_bound event) else rest)

abbrev after : Binding → (List (String × ReactorHandler) → Binding) → Binding
after (refused e) next = refused e
after (bound table) next = next table

-- The loop over the groups.
pub bind_groups : List (String × ReactorHandler) → List ReactorHandlerMap → Binding
unfolding bind_group
bind_groups table [] = bound table
bind_groups table (g ∷ gs) = after (bind_group table g) (λ table. bind_groups table gs)

abbrev nonempty : List (String × ReactorHandler) → Binding
nonempty [] = refused no_bindings
nonempty (b ∷ table) = bound (b ∷ table)

pub reactor_handlers : List ReactorHandlerMap → Binding
unfolding bind_groups
reactor_handlers groups = after (bind_groups [] groups) nonempty

-- The handler that is answered: an event that is not bound is abstained from.
pub dispatch : List (String × ReactorHandler) → ReactorHandler
dispatch table event = elim (Dict.get event.event table) [
  | none ↦ settles abstains
  | some handler ↦ handler event
]
