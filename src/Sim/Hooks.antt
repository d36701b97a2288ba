-- ===== src/Sim/Hooks.antt =====
-- include/besm-666/sim/hooks.hpp and src/sim/hooks.cpp: the callbacks and the order of their calls.
use besm.Prelude.{
  ℕ, ◌≤◌, ◌<◌, ◌==◌, ==_iff, ltb, ltb→lt, false, Bool-cases, List, [], ◌∷◌, ◌++◌, if◌then◌else◌,
  inl, inr, ◌≡◌, refl, sym, ap, ◌∙◌, subst, arith,
}

-- The events, by their number in the enumeration.
abbrev pub bb_fetched : ℕ
bb_fetched = 0

abbrev pub instr_executed : ℕ
instr_executed = 1

-- A hook: its event, and its callback by name. The multimap is ordered by the events.
abbrev pub Hook : Type 0
Hook = ℕ × ℕ

-- `hooks_.insert` of `doRegisterHook`: behind the hooks of its event and of those before it.
unfoldable pub do_register_hook : Hook → List Hook → List Hook
do_register_hook hook [] = hook ∷ []
do_register_hook hook (first ∷ hooks) =
    let rest = do_register_hook hook hooks in
    if ltb hook.0 first.0 then hook ∷ first ∷ hooks else first ∷ rest

unfoldable pub register_bb_fetch_hook : ℕ → List Hook → List Hook
register_bb_fetch_hook callback hooks = do_register_hook (bb_fetched, callback) hooks

unfoldable pub register_instr_exec_hook : ℕ → List Hook → List Hook
register_instr_exec_hook callback hooks = do_register_hook (instr_executed, callback) hooks

-- `equal_range`: from the first hook that is not before the event, while they are of the event.
unfoldable pub upper_part : ℕ → List Hook → List ℕ
upper_part event [] = []
upper_part event (first ∷ hooks) =
    let rest = upper_part event hooks in if ltb event first.0 then [] else first.1 ∷ rest

unfoldable pub equal_range : ℕ → List Hook → List ℕ
unfolding upper_part
equal_range event [] = []
equal_range event (first ∷ hooks) =
    let rest = equal_range event hooks in
    if ltb first.0 event then rest else upper_part event (first ∷ hooks)

-- The callbacks that `doTriggerHooks` calls, in their order.
unfoldable pub do_trigger_hooks : ℕ → List Hook → List ℕ
unfolding equal_range
do_trigger_hooks event hooks = equal_range event hooks

-- Hooks that are registered one after the other.
unfoldable pub register_all : List Hook → List Hook → List Hook
register_all [] hooks = hooks
register_all (hook ∷ registered) hooks = register_all registered (do_register_hook hook hooks)

-- The callback of a hook that is of the event.
unfoldable pub own : ℕ → Hook → List ℕ
own event hook = if hook.0 == event then hook.1 ∷ [] else []

-- The callbacks of an event, in the order of a list.
unfoldable pub callbacks_of : ℕ → List Hook → List ℕ
callbacks_of event [] = []
callbacks_of event (first ∷ hooks) = own event first ++ callbacks_of event hooks

-- The order of the multimap.
unfoldable pub IsOrdered : ℕ → List Hook → Type 0
IsOrdered least [] = Unit
IsOrdered least (first ∷ hooks) = (least ≤ first.0) × IsOrdered first.0 hooks

not_before : (a b : ℕ) → ltb a b ≡ false → b ≤ a
not_before a b h = ground arith

append-nil : (l : List ℕ) → l ++ [] ≡ l
append-nil [] = refl
append-nil (x ∷ l) = ap (λ (r : List ℕ). x ∷ r) (append-nil l)

append_assoc : (one two three : List ℕ) → (one ++ two) ++ three ≡ one ++ (two ++ three)
append_assoc [] two three = refl
append_assoc (x ∷ one) two three = ap (λ (r : List ℕ). x ∷ r) (append_assoc one two three)

register-IsOrdered :
    (least : ℕ) (hook : Hook) (hooks : List Hook)
    → least ≤ hook.0
    → IsOrdered least hooks
    → IsOrdered least (do_register_hook hook hooks)
unfolding do_register_hook IsOrdered
register-IsOrdered least hook [] h ordered = (h, tt)
register-IsOrdered least hook (first ∷ hooks) h (le, ordered) =
    elim (Bool-cases (ltb hook.0 first.0)) [
      | inl before ↦ rw before (h, (omega (arith, ltb→lt hook.0 first.0 before), ordered))
      | inr behind ↦
          rw behind
            (le, register-IsOrdered first.0 hook hooks (not_before hook.0 first.0 behind) ordered)
    ]

-- There is no callback of an event before all hooks.
none_before :
    (event least : ℕ) (hooks : List Hook)
    → event < least
    → IsOrdered least hooks
    → callbacks_of event hooks ≡ []
unfolding callbacks_of IsOrdered own
none_before event least [] h ordered = refl
none_before event least (first ∷ hooks) h (le, ordered) =
    let other : first.0 == event ≡ false = ground arith in
    rw other (none_before event first.0 hooks (omega arith) ordered)

own-none : (event : ℕ) (hook : Hook) → hook.0 == event ≡ false → own event hook ≡ []
unfolding own
own-none event hook other = rw other refl

-- A hook is called behind those that were there.
register-callbacks :
    (event least : ℕ) (hook : Hook) (hooks : List Hook)
    → IsOrdered least hooks
    → callbacks_of event (do_register_hook hook hooks) ≡ callbacks_of event hooks ++ own event hook
unfolding do_register_hook callbacks_of IsOrdered
register-callbacks event least hook [] ordered = append-nil (own event hook)
register-callbacks event least hook (first ∷ hooks) (le, ordered) =
    elim (Bool-cases (ltb hook.0 first.0)) [
      | inl before ↦ elim (Bool-cases (hook.0 == event)) [
        | inl same ↦
            let before_all : event < first.0 =
              omega (arith, ltb→lt hook.0 first.0 before, (==_iff hook.0 event).0 same) in
            let other : first.0 == event ≡ false = ground arith in
            rw
              (
                before,
                own-none event first other,
                none_before event first.0 hooks before_all ordered,
              )
              (append-nil (own event hook))
        | inr other ↦
            rw (before, own-none event hook other)
              (sym (append-nil (own event first ++ callbacks_of event hooks)))
      ]
      | inr behind ↦ rw behind (
          ap (λ (l : List ℕ). own event first ++ l)
            (register-callbacks event first.0 hook hooks ordered)
          ∙ sym (append_assoc (own event first) (callbacks_of event hooks) (own event hook)))
    ]

all-callbacks :
    (event : ℕ) (registered hooks : List Hook)
    → IsOrdered 0 hooks
    → (callbacks_of event (register_all registered hooks)
        ≡ callbacks_of event hooks ++ callbacks_of event registered)
      × IsOrdered 0 (register_all registered hooks)
unfolding register_all callbacks_of
all-callbacks event [] hooks ordered = (sym (append-nil (callbacks_of event hooks)), ordered)
all-callbacks event (hook ∷ registered) hooks ordered =
    let (same, later) =
      all-callbacks event registered (do_register_hook hook hooks)
        (register-IsOrdered 0 hook hooks (omega arith) ordered) in
    (
      same
          ∙ ap (λ (l : List ℕ). l ++ callbacks_of event registered)
              (register-callbacks event 0 hook hooks ordered)
          ∙ append_assoc (callbacks_of event hooks) (own event hook)
              (callbacks_of event registered),
      later,
    )

-- The part up to the end of an event, of hooks that are not before it.
upper-callbacks :
    (event : ℕ) (hooks : List Hook)
    → IsOrdered event hooks
    → upper_part event hooks ≡ callbacks_of event hooks
unfolding upper_part callbacks_of IsOrdered own
upper-callbacks event [] ordered = refl
upper-callbacks event (first ∷ hooks) (le, ordered) = elim (Bool-cases (ltb event first.0)) [
  | inl behind ↦
      let other : first.0 == event ≡ false = ground arith in
      rw (behind, other)
        (sym (none_before event first.0 hooks (ltb→lt event first.0 behind) ordered))
  | inr same ↦
      let equal : first.0 ≡ event = ground arith in
      rw (same, (==_iff first.0 event).1 equal)
        (ap (λ (l : List ℕ). first.1 ∷ l)
          (upper-callbacks event hooks (subst (λ e. IsOrdered e hooks) equal ordered)))
]

at_range :
    (event : ℕ) (first : Hook) (hooks : List Hook)
    → event ≤ first.0
    → IsOrdered first.0 hooks
    → upper_part event (first ∷ hooks) ≡ own event first ++ callbacks_of event hooks
unfolding callbacks_of IsOrdered
at_range event first hooks h ordered = upper-callbacks event (first ∷ hooks) (h, ordered)

range-callbacks :
    (event least : ℕ) (hooks : List Hook)
    → IsOrdered least hooks
    → equal_range event hooks ≡ callbacks_of event hooks
unfolding equal_range callbacks_of IsOrdered
range-callbacks event least [] ordered = refl
range-callbacks event least (first ∷ hooks) (le, ordered) = elim (Bool-cases (ltb first.0 event)) [
  | inl before ↦
      let other : first.0 == event ≡ false = ground arith in
      rw (before, own-none event first other) (range-callbacks event first.0 hooks ordered)
  | inr reached ↦ rw reached (at_range event first hooks (not_before first.0 event reached) ordered)
]

-- When hooks are registered one after the other with a new manager, a triggered event calls the
-- callbacks of the event, in the order of their registration.
pub trigger-registered :
    (event : ℕ) (registered : List Hook)
    → do_trigger_hooks event (register_all registered []) ≡ callbacks_of event registered
unfolding do_trigger_hooks callbacks_of IsOrdered
trigger-registered event registered =
    let (same, ordered) = all-callbacks event registered [] tt in
    range-callbacks event 0 (register_all registered []) ordered ∙ same
