-- ===== src/Event/Inform/Lists.antt =====
-- The event list of an Inform (cwmpd/src/agent.c) against the pending events.
use Prim.Native.Nat.{max}
use netcwmp.Common.{
  ℕ, zero, suc, ◌≤◌, ◌≡◌, refl, ap, ◌∙◌, false, List, [], ◌∷◌, Option, none, some, length, ◌==◌,
  if◌then◌else◌, arith, Bool-cases, inl, inr, ==_iff, subst,
}
use netcwmp.Event.{inform_max, EventCode, EventList}
use netcwmp.Event.Slots.{live, lookup, pending, raised, IsDistinct, IsWf, raised-lookup}
use netcwmp.Event.Inform.{inform_entry, active_slots, boot_entry, or_boot, get_active_event}

-- The first entry of an Inform with event `j`.
pub find_entry : ℕ → List EventCode → Option EventCode
find_entry j [] = none
find_entry j (e ∷ es) = if e.event == j then some e else find_entry j es

abbrev pub entry : Option EventCode → Option EventCode
entry none = none
entry (some e) = some (inform_entry e)

find_entry-active_slots :
    (j n : ℕ) (es : List EventCode)
    → IsDistinct n es
    → find_entry j (active_slots n es) ≡ entry (live (lookup j n es))
unfolding find_entry active_slots lookup inform_entry
find_entry-active_slots j zero es d = refl
find_entry-active_slots j (suc n) [] d = refl
find_entry-active_slots j (suc n) (e ∷ es) d = elim (Bool-cases (e.event == j)) [
  | inl hit ↦
      let quiet : raised j n es ≡ false =
        subst (λ k. raised k n es ≡ false) ((==_iff e.event j).0 hit) d.0 in
      ground (arith, raised-lookup j n es d.1, find_entry-active_slots j n es d.1)
  | inr miss ↦ ground (arith, find_entry-active_slots j n es d.1)
]

not-nil : (j : ℕ) (e : EventCode) (es : List EventCode) → find_entry j es ≡ some e → or_boot es ≡ es
unfolding find_entry or_boot
not-nil j e [] h = cc
not-nil j e (x ∷ es) h = refl

nil_of_none : (es : List EventCode) → ((j : ℕ) → find_entry j es ≡ none) → es ≡ []
unfolding find_entry
nil_of_none [] h = refl
nil_of_none (e ∷ es) h = ground (arith, h e.event)

-- If some event `k` is pending in a well-formed list, the Inform has an entry for an event `j`
-- exactly when `j` is pending: it is the slot's event and code, and its command key for a bootstrap
-- or a reboot only.
pub get_active_event_lists :
    (el : EventList) (k : ℕ) (e : EventCode) (j : ℕ)
    → IsWf el
    → pending el k ≡ some e
    → find_entry j (get_active_event el) ≡ entry (pending el j)
unfolding get_active_event pending
get_active_event_lists el k e j v h =
    let here = find_entry-active_slots k el.count el.events v.distinct in
    rw (not-nil k (inform_entry e) (active_slots el.count el.events) (here ∙ ap entry h))
      (find_entry-active_slots j el.count el.events v.distinct)

-- If no event is pending in a well-formed list, the Inform has the one event `1 BOOT`.
pub get_active_event_boot :
    (el : EventList)
    → IsWf el
    → ((j : ℕ) → pending el j ≡ none)
    → get_active_event el ≡ boot_entry ∷ []
unfolding get_active_event pending or_boot
get_active_event_boot el v h = ap or_boot (
    nil_of_none (active_slots el.count el.events)
      (λ j. find_entry-active_slots j el.count el.events v.distinct ∙ ap entry (h j)))

length-active_slots : (n : ℕ) (es : List EventCode) → length (active_slots n es) ≤ n
unfolding active_slots
length-active_slots zero es = omega arith
length-active_slots (suc n) [] = omega arith
length-active_slots (suc n) (e ∷ es) = ground (arith, length-active_slots n es)

length-or_boot : (es : List EventCode) → length (or_boot es) ≡ max 1 (length es)
unfolding or_boot
length-or_boot [] = omega arith
length-or_boot (e ∷ es) = omega arith

-- The list of an Inform from a well-formed list of `INFORM_MAX` slots at most is never empty, and
-- fits into the `INFORM_MAX` places that the code gives it.
pub length-get_active_event :
    (el : EventList)
    → IsWf el
    → el.size ≤ inform_max
    → (1 ≤ length (get_active_event el)) × (length (get_active_event el) ≤ inform_max)
unfolding get_active_event
length-get_active_event el v h = omega (
  arith,
  v.bounded,
  length-active_slots el.count el.events,
  length-or_boot (active_slots el.count el.events),
)
