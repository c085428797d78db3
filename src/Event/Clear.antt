-- ===== src/Event/Clear.antt =====
-- `cwmp_event_clear_active` of libcwmp/src/event.c: what the end of an Inform leaves behind.
use netcwmp.Common.{
  ℕ, zero, suc, ◌≡◌, refl, sym, ◌∙◌, ap, Bool, true, false, ◌&&◌, ◌||◌, List, [], ◌∷◌, none, length,
  drop, ◌==◌, if◌then◌else◌, arith, is_pos, Bool-cases, inl, inr, has_flag,
}
use netcwmp.Event.{
  inform_bootstrap, inform_mreboot, inform_transfercomplete, bootstrap_flag, acs_flag,
  transfercomplete_flag, EventCode, EventGlobal, SaveOutcome, saves, EventFile, holds, Events,
  clear_case, clear_slots, clear_global, clear_active,
}
use netcwmp.Event.Slots.{lookup, pending, raised, IsQuiet, IsWf, is_some, raised-pending}

length-clear_slots : (n : ℕ) (es : List EventCode) → length (clear_slots n es) ≡ length es
unfolding clear_slots
length-clear_slots zero es = refl
length-clear_slots (suc n) [] = refl
length-clear_slots (suc n) (e ∷ es) = ap suc (length-clear_slots n es)

clear_slots-IsQuiet :
    (n : ℕ) (es : List EventCode) → IsQuiet (drop n es) → IsQuiet (clear_slots n es)
unfolding clear_slots
clear_slots-IsQuiet zero es q = q
clear_slots-IsQuiet (suc n) [] q = tt
clear_slots-IsQuiet (suc n) (e ∷ es) q =
    (elim (Bool-cases (is_pos e.ref)) [ inl p ↦ rw p | inr p ↦ rw p p ], clear_slots-IsQuiet n es q)

-- Clearing keeps a well-formed list well-formed, and afterwards no event is pending.
pub clear_active-IsWf :
    (io : ℕ → SaveOutcome) (s : Events)
    → IsWf s.el
    → IsWf (clear_active io s).el × ((j : ℕ) → pending (clear_active io s).el j ≡ none)
unfolding clear_active pending lookup
clear_active-IsWf io s v = (
  record {
    full = length-clear_slots s.el.count s.el.events ∙ v.full;
    bounded = omega arith;
    quiet = clear_slots-IsQuiet s.el.count s.el.events v.quiet;
    distinct = tt;
  },
  λ j. refl,
)

-- The saves of the loop all succeed.
abbrev pub AllSave : (ℕ → SaveOutcome) → Type 0
AllSave io = (k : ℕ) → io k ≡ saves

-- What the loop does to the two flags that it sets, and to the one that it does not.
clear_case-flags :
    (io : SaveOutcome) (e : EventCode) (g : EventGlobal) (file : EventFile)
    → let flag = g.event_flag in
      let flag' = (clear_case io e (g, file)).0.event_flag in
      (has_flag flag' acs_flag
        ≡ (has_flag flag acs_flag || (e.event == inform_bootstrap || e.event == inform_mreboot)))
      × (has_flag flag' transfercomplete_flag
          ≡ (has_flag flag transfercomplete_flag || e.event == inform_transfercomplete))
      × (has_flag flag' bootstrap_flag ≡ has_flag flag bootstrap_flag)
unfolding clear_case
clear_case-flags io e g file = ground arith

clear_global-flags :
    (io : ℕ → SaveOutcome) (n : ℕ) (es : List EventCode) (g : EventGlobal) (file : EventFile)
    → let flag = g.event_flag in
      let flag' = (clear_global io n es (g, file)).0.event_flag in
      (has_flag flag' acs_flag
        ≡ (has_flag flag acs_flag || (raised inform_bootstrap n es || raised inform_mreboot n es)))
      × (has_flag flag' transfercomplete_flag
          ≡ (has_flag flag transfercomplete_flag || raised inform_transfercomplete n es))
      × (has_flag flag' bootstrap_flag ≡ has_flag flag bootstrap_flag)
unfolding clear_global raised
clear_global-flags io zero es g file = ground arith
clear_global-flags io (suc n) [] g file = ground arith
clear_global-flags io (suc n) (e ∷ es) g file = elim (Bool-cases (is_pos e.ref)) [
  | inl on ↦ rw on (
      ground (
        arith,
        clear_case-flags (io n) e g file,
        clear_global-flags io n es (clear_case (io n) e (g, file)).0
            (clear_case (io n) e (g, file)).1,
      ))
  | inr off ↦ rw off (ground (arith, clear_global-flags io n es g file))
]

-- One of the three events for which the loop saves.
abbrev pub saved_event : ℕ → List EventCode → Bool
saved_event n es =
    raised inform_bootstrap n es
    || (raised inform_mreboot n es || raised inform_transfercomplete n es)

abbrev is_saved : EventCode → Bool
is_saved e =
    e.event == inform_bootstrap || (e.event == inform_mreboot || e.event == inform_transfercomplete)

-- After the loop the file holds the record of after the loop, if there was anything to save.
abbrev Kept : Bool → EventGlobal × EventFile → EventGlobal × EventFile → Type 0
Kept b before after =
    (after.1 ≡ (if b then holds after.0 else before.1)) × (b ≡ false → after.0 ≡ before.0)

clear_case-Kept :
    (io : SaveOutcome) (e : EventCode) (g : EventGlobal × EventFile)
    → io ≡ saves
    → Kept (is_saved e) g (clear_case io e g)
unfolding clear_case
clear_case-Kept io e (g, file) h = rw h (ground arith)

Kept-trans :
    (a b : Bool) (x y z : EventGlobal × EventFile) → Kept a x y → Kept b y z → Kept (b || a) x z
Kept-trans true true x y z h k = ground arith
Kept-trans true false x y z h k = (k.0 ∙ h.0 ∙ ap holds (sym (k.1 refl)), λ e. cc)
Kept-trans false true x y z h k = ground arith
Kept-trans false false x y z h k = (k.0 ∙ h.0, λ e. k.1 e ∙ h.1 refl)

saved_event-suc :
    (n : ℕ) (e : EventCode) (es : List EventCode)
    → saved_event (suc n) (e ∷ es) ≡ (saved_event n es || (is_pos e.ref && is_saved e))
unfolding raised
saved_event-suc n e es = ground arith

clear_global-Kept :
    (io : ℕ → SaveOutcome) (n : ℕ) (es : List EventCode) (g : EventGlobal × EventFile)
    → AllSave io
    → Kept (saved_event n es) g (clear_global io n es g)
unfolding clear_global
clear_global-Kept io zero es g h = unfold raised in (refl, λ e. refl)
clear_global-Kept io (suc n) [] g h = unfold raised in (refl, λ e. refl)
clear_global-Kept io (suc n) (e ∷ es) g h =
    rw (saved_event-suc n e es)
      (elim (is_pos e.ref)
        as (λ b.
          Kept (saved_event n es || (b && is_saved e)) g
            (clear_global io n es (if b then clear_case (io n) e g else g))) [
              | true ↦
                  Kept-trans (is_saved e) (saved_event n es) g _ _
                    (clear_case-Kept (io n) e g (h n))
                    (clear_global-Kept io n es (clear_case (io n) e g) h)
              | false ↦
                  Kept-trans false (saved_event n es) g g _ (refl, λ e. refl)
                    (clear_global-Kept io n es g h)
            ])

-- After `cwmp_event_clear_active` on a well-formed list the ACS flag is set if it was, or if a
-- bootstrap or a reboot was pending; the transfer flag if it was, or if a transfer was pending; the
-- bootstrap flag as before.
pub clear_active-flags :
    (io : ℕ → SaveOutcome) (s : Events)
    → IsWf s.el
    → let flag = s.global.event_flag in
      let flag' = (clear_active io s).global.event_flag in
      (has_flag flag' acs_flag ≡ (
        has_flag flag acs_flag
        || (is_some (pending s.el inform_bootstrap) || is_some (pending s.el inform_mreboot))))
      × (has_flag flag' transfercomplete_flag
          ≡ (has_flag flag transfercomplete_flag || is_some (pending s.el inform_transfercomplete)))
      × (has_flag flag' bootstrap_flag ≡ has_flag flag bootstrap_flag)
unfolding clear_active
clear_active-flags io s v =
    rw
      (
        ← raised-pending inform_bootstrap s.el v,
        ← raised-pending inform_mreboot s.el v,
        ← raised-pending inform_transfercomplete s.el v,
      )
      (clear_global-flags io s.el.count s.el.events s.global s.file)

-- With a well-formed list: if every save succeeds and a bootstrap, a reboot or a transfer was
-- pending, then the next start reads from the file the very record that the call leaves; otherwise
-- record and file stay.
pub clear_active_saved :
    (io : ℕ → SaveOutcome) (s : Events)
    → IsWf s.el
    → AllSave io
    → let s' = clear_active io s in
      let b =
        is_some (pending s.el inform_bootstrap)
        || (is_some (pending s.el inform_mreboot)
            || is_some (pending s.el inform_transfercomplete)) in
      (s'.file ≡ (if b then holds s'.global else s.file)) × (b ≡ false → s'.global ≡ s.global)
unfolding clear_active
clear_active_saved io s v h =
    rw
      (
        ← raised-pending inform_bootstrap s.el v,
        ← raised-pending inform_mreboot s.el v,
        ← raised-pending inform_transfercomplete s.el v,
      )
      (clear_global-Kept io s.el.count s.el.events (s.global, s.file) h)
