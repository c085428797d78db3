-- ===== src/Event/Slots.antt =====
-- The abstract view of the event list of libcwmp/src/event.c: which events are pending. A slot
-- counts if its `ref` is positive and it is the first of the `count` slots with its event.
use netcwmp.Common.{
  ℕ, zero, suc, ◌≤◌, ◌<◌, ◌≡◌, refl, false, ◌&&◌, ◌||◌, Bool, true, ◌≢◌, List, [], ◌∷◌, Option,
  none, some, length, set, drop, All, length-replicate, replicate, ◌==◌, if◌then◌else◌, arith,
  is_pos, Bool-cases, inl, inr, ==_iff, ◌∙◌, subst,
}
use netcwmp.Event.{EventCode, blank, EventList, find_slot, list_create}

unfoldable pub lookup : ℕ → ℕ → List EventCode → Option EventCode
lookup j zero es = none
lookup j (suc n) [] = none
lookup j (suc n) (e ∷ es) = if e.event == j then some e else lookup j n es

abbrev pub live : Option EventCode → Option EventCode
live none = none
live (some e) = if is_pos e.ref then some e else none

-- The slot, if any, in which event `j` waits to be reported.
unfoldable pub pending : EventList → ℕ → Option EventCode
unfolding lookup
pending el j = live (lookup j el.count el.events)

abbrev pub IsQuiet : List EventCode → Type 0
IsQuiet = All (λ e. is_pos e.ref ≡ false)

-- One of the first `n` slots is live and has event `j`.
unfoldable pub raised : ℕ → ℕ → List EventCode → Bool
raised j zero es = false
raised j (suc n) [] = false
raised j (suc n) (e ∷ es) = (e.event == j && is_pos e.ref) || raised j n es

-- A live slot is the first with its event.
abbrev pub IsDistinct : ℕ → List EventCode → Type 0
IsDistinct zero es = Unit
IsDistinct (suc n) [] = Unit
IsDistinct (suc n) (e ∷ es) = (raised e.event n es ≡ false) × IsDistinct n es

-- The slots are there, those from `count` on are not live, and no event is live in a slot behind
-- another slot with that event.
pub record IsWf (el : EventList) : Type 0 where
  pub full : length el.events ≡ el.size
  pub bounded : el.count ≤ el.size
  pub quiet : IsQuiet (drop el.count el.events)
  pub distinct : IsDistinct el.count el.events

-- Counting one more slot that is not live changes nothing.
lookup-suc :
    (j n : ℕ) (es : List EventCode)
    → IsQuiet (drop n es)
    → live (lookup j (suc n) es) ≡ live (lookup j n es)
unfolding lookup
lookup-suc j zero [] q = refl
lookup-suc j zero (e ∷ es) q = ground arith
lookup-suc j (suc n) [] q = refl
lookup-suc j (suc n) (e ∷ es) q = ground (arith, lookup-suc j n es q)

pub lookup-set :
    (j event n : ℕ) (es : List EventCode) (ec : EventCode)
    → n < length es
    → ec.event ≡ event
    → IsQuiet (drop n es)
    → live (lookup j (suc n) (set es (find_slot event n es) ec))
      ≡ (if event == j then live (some ec) else live (lookup j n es))
unfolding lookup find_slot
lookup-set j event n [] ec h k q = elim h [ ]
lookup-set j event zero (e ∷ es) ec h k q = ground arith
lookup-set j event (suc n) (e ∷ es) ec h k q =
    ground (arith, lookup-set j event n es ec (omega arith) k q, lookup-suc j n es q)

pub find_slot-le : (event n : ℕ) (es : List EventCode) → find_slot event n es ≤ n
unfolding find_slot
find_slot-le event zero es = omega arith
find_slot-le event (suc n) [] = omega arith
find_slot-le event (suc n) (e ∷ es) = ground (arith, find_slot-le event n es)

-- A write to one of the first `n + 1` slots leaves those behind them quiet.
pub drop-set-IsQuiet :
    (n i : ℕ) (es : List EventCode) (ec : EventCode)
    → i ≤ n
    → IsQuiet (drop n es)
    → IsQuiet (drop (suc n) (set es i ec))
drop-set-IsQuiet n i [] ec h q = tt
drop-set-IsQuiet zero zero (e ∷ es) ec h q = q.1
drop-set-IsQuiet zero (suc i) (e ∷ es) ec h q = elim h [ ]
drop-set-IsQuiet (suc n) zero (e ∷ es) ec h q = tail n es q
  where
    tail : (n : ℕ) (es : List EventCode) → IsQuiet (drop n es) → IsQuiet (drop (suc n) es)
    tail n [] q = tt
    tail zero (e ∷ es) q = q.1
    tail (suc n) (e ∷ es) q = tail n es q
drop-set-IsQuiet (suc n) (suc i) (e ∷ es) ec h q = drop-set-IsQuiet n i es ec (omega arith) q

replicate-IsQuiet : (n : ℕ) → IsQuiet (replicate n blank)
replicate-IsQuiet zero = tt
replicate-IsQuiet (suc n) = (refl, replicate-IsQuiet n)

pub list_create-IsWf : (size : ℕ) → IsWf (list_create size)
unfolding list_create
list_create-IsWf size = record {
  full = length-replicate size blank;
  bounded = omega arith;
  quiet = replicate-IsQuiet size;
  distinct = tt;
}

raised-suc :
    (j n : ℕ) (es : List EventCode) → IsQuiet (drop n es) → raised j (suc n) es ≡ raised j n es
unfolding raised
raised-suc j zero [] q = refl
raised-suc j zero (e ∷ es) q = ground arith
raised-suc j (suc n) [] q = refl
raised-suc j (suc n) (e ∷ es) q = ground (arith, raised-suc j n es q)

raised-set_ne :
    (j event n : ℕ) (es : List EventCode) (ec : EventCode)
    → n < length es
    → ec.event ≡ event
    → j ≢ event
    → IsQuiet (drop n es)
    → raised j (suc n) (set es (find_slot event n es) ec) ≡ raised j n es
unfolding raised find_slot
raised-set_ne j event n [] ec h k d q = elim h [ ]
raised-set_ne j event zero (e ∷ es) ec h k d q = ground arith
raised-set_ne j event (suc n) (e ∷ es) ec h k d q =
    ground (arith, raised-set_ne j event n es ec (omega arith) k d q, raised-suc j n es q)

IsDistinct-suc :
    (n : ℕ) (es : List EventCode) → IsQuiet (drop n es) → IsDistinct n es → IsDistinct (suc n) es
IsDistinct-suc zero [] q d = tt
IsDistinct-suc zero (e ∷ es) q d = (unfold raised in refl, tt)
IsDistinct-suc (suc n) [] q d = tt
IsDistinct-suc (suc n) (e ∷ es) q d = (raised-suc e.event n es q ∙ d.0, IsDistinct-suc n es q d.1)

pub IsDistinct-set :
    (event n : ℕ) (es : List EventCode) (ec : EventCode)
    → n < length es
    → ec.event ≡ event
    → IsQuiet (drop n es)
    → IsDistinct n es
    → IsDistinct (suc n) (set es (find_slot event n es) ec)
unfolding find_slot
IsDistinct-set event n [] ec h k q d = elim h [ ]
IsDistinct-set event zero (e ∷ es) ec h k q d = (unfold raised in refl, tt)
IsDistinct-set event (suc n) (e ∷ es) ec h k q d = elim (Bool-cases (e.event == event)) [
  | inl hit ↦ rw hit (
    rw k (raised-suc event n es q ∙ rw (← (==_iff e.event event).0 hit) d.0),
    IsDistinct-suc n es q d.1,
  )
  | inr miss ↦ rw miss (
    raised-set_ne e.event event n es ec (omega arith) k (ground arith) q ∙ d.0,
    IsDistinct-set event n es ec (omega arith) k q d.1,
  )
]

abbrev pub is_some : Option EventCode → Bool
is_some none = false
is_some (some e) = true

-- So a live slot is the pending one.
pub raised-lookup :
    (j n : ℕ) (es : List EventCode)
    → IsDistinct n es
    → raised j n es ≡ is_some (live (lookup j n es))
unfolding raised lookup
raised-lookup j zero es d = refl
raised-lookup j (suc n) [] d = refl
raised-lookup j (suc n) (e ∷ es) d = elim (Bool-cases (e.event == j)) [
  | inl hit ↦
      let quiet : raised j n es ≡ false =
        subst (λ k. raised k n es ≡ false) ((==_iff e.event j).0 hit) d.0 in
      ground arith
  | inr miss ↦ ground (arith, raised-lookup j n es d.1)
]

pub raised-pending :
    (j : ℕ) (el : EventList) → IsWf el → raised j el.count el.events ≡ is_some (pending el j)
unfolding pending
raised-pending j el v = raised-lookup j el.count el.events v.distinct
