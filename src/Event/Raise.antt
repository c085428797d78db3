-- ===== src/Event/Raise.antt =====
-- `cwmp_event_set_value` of libcwmp/src/event.c against the view of Event/Slots.
use Prim.Native.Nat.{min}
use netcwmp.Common.{
  ℕ, zero, suc, ◌+◌, ◌≤◌, ◌<◌, ◌≡◌, refl, sym, ◌∙◌, ◌⊎◌, ◌↔◌, Option, none, some, Bytes, set,
  length-set, ◌==◌, if◌then◌else◌, arith, ℤ, pos, negsuc,
}
use netcwmp.Event.{
  inform_max, EventCode, EventList, find_slot, filled, set_checked, set_value, or_same,
}
use netcwmp.Event.Slots.{
  live, pending, IsWf, lookup-set, find_slot-le, drop-set-IsQuiet, IsDistinct-set,
}

-- What an accepted write does to the list.
pub record Written (el : EventList) (event : ℕ) (ec : EventCode) (el' : EventList) : Type 0 where
  pub same_event : ec.event ≡ event
  pub room : el.count < el.size
  pub size : el'.size ≡ el.size
  pub count : el'.count ≡ suc el.count
  pub events : el'.events ≡ set el.events (find_slot event el.count el.events) ec

pub set_checked-Written :
    (el el' : EventList) (event : ℕ) (ec : EventCode)
    → ec.event ≡ event
    → set_checked el event ec ≡ some el'
    → Written el event ec el'
unfolding set_checked
set_checked-Written el el' event ec k h = ground arith

pub Written-IsWf :
    {el el' : EventList} {event : ℕ} {ec : EventCode} → Written el event ec el' → IsWf el → IsWf el'
Written-IsWf {el} {el'} {event} {ec} w v = record {
  full =
      rw w.events
        (length-set el.events (find_slot event el.count el.events) ec ∙ v.full ∙ sym w.size);
  bounded = omega (arith, w.room, w.size, w.count);
  quiet =
      rw (w.events, w.count)
        (drop-set-IsQuiet el.count _ el.events ec (find_slot-le event el.count el.events) v.quiet);
  distinct =
      rw (w.events, w.count)
        (IsDistinct-set event el.count el.events ec (omega (arith, w.room, v.full)) w.same_event
          v.quiet v.distinct);
}

pub pending-Written :
    {el el' : EventList} {event : ℕ} {ec : EventCode} (j : ℕ)
    → Written el event ec el'
    → IsWf el
    → pending el' j ≡ (if event == j then live (some ec) else pending el j)
unfolding pending
pending-Written {el} {event} {ec} j w v =
    rw (w.events, w.count)
      (lookup-set j event el.count el.events ec (omega (arith, w.room, v.full)) w.same_event
        v.quiet)

filled-event :
    (event : ℕ) (value : ℤ) (key : Option Bytes) (fault : ℤ) (start end : ℕ)
    → (filled event value key fault start end).event ≡ event
unfolding filled
filled-event event value key fault start end = refl

set_value-Written :
    (el el' : EventList) (event : ℕ) (value : ℤ) (key : Option Bytes) (fault : ℤ) (start end : ℕ)
    → set_value el (pos event) value key fault start end ≡ some el'
    → Written el event (filled event value key fault start end) el'
unfolding set_value
set_value-Written el el' event value key fault start end h =
    set_checked-Written el el' event (filled event value key fault start end)
      (filled-event event value key fault start end) (ground arith)

-- An accepted call keeps the list well-formed: its slots are all there, `count` is within `size`,
-- and no slot from `count` on is live.
pub set_value-IsWf :
    (el el' : EventList) (event : ℕ) (value : ℤ) (key : Option Bytes) (fault : ℤ) (start end : ℕ)
    → IsWf el
    → set_value el (pos event) value key fault start end ≡ some el'
    → IsWf el'
set_value-IsWf el el' event value key fault start end v h =
    Written-IsWf (set_value-Written el el' event value key fault start end h) v

-- After an accepted call on a well-formed list the event of the call is pending with the record
-- that the call builds, if its value is positive, and not pending if it is not; every other event
-- is pending as before.
pub pending-set_value :
    (el el' : EventList) (event : ℕ) (value : ℤ) (key : Option Bytes) (fault : ℤ) (start end : ℕ)
    (j : ℕ)
    → IsWf el
    → set_value el (pos event) value key fault start end ≡ some el'
    → pending el' j
      ≡ (if event == j then live (some (filled event value key fault start end)) else pending el j)
pending-set_value el el' event value key fault start end j v h =
    pending-Written j (set_value-Written el el' event value key fault start end h) v

abbrev pub IsRefused : EventList → ℤ → Type 0
IsRefused el (negsuc n) = Unit
IsRefused el (pos n) = (inform_max ≤ n) ⊎ (el.size ≤ el.count)

-- A call is refused exactly when its event is negative or not below `INFORM_MAX`, or when `count`
-- has reached `size`, also where the event already has a slot.
pub set_value-IsRefused :
    (el : EventList) (event : ℤ) (value : ℤ) (key : Option Bytes) (fault : ℤ) (start end : ℕ)
    → (set_value el event value key fault start end ≡ none) ↔ IsRefused el event
unfolding set_value set_checked
set_value-IsRefused el (pos n) value key fault start end = (λ h. ground arith, λ h. ground arith)
set_value-IsRefused el (negsuc n) value key fault start end = (λ _. tt, λ _. refl)

-- `raise_n event k` is what `k` calls for one event do to a list, results ignored.
unfoldable pub raise_n : ℕ → ℕ → EventList → EventList
raise_n event zero el = el
raise_n event (suc k) el =
    raise_n event k (or_same el (set_value el (pos event) (pos 1) none (pos 0) 0 0))

-- Every repetition of one event uses up a place: after `k` calls the count is the old count plus
-- `k`, or the size of the list.
pub raise_n-count :
    (event k : ℕ) (el : EventList)
    → event < inform_max
    → el.count ≤ el.size
    → ((raise_n event k el).count ≡ min el.size (el.count + k))
      × ((raise_n event k el).size ≡ el.size)
unfolding raise_n set_value set_checked
raise_n-count event zero el h v = omega arith
raise_n-count event (suc k) el h v = ground (
  arith,
  raise_n-count event k (or_same el (set_value el (pos event) (pos 1) none (pos 0) 0 0)) h,
)
