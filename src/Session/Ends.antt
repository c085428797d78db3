-- ===== src/Session/Ends.antt =====
-- The end of a session of cwmpd/src/agent.c.
use netcwmp.Common.{
  ℕ, zero, suc, ◌≤◌, ◌<◌, ◌≡◌, refl, Bool, true, false, Bytes, length, if◌then◌else◌, arith,
}
use netcwmp.Event.{SaveOutcome}
use netcwmp.Session.{Status, Session, Link, session_step, session_loop}
use netcwmp.Session.Rounds.{Settled, IsSound, rounds_left, left, session_step-Falls}

rounds_pos : (st : Status) (b : Bool) (k m : ℕ) → Settled st b → 0 < rounds_left st k m
unfolding rounds_left
rounds_pos Status.start b k m e = omega arith
rounds_pos Status.inform b k m e = omega arith
rounds_pos Status.send b k m e = omega arith
rounds_pos Status.resend b k m e = absurd e
rounds_pos Status.recv b k m e = omega arith
rounds_pos Status.anslyse b k m e = omega arith
rounds_pos Status.retry b k m e = omega arith
rounds_pos Status.end b k m e = omega arith
rounds_pos Status.exit b k m e = omega arith

-- With no round left the session is closed.
left_zero :
    (c : Bool) (st : Status) (b : Bool) (k m : ℕ)
    → Settled st b
    → (if c then 0 else rounds_left st k m) ≤ 0
    → c ≡ true
left_zero true st b k m e h = refl
left_zero false st b k m e h = absurd (omega (arith, rounds_pos st b k m e, h))

-- A sound session closes within the rounds that it has left, whatever the network does, and stays
-- sound: past its last post no document waits to be sent.
pub session_loop-closes :
    (made : Bytes → Bool) (io : ℕ → SaveOutcome) (link : ℕ → Link) (fuel : ℕ) (s : Session)
    → IsSound s
    → left s ≤ fuel
    → let s' = session_loop made io link fuel s in (s'.session_close ≡ true) × IsSound s'
unfolding session_loop
session_loop-closes made io link zero s v h =
    (left_zero s.session_close s.status s.newdata s.retry_count (length s.inbox) v.settled h, v)
session_loop-closes made io link (suc k) s v h =
    pick s.session_close refl h (λ f l. session_loop-closes made io link k next f l)
  where
    next : Session
    next = session_step made io (link k) s.status s

    pick :
        (c : Bool)
        → s.session_close ≡ c
        → (if c then 0 else rounds_left s.status s.retry_count (length s.inbox)) ≤ suc k
        → (IsSound next
            → left next ≤ k
            → ((session_loop made io link k next).session_close ≡ true)
              × IsSound (session_loop made io link k next))
        → let s' : Session = elim c [ true ↦ s | false ↦ session_loop made io link k next ] in
          (s'.session_close ≡ true) × IsSound s'
    pick true e h ih = (e, v)
    pick false e h ih =
        let f = session_step-Falls made io (link k) s.status s refl v.reconnect v.settled in
        ih f.sound (omega (arith, f.falls, h))
