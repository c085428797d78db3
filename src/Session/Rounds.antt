-- ===== src/Session/Rounds.antt =====
-- A measure of the state of a session of cwmpd/src/agent.c, and its rounds.
use netcwmp.Common.{
  ℕ, ◌+◌, ◌*◌, ◌-◌, ◌<◌, ◌≡◌, refl, sym, ◌∙◌, ap, subst, ◌⊎◌, inl, inr, Bool, true, false, List, [],
  ◌∷◌, ◌++◌, Option, none, some, Bytes, length, leb, ◌==◌, if◌then◌else◌, arith, leb→le,
}
use netcwmp.Event.{SaveOutcome}
use netcwmp.Event.Inform.{event_check}
use netcwmp.Session.{
  max_session_retry, Status, Reading, Session, Link, Document, retry_session, analyse_session,
  answer, answer_or_check, eventcheck, reply, transfer_document, session_step, do_start, do_inform,
  do_send, do_recv, after_anslyse, after_retry, do_end, do_exit,
}

-- In these states `newdata` is `CWMP_NO`; the session is never in the state that nothing sets.
abbrev pub Settled : Status → Bool → Type 0
Settled Status.recv b = b ≡ false
Settled Status.anslyse b = b ≡ false
Settled Status.end b = b ≡ false
Settled Status.resend b = ⊥
Settled _ b = Unit

pub record IsSound (s : Session) : Type 0 where
  pub reconnect : s.reconnect ≡ false
  pub settled : Settled s.status s.newdata

-- The rounds that a session has before it at most, by its state, the number of its retries and the
-- number of responses to come.
unfoldable pub rounds_left : Status → ℕ → ℕ → ℕ
rounds_left Status.start k m = 3 * m + 8 + 2 * (4 - k)
rounds_left Status.retry k m = 3 * m + 7 + 2 * (4 - k)
rounds_left Status.inform k m = 3 * m + 6
rounds_left Status.send k m = 3 * m + 5
rounds_left Status.recv k m = 3 * m + 4
rounds_left Status.anslyse k m = 3 * m + 6
rounds_left Status.resend k m = 0
rounds_left Status.end k m = 2
rounds_left Status.exit k m = 1

abbrev pub left : Session → ℕ
left s = if s.session_close then 0 else rounds_left s.status s.retry_count (length s.inbox)

-- A sound session with fewer than `n` rounds before it.
pub record Falls (n : ℕ) (s : Session) : Type 0 where
  pub sound : IsSound s
  pub falls : left s < n

fewer : (c : Bool) (n k : ℕ) → n < k → (if c then 0 else n) < k
fewer true n k h = omega (arith, h)
fewer false n k h = h

-- The two ways in which the analysis of a response ends.
abbrev Analysed : Session → Bool × Session → Type 0
Analysed s r =
    (r.1.reconnect ≡ s.reconnect)
    × (r.1.session_close ≡ s.session_close)
    × (r.1.inbox ≡ s.inbox)
    × ((r.0 ≡ true) ⊎ (r.1.newdata ≡ false))

reply-Analysed : (d : Option Document) (s : Session) → s.newdata ≡ false → Analysed s (reply d s)
unfolding reply
reply-Analysed (some d) s e = (refl, refl, refl, inl refl)
reply-Analysed none s e =
    elim (s.readers.length == 0)
      as (λ b. Analysed s (if b then (false, s) else (true, record s { newdata = true }))) [
        | true ↦ (refl, refl, refl, inr e)
        | false ↦ (refl, refl, refl, inl refl)
      ]

eventcheck-Analysed : (s : Session) → s.newdata ≡ false → Analysed s (eventcheck s)
unfolding eventcheck
eventcheck-Analysed s e =
    reply-Analysed (transfer_document (event_check s.events).0)
      (record s { events = (event_check s.events).1 }) e

answer_or_check-Analysed :
    (d : Option Document) (s : Session) → s.newdata ≡ false → Analysed s (answer_or_check d s)
unfolding answer_or_check
answer_or_check-Analysed none s e = eventcheck-Analysed s e
answer_or_check-Analysed (some d) s e = reply-Analysed (some d) s e

analyse_session-Analysed :
    (made : Bytes → Bool) (s : Session) → s.newdata ≡ false → Analysed s (analyse_session made s)
unfolding analyse_session
analyse_session-Analysed made s e =
    elim (s.readers.length == 0)
      as (λ b. Analysed s (
        if b
        then eventcheck (record s { newdata = false })
        else if s.readers.parsed
        then answer_or_check (answer made s.readers.method) (record s { writers = [] })
        else (
          s.readers.rc_is_ok,
          record s { writers = s.writers ++ Document.fault_message ∷ [] },
        ))) [
          | true ↦ eventcheck-Analysed (record s { newdata = false }) refl
          | false ↦
              elim s.readers.parsed
                as (λ b. Analysed s (
                  if b
                  then answer_or_check (answer made s.readers.method) (record s { writers = [] })
                  else (
                    s.readers.rc_is_ok,
                    record s { writers = s.writers ++ Document.fault_message ∷ [] },
                  ))) [
                    | true ↦
                        answer_or_check-Analysed (answer made s.readers.method)
                          (record s { writers = [] }) e
                    | false ↦ (refl, refl, refl, inr e)
                  ]
        ]

do_start-Falls :
    (l : Link) (s : Session)
    → s.reconnect ≡ false
    → Falls (rounds_left Status.start s.retry_count (length s.inbox)) (do_start l s)
unfolding do_start rounds_left
do_start-Falls l s c =
    elim l.connected
      as (λ b. Falls (rounds_left Status.start s.retry_count (length s.inbox)) (record s {
        status = if b then Status.inform else Status.retry;
        connects = s.connects + 1;
      })) [
        | true ↦ record {
          sound = record { reconnect = c; settled = tt };
          falls = fewer s.session_close _ _ (omega arith);
        }
        | false ↦ record {
          sound = record { reconnect = c; settled = tt };
          falls = fewer s.session_close _ _ (omega arith);
        }
      ]

do_send-Falls :
    (l : Link) (s : Session)
    → s.reconnect ≡ false
    → Falls (rounds_left Status.send s.retry_count (length s.inbox)) (do_send l s)
unfolding do_send rounds_left
do_send-Falls l s c =
    elim l.sent
      as (λ b. Falls (rounds_left Status.send s.retry_count (length s.inbox)) (record s {
        status = if b then Status.recv else Status.exit;
        newdata = false;
        posts = if b then s.posts ++ s.writers ∷ [] else s.posts;
      })) [
        | true ↦ record {
          sound = record { reconnect = c; settled = refl };
          falls = fewer s.session_close _ _ (omega arith);
        }
        | false ↦ record {
          sound = record { reconnect = c; settled = tt };
          falls = fewer s.session_close _ _ (omega arith);
        }
      ]

do_recv-Falls :
    (rs : List (Option Reading)) (s : Session)
    → s.inbox ≡ rs
    → s.reconnect ≡ false
    → s.newdata ≡ false
    → Falls (rounds_left Status.recv s.retry_count (length rs)) (do_recv rs s)
unfolding do_recv rounds_left
do_recv-Falls [] s i c e = record {
  sound = record { reconnect = c; settled = e };
  falls = fewer s.session_close _ _ (omega arith);
}
do_recv-Falls (none ∷ rs) s i c e = record {
  sound = record { reconnect = c; settled = e };
  falls = fewer s.session_close _ _ (omega arith);
}
do_recv-Falls (some r ∷ rs) s i c e = record {
  sound = record { reconnect = c; settled = e };
  falls = fewer s.session_close _ _ (omega arith);
}

after_anslyse-Falls :
    (s : Session) (r : Bool × Session)
    → s.reconnect ≡ false
    → Analysed s r
    → Falls (rounds_left Status.anslyse s.retry_count (length s.inbox)) (after_anslyse r)
unfolding after_anslyse rounds_left
after_anslyse-Falls s (true, s') c a = record {
  sound = record { reconnect = a.0 ∙ c; settled = tt };
  falls = fewer s'.session_close _ _ (omega (arith, ap length a.2));
}
after_anslyse-Falls s (false, s') c a = record {
  sound = record {
    reconnect = a.0 ∙ c;
    settled = elim a.3 [ inl f ↦ absurd (ground arith) | inr e ↦ e ];
  };
  falls = fewer s'.session_close _ _ (omega (arith, ap length a.2));
}

do_retry-Falls :
    (s : Session)
    → s.reconnect ≡ false
    → Falls
        (rounds_left Status.retry s.retry_count (length s.inbox))
        (after_retry (retry_session s))
unfolding after_retry retry_session rounds_left
do_retry-Falls s c = pick (leb s.retry_count max_session_retry) refl
  where
    pick :
        (b : Bool)
        → leb s.retry_count max_session_retry ≡ b
        → Falls (rounds_left Status.retry s.retry_count (length s.inbox)) (
            after_retry (
              if b
              then (false, record s { retry_count = s.retry_count + 1 })
              else (true, record s { retry_count = 0 })))
    pick true e = record {
      sound = record { reconnect = c; settled = tt };
      falls = fewer s.session_close _ _ (omega (arith, leb→le s.retry_count 3 e));
    }
    pick false e = record {
      sound = record { reconnect = c; settled = tt };
      falls = fewer s.session_close _ _ (omega arith);
    }

do_end-Falls :
    (s : Session) (n : Bool)
    → s.newdata ≡ n
    → n ≡ false
    → s.reconnect ≡ false
    → Falls
        (rounds_left Status.end s.retry_count (length s.inbox))
        (record s { status = if n then Status.send else Status.exit })
unfolding rounds_left
do_end-Falls s true i e c = absurd (ground arith)
do_end-Falls s false i e c = record {
  sound = record { reconnect = c; settled = tt };
  falls = fewer s.session_close _ _ (omega arith);
}

do_exit-Falls :
    (s : Session) (n : Bool)
    → s.status ≡ Status.exit
    → s.reconnect ≡ n
    → n ≡ false
    → Falls 1 (
        if n
        then record s { reconnect = false; status = Status.start }
        else record s { session_close = true })
do_exit-Falls s true i c e = absurd (ground arith)
do_exit-Falls s false i c e = record {
  sound = record { reconnect = c; settled = subst (λ st. Settled st s.newdata) (sym i) tt };
  falls = omega arith;
}

pub session_step-Falls :
    (made : Bytes → Bool) (io : ℕ → SaveOutcome) (l : Link) (st : Status) (s : Session)
    → s.status ≡ st
    → s.reconnect ≡ false
    → Settled st s.newdata
    → Falls (rounds_left st s.retry_count (length s.inbox)) (session_step made io l st s)
unfolding session_step rounds_left do_inform do_end do_exit
session_step-Falls made io l Status.start s i c e = do_start-Falls l s c
session_step-Falls made io l Status.inform s i c e = record {
  sound = record { reconnect = c; settled = tt };
  falls = fewer s.session_close _ _ (omega arith);
}
session_step-Falls made io l Status.send s i c e = do_send-Falls l s c
session_step-Falls made io l Status.resend s i c e = absurd e
session_step-Falls made io l Status.recv s i c e = do_recv-Falls s.inbox s refl c e
session_step-Falls made io l Status.anslyse s i c e =
    after_anslyse-Falls s (analyse_session made s) c (analyse_session-Analysed made s e)
session_step-Falls made io l Status.retry s i c e = do_retry-Falls s c
session_step-Falls made io l Status.end s i c e = do_end-Falls s s.newdata refl e c
session_step-Falls made io l Status.exit s i c e = do_exit-Falls s s.reconnect i refl c
