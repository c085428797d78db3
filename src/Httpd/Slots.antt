-- ===== src/Httpd/Slots.antt =====
-- The slots of the clients in cwmpd/src/httpd.c.
use netcwmp.Common.{
  ℕ, zero, suc, ◌+◌, Bool, true, false, List, [], ◌∷◌, ◌++◌, append_assoc, append-nil, none, some,
  Bytes, All, length, map, map-append, ◌≡◌, Bool-cases, inl, inr, refl, sym, ap, ◌∙◌, arith,
  if◌then◌else◌,
}
use netcwmp.Http.Requests.{read_request}
use netcwmp.Httpd.{
  Config, Slot, Server, Verdict, bad, unauthorised, accepted, send, fd_clr, response_200,
  response_400, response_unauthorization, respond, judge, serve, serve_slots,
}

-- Who has been answered, in order.
abbrev pub answered : Server → List ℕ
answered s = map (λ a. a.0) s.sent

-- The descriptors in slots that are ready, in order, and the slots without them.
unfoldable pub ready_in : (ℕ → Bool) → List Slot → List ℕ
ready_in rdset [] = []
ready_in rdset (none ∷ slots) = ready_in rdset slots
ready_in rdset (some (fd, time) ∷ slots) =
    let rest = ready_in rdset slots in if rdset fd then fd ∷ rest else rest

unfoldable pub without_ready : (ℕ → Bool) → List Slot → List Slot
without_ready rdset [] = []
without_ready rdset (none ∷ slots) = none ∷ without_ready rdset slots
without_ready rdset (some (fd, time) ∷ slots) =
    let rest = without_ready rdset slots in if rdset fd then none ∷ rest else some (fd, time) ∷ rest

module _ (md5 : Bytes → Bytes) (config : Config) where
  -- Reading what a client sends follows no pointer that was never set.
  abbrev pub IsJudged : (ℕ → Bool × Bytes) → ℕ → Type 0
  IsJudged input fd =
      (v : Verdict) × (judge md5 config (read_request (input fd).0 (input fd).1) ≡ some v)

  answered-send :
      (fd : ℕ) (text : Bytes) (s : Server) → answered (send fd text s) ≡ answered s ++ fd ∷ []
  answered-send fd text s = map-append (λ (a : ℕ × Bytes). a.0) s.sent ((fd, text) ∷ [])

  answered-respond :
      (fd : ℕ) (v : Verdict) (s : Server)
      → answered (respond md5 config fd v s) ≡ answered s ++ fd ∷ []
  unfolding respond response_unauthorization
  answered-respond fd bad s = answered-send fd response_400 s
  answered-respond fd unauthorised s = answered-send fd _ (record s { nonce = s.nonce + 1 })
  answered-respond fd accepted s = answered-send fd response_200 s

  serve-answered :
      (input : ℕ → Bool × Bytes) (fd : ℕ) (s : Server)
      → IsJudged input fd
      → (s' : Server) × (serve md5 config fd (input fd) s ≡ some s')
        × (answered s' ≡ answered s ++ fd ∷ [])
  unfolding serve
  serve-answered input fd s (v, e) =
      let srv = respond md5 config fd v s in
      (record srv { readset = fd_clr fd srv.readset }, rw (serve, e) refl, answered-respond fd v s)

  no_ready :
      (rdset : ℕ → Bool) (slots : List Slot)
      → length (ready_in rdset slots) ≡ 0
      → (without_ready rdset slots ≡ slots) × (ready_in rdset slots ≡ [])
  unfolding ready_in without_ready
  no_ready rdset [] h = (refl, refl)
  no_ready rdset (none ∷ slots) h =
      (ap (λ l. none ∷ l) (no_ready rdset slots h).0, (no_ready rdset slots h).1)
  no_ready rdset (some (fd, time) ∷ slots) h = elim (Bool-cases (rdset fd)) [
    | inl now ↦ absurd (
        omega (
          arith,
          h,
          ap (λ b. length (if b then fd ∷ ready_in rdset slots else ready_in rdset slots)) now,
        ))
    | inr later ↦
        let h' : length (ready_in rdset slots) ≡ 0 =
          sym
            (ap (λ b. length (if b then fd ∷ ready_in rdset slots else ready_in rdset slots)) later)
          ∙ h in
        rw later
          (ap (λ l. some (fd, time) ∷ l) (no_ready rdset slots h').0, (no_ready rdset slots h').1)
  ]

  -- What the loop does for slots of which `k` are ready.
  abbrev Answers :
      (ℕ → Bool) → (ℕ → Bool × Bytes) → ℕ → List Slot → List Slot → List ℕ → Server → Type 0
  Answers rdset input k slots slots' fds s =
      (s' : Server) × (serve_slots md5 config rdset input k slots s ≡ some (slots', s'))
      × (answered s' ≡ answered s ++ fds)

  Answers-now :
      (rdset : ℕ → Bool) (input : ℕ → Bool × Bytes) (k fd time : ℕ) (slots slots' : List Slot)
      (fds : List ℕ) (s s₁ : Server)
      → rdset fd ≡ true
      → serve md5 config fd (input fd) s ≡ some s₁
      → answered s₁ ≡ answered s ++ fd ∷ []
      → Answers rdset input k slots slots' fds s₁
      → Answers rdset input (suc k) (some (fd, time) ∷ slots) (none ∷ slots') (fd ∷ fds) s
  unfolding serve_slots
  Answers-now rdset input k fd time slots slots' fds s s₁ now e₁ a₁ (s', e, a) = (
    s',
    rw (serve_slots, now, e₁, e) refl,
    a ∙ ap (λ l. l ++ fds) a₁ ∙ append_assoc (answered s) (fd ∷ []) fds,
  )

  Answers-later :
      (rdset : ℕ → Bool) (input : ℕ → Bool × Bytes) (k fd time : ℕ) (slots slots' : List Slot)
      (fds : List ℕ) (s : Server)
      → rdset fd ≡ false
      → Answers rdset input (suc k) slots slots' fds s
      → Answers rdset input (suc k) (some (fd, time) ∷ slots) (some (fd, time) ∷ slots') fds s
  unfolding serve_slots
  Answers-later rdset input k fd time slots slots' fds s later (s', e, a) =
      (s', rw (serve_slots, later, e) refl, a)

  loop-Answers :
      (rdset : ℕ → Bool) (input : ℕ → Bool × Bytes) (slots : List Slot) (k : ℕ) (s : Server)
      → length (ready_in rdset slots) ≡ k
      → All (IsJudged input) (ready_in rdset slots)
      → Answers rdset input k slots (without_ready rdset slots) (ready_in rdset slots) s
  unfolding serve_slots ready_in without_ready
  loop-Answers rdset input slots zero s n h =
      let quiet = no_ready rdset slots n in
      (
        s,
        ap (λ l. some (l, s)) (sym quiet.0),
        sym (append-nil (answered s)) ∙ ap (λ l. answered s ++ l) (sym quiet.1),
      )
  loop-Answers rdset input [] (suc k) s n h = absurd (omega (arith, n))
  loop-Answers rdset input (none ∷ slots) (suc k) s n h =
      let (s', e, a) = loop-Answers rdset input slots (suc k) s n h in (s', rw e refl, a)
  loop-Answers rdset input (some (fd, time) ∷ slots) (suc k) s n h =
      elim (rdset fd)
          as (λ b.
            rdset fd ≡ b
            → length (if b then fd ∷ ready_in rdset slots else ready_in rdset slots) ≡ suc k
            → All (IsJudged input) (if b then fd ∷ ready_in rdset slots else ready_in rdset slots)
            → Answers rdset input (suc k) (some (fd, time) ∷ slots)
                (if b
                  then none ∷ without_ready rdset slots
                  else some (fd, time) ∷ without_ready rdset slots)
                (if b then fd ∷ ready_in rdset slots else ready_in rdset slots) s) [
                  | true ↦ λ now m each.
                      let (s₁, e₁, a₁) = serve-answered input fd s each.0 in
                      Answers-now rdset input k fd time slots (without_ready rdset slots)
                        (ready_in rdset slots) s s₁ now e₁ a₁
                        (loop-Answers rdset input slots k s₁ (omega (arith, m)) each.1)
                  | false ↦ λ later m each.
                      Answers-later rdset input k fd time slots (without_ready rdset slots)
                        (ready_in rdset slots) s later
                        (loop-Answers rdset input slots (suc k) s m each)
                ]
        refl n h

  -- Where every client that is ready sends what can be judged, and `nready` is their number: the loop
  -- over the slots answers each of them once, in the order of the slots, and frees exactly their slots.
  pub serve_slots-answered :
      (rdset : ℕ → Bool) (input : ℕ → Bool × Bytes) (slots : List Slot) (s : Server)
      → All (IsJudged input) (ready_in rdset slots)
      → (s' : Server) × (serve_slots md5 config rdset input (length (ready_in rdset slots)) slots s
          ≡ some (without_ready rdset slots, s'))
        × (answered s' ≡ answered s ++ ready_in rdset slots)
  serve_slots-answered rdset input slots s h =
      loop-Answers rdset input slots (length (ready_in rdset slots)) s refl h
