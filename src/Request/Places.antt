-- ===== src/Request/Places.antt =====
-- The list of parameters that the loops of libcwmp/src/cwmp.c build: which places are written.
use netcwmp.Common.{
  suc, ◌+◌, ◌≤◌, ◌<◌, true, false, List, [], ◌∷◌, ◌++◌, map, append_assoc, append-nil, Option, none,
  some, length, length-append, leb, ltb, ltb→lt, Bool-cases, inl, inr, ◌≡◌, refl, sym, ◌∙◌, ap,
  arith,
}
use netcwmp.Fault.{Parameter}
use netcwmp.Request.{ParameterList, create_parameter_list, push_next, written}

-- The list after a parameter for each of `ps`.
unfoldable pub push_all : List Parameter → ParameterList → ParameterList
unfolding push_next
push_all [] pl = pl
push_all (p ∷ ps) pl = push_all ps (push_next p pl)

-- The list while the first array is there, with every place written.
abbrev fresh : List Parameter → ParameterList
fresh qs = record { places = map some qs; size = 32; moved = false }

map-append :
    (qs : List Parameter) (p : Parameter) → map some qs ++ some p ∷ [] ≡ map some (qs ++ p ∷ [])
map-append [] p = refl
map-append (q ∷ qs) p = ap (◌∷◌ (some q)) (map-append qs p)

places_length : (qs : List Parameter) → length (map some qs) ≡ length qs
places_length [] = refl
places_length (q ∷ qs) = ap suc (places_length qs)

pub all_written : (qs : List Parameter) → written (map some qs) ≡ some qs
unfolding written
all_written [] = refl
all_written (q ∷ qs) = rw (all_written qs, written) refl

written-append : (xs ys : List (Option Parameter)) → written xs ≡ none → written (xs ++ ys) ≡ none
unfolding written
written-append [] ys h = absurd (ground arith)
written-append (none ∷ xs) ys h = refl
written-append (some p ∷ xs) ys h = ground (arith, written-append xs ys)

written-append_none : (xs : List (Option Parameter)) → written (xs ++ none ∷ []) ≡ none
unfolding written
written-append_none [] = refl
written-append_none (none ∷ xs) = refl
written-append_none (some p ∷ xs) = rw (written-append_none xs, written) refl

push_next-fresh :
    (p : Parameter) (qs : List Parameter)
    → length qs < 31
    → push_next p (fresh qs) ≡ fresh (qs ++ p ∷ [])
unfolding push_next
push_next-fresh p qs h =
    rw (not_full) (ap (λ l. record { places = l; size = 32; moved = false }) (map-append qs p))
  where
    not_full : leb 31 (length (map some qs)) ≡ false
    not_full = ground (arith, places_length qs)

push_next-full :
    (p : Parameter) (qs : List Parameter)
    → length qs ≡ 31
    → written (push_next p (fresh qs)).places ≡ none
unfolding push_next
push_next-full p qs h = rw (full) (written-append_none (map some qs))
  where
    full : leb 31 (length (map some qs)) ≡ true
    full = ground (arith, places_length qs)

push_all-unwritten :
    (ps : List Parameter) (pl : ParameterList)
    → written pl.places ≡ none
    → written (push_all ps pl).places ≡ none
unfolding push_all push_next
push_all-unwritten [] pl h = h
push_all-unwritten (p ∷ ps) pl h =
    push_all-unwritten ps (push_next p pl) (written-append pl.places _ h)

push_all-fresh :
    (ps qs : List Parameter)
    → length qs + length ps ≤ 31
    → push_all ps (fresh qs) ≡ fresh (qs ++ ps)
unfolding push_all
push_all-fresh [] qs h = ap fresh (sym (append-nil qs))
push_all-fresh (p ∷ ps) qs h =
    ap (push_all ps) (push_next-fresh p qs (omega (arith, h)))
    ∙ push_all-fresh ps (qs ++ p ∷ []) (omega (arith, h, length-append qs (p ∷ [])))
    ∙ ap fresh (append_assoc qs (p ∷ []) ps)

push_all-full :
    (ps qs : List Parameter)
    → length qs ≤ 31
    → 31 < length qs + length ps
    → written (push_all ps (fresh qs)).places ≡ none
unfolding push_all
push_all-full [] qs le h = absurd (omega (arith, h, le))
push_all-full (p ∷ ps) qs le h = elim (Bool-cases (ltb (length qs) 31)) [
  | inl lt ↦
      ap (λ pl. written (push_all ps pl).places) (push_next-fresh p qs (ltb→lt _ _ lt))
      ∙ push_all-full ps (qs ++ p ∷ []) (omega (arith, ltb→lt _ _ lt, length-append qs (p ∷ [])))
          (omega (arith, h, length-append qs (p ∷ [])))
  | inr ge ↦
      push_all-unwritten ps (push_next p (fresh qs)) (push_next-full p qs (ground (arith, le)))
]

-- Up to 31 parameters, each place of the list is written with its parameter.
pub written-push_all :
    (ps : List Parameter)
    → length ps ≤ 31
    → written (push_all ps create_parameter_list).places ≡ some ps
written-push_all ps h =
    ap (λ pl. written pl.places) (push_all-fresh ps [] (omega (arith, h))) ∙ all_written ps

-- From the 32nd parameter on, the writes go to the array that has been freed.
pub push_all_many :
    (ps : List Parameter)
    → 31 < length ps
    → written (push_all ps create_parameter_list).places ≡ none
push_all_many ps h = push_all-full ps [] (omega arith) (omega (arith, h))
