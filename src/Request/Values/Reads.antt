-- ===== src/Request/Values/Reads.antt =====
-- GetParameterValues of libcwmp/src/cwmp.c: the run of its loop.
use netcwmp.Common.{
  true, false, List, [], ◌∷◌, ◌++◌, none, some, ℤ, inl, inr, ◌⊎◌, append-nil, ◌≡◌, refl, sym, ◌∙◌,
  ap,
}
use netcwmp.Field.{Field}
use netcwmp.Params.{Node}
use netcwmp.Xml.{Xml, get_node_value}
use netcwmp.Fault.{Parameter}
use netcwmp.Request.{ParameterList, push_next}
use netcwmp.Request.Places.{push_all}
use netcwmp.Request.Values.{Outcome, read_named, get_loop}

-- `Reads root xs s ps s'`: reading the parameters named by the nodes `xs` one after the other gives
-- `ps` and takes the device from `s` to `s'`.
pub data Reads {S : Type 0} (root : Node (Field S))
    : List Xml → S → List Parameter → S → Type 0 where
  done : {s : S} → Reads root [] s [] s
  more :
      {x : Xml} {xs : List Xml} {s s1 s2 : S} {p : Parameter} {ps : List Parameter}
      → read_named root (get_node_value x) s ≡ (inr p, s1)
      → Reads root xs s1 ps s2
      → Reads root (x ∷ xs) s (p ∷ ps) s2

module _ {S : Type 0} (root : Node (Field S)) where
  -- The rest of the loop behind a parameter that has been read.
  after : List Xml → ParameterList → (ℤ ⊎ Parameter) × S → Outcome S
  after xs pl r = elim (r.0) [
    | inl code ↦ record { ok = false; fault = some code; list = some pl; state = r.1 }
    | inr p ↦ get_loop root xs (push_next p pl) r.1
  ]

  get_loop_at :
      (x : Xml) (xs : List Xml) (pl : ParameterList) (s : S)
      → get_loop root (x ∷ xs) pl s ≡ after xs pl (read_named root (get_node_value x) s)
  unfolding get_loop after
  get_loop_at x xs pl s = refl

  get_loop-append :
      (ys : List Xml) {xs : List Xml} {s s' : S} {ps : List Parameter}
      → Reads root xs s ps s'
      → (pl : ParameterList) → get_loop root (xs ++ ys) pl s ≡ get_loop root ys (push_all ps pl) s'
  unfolding after push_all
  get_loop-append ys Reads.done pl = refl
  get_loop-append ys (Reads.more {x} {xs} {s} e reads) pl =
      get_loop_at x (xs ++ ys) pl s
      ∙ ap (after (xs ++ ys) pl) e
      ∙ get_loop-append ys reads (push_next _ pl)

  -- Where all the parameters are found and their getters succeed, they are put in the list in order.
  pub get_loop-Reads :
      {xs : List Xml} {s s' : S} {ps : List Parameter}
      → Reads root xs s ps s'
      → (pl : ParameterList)
      → get_loop root xs pl s
        ≡ record { ok = true; fault = none; list = some (push_all ps pl); state = s' }
  unfolding get_loop
  get_loop-Reads {xs} {s} reads pl =
      ap (λ l. get_loop root l pl s) (sym (append-nil xs)) ∙ get_loop-append [] reads pl

  -- The loop ends at the first name that is not found or whose getter fails, with its fault code; the
  -- list holds the parameters before it, and the names behind it are not read.
  pub get_loop-fails :
      {xs : List Xml} {s s1 s2 : S} {ps : List Parameter} (x : Xml) (code : ℤ) (ys : List Xml)
      → Reads root xs s ps s1
      → read_named root (get_node_value x) s1 ≡ (inl code, s2)
      → (pl : ParameterList)
      → get_loop root (xs ++ x ∷ ys) pl s
        ≡ record { ok = false; fault = some code; list = some (push_all ps pl); state = s2 }
  unfolding after
  get_loop-fails {s1 = s1} x code ys reads e pl =
      get_loop-append (x ∷ ys) reads pl
      ∙ get_loop_at x ys (push_all _ pl) s1
      ∙ ap (after ys (push_all _ pl)) e
