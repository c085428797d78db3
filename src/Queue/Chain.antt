-- ===== src/Queue/Chain.antt =====
-- Linked lists on the heap of libcwmp/src/queue.c.
use netcwmp.Common.{
  ◌≡◌, ◌∙◌, ◌≢◌, refl, Bool, false, ◌||◌, List, [], ◌∷◌, ◌++◌, Option, none, some, ◌==◌, arith,
}
use netcwmp.Queue.{Ptr, null, Item, Node, node, Heap, write, set_next}

-- The nodes of a list: where each lies and what it holds.
abbrev pub Cells : Type 0 → Type 0
Cells D = List (Ptr × Item D)

module _ {D : Type 0} where
  abbrev pub front : Cells D → Ptr
  front [] = null
  front ((a, _) ∷ xs) = a

  abbrev pub back_from : Ptr → Cells D → Ptr
  back_from a [] = a
  back_from a ((b, _) ∷ xs) = back_from b xs

  abbrev pub back : Cells D → Ptr
  back xs = back_from null xs

  abbrev pub has : Ptr → Cells D → Bool
  has p [] = false
  has p ((a, _) ∷ xs) = a == p || has p xs

  -- From the front on, each node lies where the one before it points, all at different addresses.
  abbrev pub Chain : Heap D → Cells D → Type 0
  Chain h [] = Unit
  Chain h ((a, i) ∷ xs) =
      (a ≢ null) × (h a ≡ some (node i (front xs))) × (has a xs ≡ false) × Chain h xs

  pub Chain-write :
      (h : Heap D) (p : Ptr) (c : Option (Node D)) (xs : Cells D)
      → has p xs ≡ false
      → Chain h xs
      → Chain (write h p c) xs
  unfolding write
  Chain-write h p c [] out ch = tt
  Chain-write h p c ((a, i) ∷ xs) out ch =
      (ch.0, ground arith, ch.2, Chain-write h p c xs (ground arith) ch.3)

  pub has_unused :
      (h : Heap D) (p : Ptr) (xs : Cells D) → h p ≡ none → Chain h xs → has p xs ≡ false
  has_unused h p [] e ch = refl
  has_unused h p ((a, i) ∷ xs) e ch = ground (arith, has_unused h p xs e ch.3)

  pub has-append : (p : Ptr) (xs ys : Cells D) → has p (xs ++ ys) ≡ (has p xs || has p ys)
  has-append p [] ys = refl
  has-append p ((a, i) ∷ xs) ys = ground (arith, has-append p xs ys)

  -- `h` with `v` in a new node behind the last of the cells, which begin at `a`.
  pub linked : Heap D → Ptr → Item D → Cells D → Ptr → Item D → Heap D
  unfolding write
  linked h a i [] fresh v = write (write h fresh (some (node v null))) a (some (node i fresh))
  linked h a i ((b, j) ∷ xs) fresh v = linked h b j xs fresh v

  linked_outside :
      (h : Heap D) (a : Ptr) (i : Item D) (xs : Cells D) (fresh : Ptr) (v : Item D) (p : Ptr)
      → p ≢ fresh
      → has p ((a, i) ∷ xs) ≡ false
      → linked h a i xs fresh v p ≡ h p
  unfolding linked
  linked_outside h a i [] fresh v p d out = ground arith
  linked_outside h a i ((b, j) ∷ xs) fresh v p d out =
      linked_outside h b j xs fresh v p d (ground arith)

  pub Chain-linked :
      (h : Heap D) (a : Ptr) (i : Item D) (xs : Cells D) (fresh : Ptr) (v : Item D)
      → fresh ≢ null
      → h fresh ≡ none
      → Chain h ((a, i) ∷ xs)
      → Chain (linked h a i xs fresh v) (((a, i) ∷ xs) ++ (fresh, v) ∷ [])
  unfolding linked write
  Chain-linked h a i [] fresh v d e ch = ground arith
  Chain-linked h a i ((b, j) ∷ xs) fresh v d e ch = (
    ch.0,
    linked_outside h b j xs fresh v a (ground arith) ch.2 ∙ ch.1,
    has-append a ((b, j) ∷ xs) ((fresh, v) ∷ []) ∙ ground (arith, ch.2),
    Chain-linked h b j xs fresh v d e ch.3,
  )

  -- It is what the assignment to the last node's link leaves.
  pub set_next-linked :
      (h : Heap D) (a : Ptr) (i : Item D) (xs : Cells D) (fresh : Ptr) (v : Item D)
      → h fresh ≡ none
      → Chain h ((a, i) ∷ xs)
      → set_next (back_from a xs) fresh (write h fresh (some (node v null)))
        ≡ some (linked h a i xs fresh v)
  unfolding set_next linked write
  set_next-linked h a i [] fresh v e ch = ground arith
  set_next-linked h a i ((b, j) ∷ xs) fresh v e ch = set_next-linked h b j xs fresh v e ch.3
