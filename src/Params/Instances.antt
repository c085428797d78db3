-- ===== src/Params/Instances.antt =====
-- A new instance of an object, made by `cwmp_model_copy_parameter` of libcwmp/src/model.c, and the
-- lookup of parameters.
use netcwmp.Common.{
  ◌≡◌, refl, ◌∙◌, ap, ap₂, Bool, true, false, List, ◌∷◌, Option, none, some, Bytes, bytes_eq,
  bytes_eq_iff, if◌then◌else◌, arith,
}
use netcwmp.Params.{
  Node, null, node, is_null, find_sibling, child_of, copy_children, append_sibling,
  copy_parameter_object, copy_parameter,
}
use netcwmp.Params.Names.{follow}

module _ {D : Type 0} where
  copy_children-same : (t : Node D) → copy_children t ≡ t
  unfolding copy_children
  copy_children-same null = refl
  copy_children-same (node name d child next) =
      ap₂ (node name d) (copy_children-same child) (copy_children-same next)

  -- The new sibling is found where its name is new.
  find_sibling-append_new :
      (number : Bytes) (d : D) (child t : Node D)
      → is_null (find_sibling number t) ≡ true
      → find_sibling number (append_sibling (node (some number) d child null) t)
        ≡ node (some number) d child null
  unfolding find_sibling append_sibling
  find_sibling-append_new number d child null h = rw ((bytes_eq_iff number number).1 refl) refl
  find_sibling-append_new number d child (node none e c next) h = absurd (ground arith)
  find_sibling-append_new number d child (node (some n) e c next) h =
      pick (bytes_eq n number) h (find_sibling-append_new number d child next)
    where
      new : Node D
      new = node (some number) d child null

      pick :
          (b : Bool)
          → is_null (if b then node (some n) e c next else find_sibling number next) ≡ true
          → (is_null (find_sibling number next) ≡ true
              → find_sibling number (append_sibling new next) ≡ new)
          → (if b
              then node (some n) e c (append_sibling new next)
              else find_sibling number (append_sibling new next))
            ≡ new
      pick true h ih = absurd (ground arith)
      pick false h ih = ih h

  -- The others keep their children.
  child_of-append_other :
      (number m : Bytes) (d : D) (child t : Node D)
      → bytes_eq number m ≡ false
      → child_of (find_sibling m (append_sibling (node (some number) d child null) t))
        ≡ child_of (find_sibling m t)
  unfolding find_sibling append_sibling
  child_of-append_other number m d child null h = rw h refl
  child_of-append_other number m d child (node none e c next) h = refl
  child_of-append_other number m d child (node (some n) e c next) h =
      elim (bytes_eq n m)
        as (λ b.
          child_of (
            if b
            then node (some n) e c (append_sibling (node (some number) d child null) next)
            else find_sibling m (append_sibling (node (some number) d child null) next))
          ≡ child_of (if b then node (some n) e c next else find_sibling m next)) [
            | true ↦ refl
            | false ↦ child_of-append_other number m d child next h
          ]

  -- What a new instance adds to the lookups below an object whose first child is the template.
  pub record Added (number : Bytes) (template children children' : Node D) : Type 0 where
    pub new :
        (k : Bytes) (ks : List Bytes)
        → follow number (k ∷ ks) children' ≡ follow k ks (child_of template)
    pub others :
        (m k : Bytes) (ks : List Bytes)
        → bytes_eq number m ≡ false
        → follow m (k ∷ ks) children' ≡ follow m (k ∷ ks) children

  -- For an object with a child and a number whose lookup among the children gives NULL,
  -- `cwmp_model_copy_parameter` returns `CWMP_OK` where allocations succeed; then the paths that begin
  -- with the number lead where their rest leads from the first child, and those of two names or more
  -- that begin with another name lead where they led.
  pub copy_parameter-Added :
      (number n : Bytes) (name : Option Bytes) (d e : D) (child siblings next : Node D)
      → let children = node (some n) e child siblings in
        is_null (find_sibling number children) ≡ true
        → (children' : Node D) × (copy_parameter true number (node name d children next)
            ≡ (true, node name d children' next))
          × Added number children children children'
  unfolding copy_parameter copy_parameter_object follow
  copy_parameter-Added number n name d e child siblings next h =
      let children = node (some n) e child siblings in
      (
        append_sibling (node (some number) e (copy_children child) null) children,
        refl,
        record {
          new = λ k ks.
              ap (λ t. follow k ks (child_of t))
                (find_sibling-append_new number e (copy_children child) children h)
              ∙ ap (follow k ks) (copy_children-same child);
          others = λ m k ks q.
              ap (follow k ks) (child_of-append_other number m e (copy_children child) children q);
        },
      )
