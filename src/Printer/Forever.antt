-- ===== src/Printer/Forever.antt =====
-- Which documents the printer of libcwmp/src/cwmp.c gets through.
use netcwmp.Common.{
  ℕ, zero, suc, ◌<◌, Bool, true, false, Option, none, some, Bytes, ◌≡◌, refl, Bool-cases, inl, inr,
  arith, ◌∙◌, ap, sym, if◌then◌else◌,
}
use netcwmp.Xml.{Xml, elem, other}
use netcwmp.Soap.{
  Names, Header, document, create_envelope_node, create_header_node, create_body_node,
}
use netcwmp.Printer.{is_element, start_tag, end_tag, or_empty, chained, dom_tree_print, print_doc}

-- Whether no element up to the first other node has an element as its first child.
abbrev pub is_flat : Xml → Bool
is_flat Xml.null = true
is_flat (other _ _ _ _) = true
is_flat (elem _ _ _ child next) = if is_element child then false else is_flat next

-- The number of nodes among the siblings.
abbrev pub span : Xml → ℕ
span Xml.null = 0
span (other _ _ _ next) = suc (span next)
span (elem _ _ _ _ next) = suc (span next)

-- Whether there is a string.
abbrev pub is_some : Option Bytes → Bool
is_some none = false
is_some (some s) = true

chained-none :
    (before between : Bytes) (inner : Option Bytes) → chained before inner between none ≡ none
unfolding chained
chained-none before between none = refl
chained-none before between (some s) = refl

chained-some :
    (before s between : Bytes) (rest : Option Bytes)
    → is_some rest ≡ true
    → is_some (chained before (some s) between rest) ≡ true
unfolding chained
chained-some before s between none h = absurd (ground arith)
chained-some before s between (some t) h = refl

-- However deep the calls may go, printing does not end where one of the siblings up to the first node
-- that is not an element has an element as its first child.
dom_tree_print_forever : (k : ℕ) (t : Xml) → is_flat t ≡ false → dom_tree_print k t ≡ none
unfolding dom_tree_print chained
dom_tree_print_forever zero t h = refl
dom_tree_print_forever (suc k) Xml.null h = absurd (ground arith)
dom_tree_print_forever (suc k) (other kind name value next) h = absurd (ground arith)
dom_tree_print_forever (suc k) (elem n v a (elem n' v' a' c' next') next) h =
    rw (dom_tree_print_forever k (elem n v a (elem n' v' a' c' next') next) refl, chained) refl
dom_tree_print_forever (suc k) (elem n v a Xml.null next) h =
    rw (dom_tree_print_forever k next h)
      (chained-none (start_tag n a Xml.null) (end_tag n next) (some (or_empty v)))
dom_tree_print_forever (suc k) (elem n v a (other kind name value next') next) h =
    rw (dom_tree_print_forever k next h) (
      chained-none (start_tag n a (other kind name value next')) (end_tag n next)
        (some (or_empty v)))

dom_tree_print_flat :
    (k : ℕ) (t : Xml) → is_flat t ≡ true → span t < k → is_some (dom_tree_print k t) ≡ true
unfolding dom_tree_print
dom_tree_print_flat zero t h lt = absurd (omega (arith, lt))
dom_tree_print_flat (suc k) Xml.null h lt = refl
dom_tree_print_flat (suc k) (other kind name value next) h lt = refl
dom_tree_print_flat (suc k) (elem n v a (elem n' v' a' c' next') next) h lt = absurd (ground arith)
dom_tree_print_flat (suc k) (elem n v a Xml.null next) h lt =
    chained-some (start_tag n a Xml.null) (or_empty v) (end_tag n next) _
      (dom_tree_print_flat k next h (omega (arith, lt)))
dom_tree_print_flat (suc k) (elem n v a (other kind name value next') next) h lt =
    chained-some (start_tag n a (other kind name value next')) (or_empty v) (end_tag n next) _
      (dom_tree_print_flat k next h (omega (arith, lt)))

-- Printing with calls deeper than the number of siblings ends exactly if no sibling up to the first
-- node that is not an element has an element as its first child; where one has, no depth is enough.
pub dom_tree_print-is_flat :
    (t : Xml) (k : ℕ) → span t < k → is_some (dom_tree_print k t) ≡ is_flat t
dom_tree_print-is_flat t k lt = elim (Bool-cases (is_flat t)) [
  | inl flat ↦ dom_tree_print_flat k t flat lt ∙ sym flat
  | inr deep ↦ ap is_some (dom_tree_print_forever k t deep) ∙ sym deep
]

-- No document that is made for the ACS can be printed: for no depth of calls does it end.
pub print_doc-document :
    (n : Names) (header : Option Header) (rpc : Xml) (k : ℕ)
    → print_doc k (document n header rpc) ≡ none
unfolding print_doc document create_envelope_node create_header_node create_body_node
print_doc-document n none rpc k = dom_tree_print_forever k _ refl
print_doc-document n (some h) rpc k = dom_tree_print_forever k _ refl
