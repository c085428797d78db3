-- ===== src/Printer/Tests.antt =====
-- Printing a flat list of elements, and a document.
use netcwmp.Common.{◌≡◌, refl, [], ◌∷◌, some, codes, arith}
use netcwmp.Xml.{Xml, leaf}
use netcwmp.Printer.{print_attributes, dom_tree_print}
use netcwmp.Printer.Forever.{is_flat, is_some, dom_tree_print-is_flat}

abbrev flat : Xml
flat = leaf (codes "a") (some (codes "1")) ((codes "k", codes "v") ∷ []) Xml.null

flat-printed : dom_tree_print 2 flat ≡ some (codes "<a k=\"v\">1</a>\n")
unfolding dom_tree_print print_attributes
flat-printed = refl

dom_tree_print-is_flat_example : is_some (dom_tree_print 2 flat) ≡ is_flat flat
dom_tree_print-is_flat_example = dom_tree_print-is_flat flat 2 (omega arith)
