-- ===== src/Soap/Lookup.antt =====
-- Finding the method in a document that libcwmp/src/cwmp.c has made, when it is received.
use netcwmp.Common.{
  ℕ, zero, suc, ◌+◌, ◌≤◌, true, false, [], ◌∷◌, ◌++◌, map, Option, none, some, Bytes, codes,
  bytes_eq, bytes_eq_iff, ==_iff, ◌∙◌, take, length, ◌≡◌, refl, arith,
}
use netcwmp.Types.{case_eq, to_lower}
use netcwmp.Xml.{Xml, find_name, get_child_with_name}
use netcwmp.Soap.{
  Header, qualified, names_of, document, create_envelope_node, create_header_node, create_body_node,
  get_rpc_method_node, get_body_node, received,
}

pub case_eq-same : (s : Bytes) → case_eq s s ≡ true
unfolding case_eq
case_eq-same s = (bytes_eq_iff (map to_lower s) (map to_lower s)).1 refl

bytes_eq_cons : (x : ℕ) (xs ys : Bytes) → bytes_eq (x ∷ xs) (x ∷ ys) ≡ bytes_eq xs ys
unfolding bytes_eq
bytes_eq_cons x xs ys = rw ((==_iff x x).1 refl) refl

-- Two names with the prefix `p`, cut behind the byte where they differ.
differ :
    (k : ℕ) (p s t : Bytes)
    → length p + 2 ≤ k
    → case_eq (take k (p ++ 58 ∷ 72 ∷ s)) (take k (p ++ 58 ∷ 66 ∷ t)) ≡ false
unfolding case_eq bytes_eq
differ zero p s t h = absurd (omega (arith, h))
differ (suc zero) p s t h = absurd (omega (arith, h))
differ (suc (suc k)) [] s t h = refl
differ (suc (suc k)) (c ∷ p) s t h =
    bytes_eq_cons (to_lower c) (map to_lower (take (suc k) (p ++ 58 ∷ 72 ∷ s)))
      (map to_lower (take (suc k) (p ++ 58 ∷ 66 ∷ t)))
    ∙ differ (suc k) p s t (omega (arith, h))

module _ (env enc : Bytes) (h : length env ≤ 29) where
  header-body : case_eq (names_of env enc).header (names_of env enc).body ≡ false
  unfolding names_of qualified
  header-body = differ 31 env (codes "eader") (codes "ody") (omega (arith, h))

  pub get_rpc_method_node-document :
      (header : Option Header) (rpc : Xml)
      → get_rpc_method_node (names_of env enc) (received (document (names_of env enc) header rpc))
        ≡ rpc
  unfolding document create_envelope_node create_header_node create_body_node get_rpc_method_node
      get_body_node get_child_with_name find_name
  get_rpc_method_node-document none rpc = rw (case_eq-same (names_of env enc).body) refl
  get_rpc_method_node-document (some header) rpc =
      rw (header-body, case_eq-same (names_of env enc).body) refl
