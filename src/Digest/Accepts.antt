-- ===== src/Digest/Accepts.antt =====
-- `http_check_digest_auth` and `http_parse_digest_auth` of libcwmp/src/http.c on headers as RFC 2617
-- writes them.
use netcwmp.Common.{
  ◌≤◌, ◌<◌, ◌&&◌, List, [], ◌∷◌, ◌++◌, some, Bytes, codes, bytes_eq, length, take, take_all, All,
  ◌≡◌, refl, ap, ◌∙◌, arith,
}
use netcwmp.Types.{case_eq}
use netcwmp.Hex.{hex_to_string}
use netcwmp.Hex.Digits.{convert_to_hex-hex_to_string, length-hex_to_string}
use netcwmp.Digest.{
  Fields, no_fields, Slot, Key, key, find_key, skip_spaces, behind_digest, digest_text, check_keys,
  challenge_keys, md5_text, digest_calc_ha1, calc_digest_response, valid_response, check_fields,
  check_text, check_digest_auth, DigestAuth, Parsed, copy_fields, parsed, parse_digest_text,
  parse_digest_auth,
}
use netcwmp.Digest.Reads.{IsValue, IsKnown, AreKeys, fields_text, stored, fields_loop-fields_text}

-- The key of an array in an `Authorization` header, with the size of the array.
abbrev pub check_key : Slot → Key
check_key Slot.username = key (codes "username=") 256 Slot.username
check_key Slot.realm = key (codes "realm=") 16 Slot.realm
check_key Slot.nonce = key (codes "nonce=") 33 Slot.nonce
check_key Slot.response = key (codes "response=") 128 Slot.response
check_key Slot.uri = key (codes "uri=") 256 Slot.uri
check_key Slot.qop = key (codes "qop=") 16 Slot.qop
check_key Slot.cnonce = key (codes "cnonce=") 33 Slot.cnonce
check_key Slot.nc = key (codes "nc=") 16 Slot.nc

-- The fields that a server sends in a challenge.
pub data Directive : Type 0 where
  realm : Directive
  nonce : Directive
  qop : Directive
  domain : Directive

abbrev pub challenge_key : Directive → Key
challenge_key Directive.realm = key (codes "realm=") 128 Slot.realm
challenge_key Directive.nonce = key (codes "nonce=") 33 Slot.nonce
challenge_key Directive.qop = key (codes "qop=") 16 Slot.qop
challenge_key Directive.domain = key (codes "domain=") 256 Slot.uri

check_key-IsKnown : (slot : Slot) → IsKnown check_keys (check_key slot)
unfolding find_key bytes_eq
check_key-IsKnown Slot.username = (omega arith, λ s. refl)
check_key-IsKnown Slot.realm = (omega arith, λ s. refl)
check_key-IsKnown Slot.nonce = (omega arith, λ s. refl)
check_key-IsKnown Slot.response = (omega arith, λ s. refl)
check_key-IsKnown Slot.uri = (omega arith, λ s. refl)
check_key-IsKnown Slot.qop = (omega arith, λ s. refl)
check_key-IsKnown Slot.cnonce = (omega arith, λ s. refl)
check_key-IsKnown Slot.nc = (omega arith, λ s. refl)

challenge_key-IsKnown : (d : Directive) → IsKnown challenge_keys (challenge_key d)
unfolding find_key bytes_eq
challenge_key-IsKnown Directive.realm = (omega arith, λ s. refl)
challenge_key-IsKnown Directive.nonce = (omega arith, λ s. refl)
challenge_key-IsKnown Directive.qop = (omega arith, λ s. refl)
challenge_key-IsKnown Directive.domain = (omega arith, λ s. refl)

check_keys-AreKeys : AreKeys check_keys
unfolding find_key bytes_eq
check_keys-AreKeys s = (refl, refl)

challenge_keys-AreKeys : AreKeys challenge_keys
unfolding find_key bytes_eq
challenge_keys-AreKeys s = (refl, refl)

module _ {A : Type 0} (key_of : A → Key) where
  -- Values with their keys.
  abbrev pub keyed : List (A × Bytes) → List (Key × Bytes)
  keyed [] = []
  keyed ((a, v) ∷ avs) = (key_of a, v) ∷ keyed avs

  -- The values that a header can hold.
  abbrev pub AreValues : List (A × Bytes) → Type 0
  AreValues = All (λ av. IsValue (key_of av.0).size av.1)

  keyed-IsKnown :
      (keys : List Key) (avs : List (A × Bytes))
      → ((a : A) → IsKnown keys (key_of a))
      → AreValues avs
      → All (λ kv. IsKnown keys kv.0 × IsValue kv.0.size kv.1) (keyed avs)
  keyed-IsKnown keys [] known h = tt
  keyed-IsKnown keys ((a, v) ∷ avs) known h = ((known a, h.0), keyed-IsKnown keys avs known h.1)

  -- The header with these fields.
  abbrev pub header : List (A × Bytes) → Bytes
  header avs = codes "Digest " ++ fields_text (keyed avs)

  -- No key begins with a blank.
  fields_text-plain :
      (avs : List (A × Bytes))
      → ((a : A) (s : Bytes) → skip_spaces ((key_of a).text ++ s) ≡ (key_of a).text ++ s)
      → skip_spaces (fields_text (keyed avs)) ≡ fields_text (keyed avs)
  unfolding fields_text
  fields_text-plain [] plain = unfold skip_spaces in refl
  fields_text-plain ((a, v) ∷ avs) plain = plain a _

  digest_text-header :
      (avs : List (A × Bytes))
      → ((a : A) (s : Bytes) → skip_spaces ((key_of a).text ++ s) ≡ (key_of a).text ++ s)
      → length (header avs) ≤ 511
      → digest_text (header avs) ≡ some (fields_text (keyed avs))
  unfolding digest_text case_eq bytes_eq
  digest_text-header avs plain h =
      ap behind_digest (take_all 511 (header avs) h) ∙ ap some (fields_text-plain avs plain)

check_key-plain :
    (slot : Slot) (s : Bytes)
    → skip_spaces ((check_key slot).text ++ s) ≡ (check_key slot).text ++ s
unfolding skip_spaces
check_key-plain Slot.username s = refl
check_key-plain Slot.realm s = refl
check_key-plain Slot.nonce s = refl
check_key-plain Slot.response s = refl
check_key-plain Slot.uri s = refl
check_key-plain Slot.qop s = refl
check_key-plain Slot.cnonce s = refl
check_key-plain Slot.nc s = refl

challenge_key-plain :
    (d : Directive) (s : Bytes)
    → skip_spaces ((challenge_key d).text ++ s) ≡ (challenge_key d).text ++ s
unfolding skip_spaces
challenge_key-plain Directive.realm s = refl
challenge_key-plain Directive.nonce s = refl
challenge_key-plain Directive.qop s = refl
challenge_key-plain Directive.domain s = refl

-- The response of RFC 2617 with `qop`, for a hash function that writes its result in hexadecimal.
abbrev pub rfc_response : (Bytes → Bytes) → Bytes → Bytes → Bytes → Fields → Bytes
rfc_response hash method user password f = hash (
    hash (user ++ 58 ∷ f.realm ++ 58 ∷ password)
    ++ 58 ∷ f.nonce
    ++ 58 ∷ f.nc
    ++ 58 ∷ f.cnonce
    ++ 58 ∷ f.qop
    ++ 58 ∷ hash (method ++ 58 ∷ f.uri))

-- The response of RFC 2069, without `qop`.
abbrev pub rfc_old_response :
    (Bytes → Bytes) → Bytes → Bytes → Bytes → Bytes → Bytes → Bytes → Bytes
rfc_old_response hash method user password rm n address =
    hash (hash (user ++ 58 ∷ rm ++ 58 ∷ password) ++ 58 ∷ n ++ 58 ∷ hash (method ++ 58 ∷ address))

-- A digest has 16 bytes.
abbrev pub IsMd5 : (Bytes → Bytes) → Type 0
IsMd5 md5 = (s : Bytes) → (length (md5 s) ≡ 16) × All (λ b. b < 256) (md5 s)

pub parse_digest_auth-header :
    (avs : List (Directive × Bytes)) (d : DigestAuth)
    → AreValues challenge_key avs
    → length (header challenge_key avs) ≤ 511
    → parse_digest_auth (header challenge_key avs) d
      ≡ Parsed.done (copy_fields (stored (keyed challenge_key avs) no_fields) d)
unfolding parse_digest_auth parse_digest_text
parse_digest_auth-header avs d h short =
    ap (λ o. parse_digest_text o d) (digest_text-header challenge_key avs challenge_key-plain short)
    ∙ ap (λ o. parsed o d)
        (fields_loop-fields_text challenge_keys (keyed challenge_key avs) no_fields
          challenge_keys-AreKeys
          (keyed-IsKnown challenge_key challenge_keys avs challenge_key-IsKnown h))

module _ (md5 : Bytes → Bytes) (is_md5 : IsMd5 md5) where
  digest_calc_ha1-md5 :
      (user rm password n cn : Bytes)
      → digest_calc_ha1 md5 (codes "MD5") user rm password n cn
        ≡ hex_to_string (md5 (user ++ 58 ∷ rm ++ 58 ∷ password))
  unfolding digest_calc_ha1 case_eq bytes_eq
  digest_calc_ha1-md5 user rm password n cn =
      let s = user ++ 58 ∷ rm ++ 58 ∷ password in
      convert_to_hex-hex_to_string (md5 s) (is_md5 s).1 (is_md5 s).0

  valid_response-rfc :
      (user password : Bytes) (f : Fields)
      → valid_response md5 user password f
        ≡ rfc_response (λ s. hex_to_string (md5 s)) (codes "GET") user password f
  unfolding valid_response md5_text
  valid_response-rfc user password f =
      rw (digest_calc_ha1-md5 user f.realm password f.nonce f.cnonce) refl

  -- A header of at most 511 bytes with fields in any order, none empty, too long for its array, or
  -- with a quote, is accepted exactly if the user name in it is the user's, and the response in it is
  -- that of RFC 2617 for the realm, nonce, counts and address in it, in any case of letters. Of a
  -- field that is repeated the last counts.
  pub check_digest_auth-rfc :
      (avs : List (Slot × Bytes)) (user password : Bytes)
      → AreValues check_key avs
      → length (header check_key avs) ≤ 511
      → check_digest_auth md5 (some (header check_key avs)) user password
        ≡ some (
            bytes_eq user (stored (keyed check_key avs) no_fields).username
            && case_eq
                (rfc_response
                  (λ s. hex_to_string (md5 s))
                  (codes "GET")
                  user
                  password
                  (stored (keyed check_key avs) no_fields))
                (stored (keyed check_key avs) no_fields).response)
  unfolding check_digest_auth check_text
  check_digest_auth-rfc avs user password h short =
      ap (λ o. check_text md5 o user password)
        (digest_text-header check_key avs check_key-plain short)
      ∙ ap (check_fields md5 user password) (
          fields_loop-fields_text check_keys (keyed check_key avs) no_fields check_keys-AreKeys
            (keyed-IsKnown check_key check_keys avs check_key-IsKnown h))
      ∙ unfold check_fields in
        ap
          (λ r. some (
            bytes_eq user (stored (keyed check_key avs) no_fields).username
            && case_eq r (stored (keyed check_key avs) no_fields).response))
          (valid_response-rfc user password (stored (keyed check_key avs) no_fields))

  calc_digest_response-rfc :
      (user password rm n address cn : Bytes)
      → calc_digest_response md5 user password rm n address cn
        ≡ rfc_old_response (λ s. hex_to_string (md5 s)) (codes "POST") user password rm n address
  unfolding calc_digest_response md5_text
  calc_digest_response-rfc user password rm n address cn =
      let hash : Bytes → Bytes = λ s. hex_to_string (md5 s) in
      let s =
        hash (user ++ 58 ∷ rm ++ 58 ∷ password) ++ 58 ∷ n ++ 58 ∷ hash (codes "POST:" ++ address) in
      rw (digest_calc_ha1-md5 user rm password n cn)
        (take_all 32 (hash s) (omega (arith, length-hex_to_string (md5 s), (is_md5 s).0)))

  pub calc_digest_response-copied :
      (f : Fields) (d : DigestAuth) (user password : Bytes)
      → length f.realm ≤ 32
      → length f.nonce ≤ 32
      → length f.uri ≤ 128
      → calc_digest_response md5 user password
          (copy_fields f d).realm
          (copy_fields f d).nonce
          (copy_fields f d).uri
          (copy_fields f d).cnonce
        ≡ rfc_old_response
            (λ s. hex_to_string (md5 s))
            (codes "POST")
            user
            password
            f.realm
            f.nonce
            f.uri
  unfolding copy_fields
  calc_digest_response-copied f d user password hr hn hu =
      rw (take_all 32 f.realm hr, take_all 32 f.nonce hn, take_all 128 f.uri hu)
        (calc_digest_response-rfc user password f.realm f.nonce f.uri (take 32 f.cnonce))

  -- A challenge of at most 511 bytes, with fields in any order, none empty, too long for its array or
  -- with a quote, and a realm, a nonce and a domain of at most 32, 32 and 128 bytes, is parsed; the
  -- response for it that is calculated then is that of RFC 2069 for the realm and the nonce in it and
  -- the domain as the address, for a POST.
  pub parse_digest_auth-rfc :
      (avs : List (Directive × Bytes)) (d : DigestAuth) (user password : Bytes)
      → AreValues challenge_key avs
      → length (header challenge_key avs) ≤ 511
      → length (stored (keyed challenge_key avs) no_fields).realm ≤ 32
      → length (stored (keyed challenge_key avs) no_fields).nonce ≤ 32
      → length (stored (keyed challenge_key avs) no_fields).uri ≤ 128
      → (e : DigestAuth) × (parse_digest_auth (header challenge_key avs) d ≡ Parsed.done e)
        × (calc_digest_response md5 user password e.realm e.nonce e.uri e.cnonce
            ≡ rfc_old_response
                (λ s. hex_to_string (md5 s))
                (codes "POST")
                user
                password
                (stored (keyed challenge_key avs) no_fields).realm
                (stored (keyed challenge_key avs) no_fields).nonce
                (stored (keyed challenge_key avs) no_fields).uri)
  parse_digest_auth-rfc avs d user password h short hr hn hu =
      let f = stored (keyed challenge_key avs) no_fields in
      (
        copy_fields f d,
        parse_digest_auth-header avs d h short,
        calc_digest_response-copied f d user password hr hn hu,
      )
