-- ===== src/Digest.antt =====
-- Digest authentication: `http_parse_key_value`, `http_digest_calc_ha1`, `http_check_digest_auth`,
-- `http_calc_digest_response` and `http_parse_digest_auth` of libcwmp/src/http.c, and `MD5` of
-- libcwmp/src/util.c. The digest of a whole text, 16 bytes, is an argument, `md5`. Strings are without
-- their NUL.
pub mod Reads
pub mod Accepts
mod Tests
use netcwmp.Common.{
  ℕ, zero, suc, ◌+◌, ◌-◌, Bool, true, false, ◌&&◌, ◌||◌, List, [], ◌∷◌, ◌++◌, Option, none, some,
  Bytes, codes, bytes_eq, length, take, drop, isspace, ◌==◌, if◌then◌else◌,
}
use netcwmp.Types.{case_eq}
use netcwmp.Hex.{hex_to_string, convert_to_hex}

-- The local arrays into which the fields of a header are read.
pub record Fields : Type 0 where
  pub username : Bytes
  pub realm : Bytes
  pub nonce : Bytes
  pub response : Bytes
  pub uri : Bytes
  pub qop : Bytes
  pub cnonce : Bytes
  pub nc : Bytes

abbrev pub no_fields : Fields
no_fields = record {
  username = [];
  realm = [];
  nonce = [];
  response = [];
  uri = [];
  qop = [];
  cnonce = [];
  nc = [];
}

-- The arrays by name.
pub data Slot : Type 0 where
  username : Slot
  realm : Slot
  nonce : Slot
  response : Slot
  uri : Slot
  qop : Slot
  cnonce : Slot
  nc : Slot

abbrev pub store : Slot → Bytes → Fields → Fields
store Slot.username v f = record f { username = v }
store Slot.realm v f = record f { realm = v }
store Slot.nonce v f = record f { nonce = v }
store Slot.response v f = record f { response = v }
store Slot.uri v f = record f { uri = v }
store Slot.qop v f = record f { qop = v }
store Slot.cnonce v f = record f { cnonce = v }
store Slot.nc v f = record f { nc = v }

-- What `http_parse_key_value` does: it adds to the pointer a number that was never set; it moves the
-- pointer by so many bytes; or it also stores a value.
pub data Scan : Type 0 where
  undefined : Scan
  moves : ℕ → Scan
  reads : Bytes → ℕ → Scan

-- What `%[^"]` or `%[^ \t,]` matches.
unfoldable pub matched : (ℕ → Bool) → ℕ → Bytes → Bytes
matched ends zero s = []
matched ends (suc width) [] = []
matched ends (suc width) (c ∷ s) =
    let rest = matched ends width s in if ends c then [] else c ∷ rest

abbrev pub is_quote : ℕ → Bool
is_quote c = c == 34

abbrev pub is_break : ℕ → Bool
is_break c = c == 32 || c == 9 || c == 44

-- `sscanf`, `moved` bytes behind the start of the pointer; where it matches nothing, the pointer moves
-- by `shift` only. At the end of the text it gives EOF, which counts as a match.
unfoldable pub scan_value : (ℕ → Bool) → ℕ → ℕ → ℕ → Bytes → Scan
unfolding matched
scan_value ends width shift moved [] = undefined
scan_value ends width shift moved (c ∷ s) =
    let v = matched ends width (c ∷ s) in if ends c then moves shift else reads v (moved + length v)

-- Behind the key, at a quote or at a plain value.
unfoldable pub scan_at : ℕ → ℕ → Bytes → Scan
unfolding scan_value
scan_at len shift [] = undefined
scan_at len shift (c ∷ s) =
    let quoted = scan_value is_quote (len - 1) shift (shift + 1) s in
    let plain = scan_value is_break (len - 1) shift shift (c ∷ s) in
    if c == 34 then quoted else plain

-- `http_parse_key_value`
unfoldable pub parse_key_value : ℕ → ℕ → Bytes → Scan
unfolding scan_at
parse_key_value len shift from = scan_at len shift (drop shift from)

-- A test of the loops: the text of the key, the size of the array and the array.
pub record Key : Type 0 where
  pub text : Bytes
  pub size : ℕ
  pub slot : Slot

-- The first of the tests that holds at a place: `strncmp(s, key, length) == 0`.
unfoldable pub find_key : List Key → Bytes → Option Key
find_key [] s = none
find_key (k ∷ keys) s =
    let others = find_key keys s in
    if bytes_eq (take (length k.text) s) k.text then some k else others

-- The body of the loop, at the byte before `s`, where `further` is the loop behind it and goes on
-- after so many bytes. `none` is a pointer that was never set.
unfoldable pub read_field :
    Option Key → Bytes → Fields → (ℕ → Fields → Option Fields) → Option Fields
unfolding parse_key_value
read_field none s f further = further 0 f
read_field (some k) s f further = elim (parse_key_value k.size (length k.text) s) [
  | undefined ↦ none
  | moves n ↦ further n f
  | reads v n ↦ further n (store k.slot v f)
]

-- `while (s<end)`, where `n` bytes are still to be left out.
unfoldable pub fields_loop : List Key → ℕ → Bytes → Fields → Option Fields
unfolding find_key read_field
fields_loop keys n [] f = some f
fields_loop keys (suc n) (c ∷ s) f = fields_loop keys n s f
fields_loop keys zero (c ∷ s) f =
    read_field (find_key keys (c ∷ s)) (c ∷ s) f (λ n g. fields_loop keys n s g)

unfoldable pub skip_spaces : Bytes → Bytes
skip_spaces [] = []
skip_spaces (c ∷ s) = let rest = skip_spaces s in if isspace c then rest else c ∷ s

-- What stands behind `digest` in the copy of the header; `none` where it begins otherwise.
unfoldable pub behind_digest : Bytes → Option Bytes
unfolding skip_spaces
behind_digest s =
    if case_eq (take 6 s) (codes "digest") then some (skip_spaces (drop 6 s)) else none

-- The copy of the header in `data`, from its first byte that is not a blank.
unfoldable pub digest_text : Bytes → Option Bytes
unfolding behind_digest
digest_text auth = behind_digest (take 511 (skip_spaces auth))

abbrev pub key : Bytes → ℕ → Slot → Key
key text size slot = record { text = text; size = size; slot = slot }

-- The tests of `http_check_digest_auth`.
abbrev pub check_keys : List Key
check_keys =
    key (codes "username=") 256 Slot.username
    ∷ key (codes "nonce=") 33 Slot.nonce
    ∷ key (codes "response=") 128 Slot.response
    ∷ key (codes "uri=") 256 Slot.uri
    ∷ key (codes "qop=") 16 Slot.qop
    ∷ key (codes "cnonce=") 33 Slot.cnonce
    ∷ key (codes "nc=") 16 Slot.nc
    ∷ key (codes "realm=") 16 Slot.realm
    ∷ []

-- The tests of `http_parse_digest_auth`.
abbrev pub challenge_keys : List Key
challenge_keys =
    key (codes "realm=") 128 Slot.realm
    ∷ key (codes "nonce=") 33 Slot.nonce
    ∷ key (codes "response=") 128 Slot.response
    ∷ key (codes "uri=") 256 Slot.uri
    ∷ key (codes "qop=") 16 Slot.qop
    ∷ key (codes "cnonce=") 33 Slot.cnonce
    ∷ key (codes "nc=") 16 Slot.nc
    ∷ key (codes "domain=") 256 Slot.uri
    ∷ []

-- The members of `http_digest_auth_t`.
pub record DigestAuth : Type 0 where
  pub active : Bool
  pub realm : Bytes
  pub nonce : Bytes
  pub cnonce : Bytes
  pub response : Bytes
  pub qop : Bytes
  pub nc : Bytes
  pub uri : Bytes

-- The copies at the end of `http_parse_digest_auth`. The arrays have a byte more, which stays NUL.
unfoldable pub copy_fields : Fields → DigestAuth → DigestAuth
copy_fields f d = record d {
  realm = take 32 f.realm;
  nonce = take 32 f.nonce;
  uri = take 128 f.uri;
  cnonce = take 32 f.cnonce;
  qop = codes "auth";
  nc = take 32 f.nc;
}

-- How a parse ends: with `CWMP_ERROR` or -1, by a pointer that was never set, or with `CWMP_OK`.
pub data Parsed : Type 0 where
  failed : Parsed
  undefined : Parsed
  done : DigestAuth → Parsed

abbrev pub parsed : Option Fields → DigestAuth → Parsed
parsed none d = Parsed.undefined
parsed (some f) d = done (copy_fields f d)

unfoldable pub parse_digest_text : Option Bytes → DigestAuth → Parsed
unfolding fields_loop copy_fields
parse_digest_text none d = failed
parse_digest_text (some s) d = parsed (fields_loop challenge_keys 0 s no_fields) d

-- `http_parse_digest_auth`, for a header that is there.
unfoldable pub parse_digest_auth : Bytes → DigestAuth → Parsed
unfolding parse_digest_text digest_text
parse_digest_auth auth d = parse_digest_text (digest_text auth) d

module _ (md5 : Bytes → Bytes) where
  -- `MD5`, for the texts put one behind the other.
  unfoldable pub md5_text : Bytes → Bytes
  md5_text s = hex_to_string (md5 s)

  -- `http_digest_calc_ha1`
  unfoldable pub digest_calc_ha1 : Bytes → Bytes → Bytes → Bytes → Bytes → Bytes → Bytes
  digest_calc_ha1 alg user rm password n cn =
      let ha1 = md5 (user ++ 58 ∷ rm ++ 58 ∷ password) in
      convert_to_hex
        (if case_eq alg (codes "md5-sess") then md5 (ha1 ++ 58 ∷ n ++ 58 ∷ cn) else ha1)

  -- `http_calc_digest_response`
  unfoldable pub calc_digest_response : Bytes → Bytes → Bytes → Bytes → Bytes → Bytes → Bytes
  unfolding md5_text digest_calc_ha1
  calc_digest_response user password rm n address cn =
      let ha1 = digest_calc_ha1 (codes "MD5") user rm password n cn in
      let ha2 = md5_text (codes "POST:" ++ address) in
      take 32 (md5_text (ha1 ++ 58 ∷ n ++ 58 ∷ ha2))

  -- `validResponse`
  unfoldable pub valid_response : Bytes → Bytes → Fields → Bytes
  unfolding md5_text digest_calc_ha1
  valid_response user password f =
      let ha1 = digest_calc_ha1 (codes "MD5") user f.realm password f.nonce f.cnonce in
      let ha2 = md5_text (codes "GET:" ++ f.uri) in
      md5_text (ha1 ++ 58 ∷ f.nonce ++ 58 ∷ f.nc ++ 58 ∷ f.cnonce ++ 58 ∷ f.qop ++ 58 ∷ ha2)

  -- The comparisons of `http_check_digest_auth`.
  unfoldable pub check_fields : Bytes → Bytes → Option Fields → Option Bool
  unfolding valid_response
  check_fields user password none = none
  check_fields user password (some f) =
      some (bytes_eq user f.username && case_eq (valid_response user password f) f.response)

  unfoldable pub check_text : Option Bytes → Bytes → Bytes → Option Bool
  unfolding fields_loop check_fields
  check_text none user password = some false
  check_text (some s) user password =
      check_fields user password (fields_loop check_keys 0 s no_fields)

  -- `http_check_digest_auth`: whether it returns 0; `none` is a pointer that was never set.
  unfoldable pub check_digest_auth : Option Bytes → Bytes → Bytes → Option Bool
  unfolding check_text digest_text
  check_digest_auth none user password = some false
  check_digest_auth (some auth) user password = check_text (digest_text auth) user password
