-- ===== src/Digest/Tests.antt =====
-- Headers of a request for a connection and of a challenge.
use netcwmp.Common.{true, false, none, [], some, Bytes, codes, bytes_eq, replicate, ◌≡◌, refl}
use netcwmp.Types.{case_eq}
use netcwmp.Digest.{find_key, fields_loop, check_digest_auth, DigestAuth}

-- A function with results of 16 bytes.
abbrev md5 : Bytes → Bytes
md5 s = replicate 16 171

abbrev no_auth : DigestAuth
no_auth = record {
  active = true;
  realm = [];
  nonce = [];
  cnonce = [];
  response = [];
  qop = [];
  nc = [];
  uri = [];
}

-- A header that ends behind the sign of a key moves the pointer by a number that was never set.
ends_early : check_digest_auth md5 (some (codes "Digest realm=")) [] [] ≡ none
unfolding check_digest_auth fields_loop find_key bytes_eq case_eq
ends_early = refl

wrong_user :
    check_digest_auth md5 (some (codes "digest username=\"x\"")) (codes "y") [] ≡ some false
unfolding check_digest_auth fields_loop find_key bytes_eq case_eq
wrong_user = refl
