-- ===== src/Exchange/Tests.antt =====
-- A challenge of the ACS and its answer.
use netcwmp.Common.{
  ℕ, zero, suc, ◌<◌, true, false, List, [], ◌∷◌, ◌++◌, some, Bytes, codes, bytes_eq, replicate, All,
  pos, ◌≤◌, length-append, decimal, digits, atoi, ◌≡◌, refl, arith,
}
use netcwmp.Types.{case_eq}
use netcwmp.Hex.{hex_to_string}
use netcwmp.Hex.Digits.{length-hex_to_string}
use netcwmp.Http.{no_dest}
use netcwmp.Http.Headers.{get_variable, set_variable, parse_headers}
use netcwmp.Http.Reading.{message, header_length, read_header}
use netcwmp.Http.Splitting.{split_headers, joined, line_string}
use netcwmp.Http.Requests.{Method, Target, write_request}
use netcwmp.Http.Responses.{
  Response, read_response, status_line, set_status, content_length, read_body,
}
use netcwmp.Digest.Reads.{fields_text, stored}
use netcwmp.Digest.Accepts.{Directive, challenge_key, header, IsMd5}
use netcwmp.Exchange.{Exchange, Incoming, Sending, send_request, update_cookie}
use netcwmp.Exchange.Challenge.{answer_lines, send_request-challenge}

abbrev md5 : Bytes → Bytes
md5 s = replicate 16 171

below : (n : ℕ) → All (λ b. b < 256) (replicate n 171)
below zero = tt
below (suc n) = (omega arith, below n)

md5-IsMd5 : IsMd5 md5
md5-IsMd5 s = (refl, below 16)

abbrev acs : Target
acs = record {
  dest = record no_dest {
    scheme = codes "http";
    user = codes "u";
    password = codes "p";
    host = codes "h";
    port = 80;
    uri = codes "/";
  };
  auth_type = 2;
  cookie = [];
  auth = record {
    active = false;
    realm = [];
    nonce = [];
    cnonce = [];
    response = [];
    qop = [];
    nc = [];
    uri = [];
  };
}

abbrev session : Exchange
session = record { target = acs; last_method = 0; last_code = pos 0; readers = [] }

abbrev directives : List (Directive × Bytes)
directives =
    (Directive.realm, codes "r") ∷ (Directive.nonce, codes "n") ∷ (Directive.domain, codes "d") ∷ []

abbrev refusal : Incoming
refusal = record {
  closed = true;
  bytes =
      message
        (codes "HTTP/1.1 401 No"
          ∷ codes "WWW-Authenticate: Digest realm=\"r\", nonce=\"n\", domain=\"d\""
          ∷ [])
        [];
  cut = λ s. [];
}

abbrev refused : Response
refused = record {
  status = pos 401;
  parser =
      set_status (codes "401") (codes "No") []
      ++ (codes "www-authenticate", codes "Digest realm=\"r\", nonce=\"n\", domain=\"d\"") ∷ [];
  readers = [];
}

refusal-read : read_response refusal.closed refusal.cut refusal.bytes ≡ (pos 401, refused, [])
unfolding read_response read_header message joined split_headers line_string status_line set_status
    parse_headers atoi content_length case_eq bytes_eq read_body
refusal-read = refl

asks :
    get_variable (codes "WWW-Authenticate") refused.parser ≡ some (header challenge_key directives)
unfolding set_status set_variable get_variable case_eq bytes_eq fields_text atoi
asks = refl

abbrev empty_post : Bytes
empty_post =
    message
      (codes "POST / HTTP/1.1"
        ∷ codes "Host: h:80"
        ∷ codes "User-Agent: CPE Netcwmp Agent"
        ∷ codes "Accept: */*"
        ∷ codes "Content-Type: text/xml; charset=utf-8"
        ∷ codes "Content-Length: 0"
        ∷ [])
      []

empty_post-written : (write_request md5 Method.post [] acs).0 ≡ some empty_post
unfolding write_request message joined decimal digits
empty_post-written = refl

-- The header of the second post.
abbrev second : List Bytes
second = answer_lines md5 1 directives refused session

second-length : header_length second ≤ 1023
unfolding header_length decimal digits stored update_cookie get_variable set_status set_variable
    case_eq bytes_eq atoi
second-length =
    let response = hex_to_string (replicate 16 171) in
    omega (
      arith,
      length-hex_to_string (replicate 16 171),
      length-append (response ++ 34 ∷ []) (13 ∷ 10 ∷ []),
      length-append response (34 ∷ []),
    )

send_request-challenge_example :
    (z : Exchange) × (send_request md5 true (codes "x") refusal session
      ≡ Sending.posted (empty_post ∷ message second (codes "x") ∷ []) true z)
unfolding stored fields_text
send_request-challenge_example =
    send_request-challenge md5 true (codes "x") empty_post refusal session refused [] directives
      md5-IsMd5 (omega arith) refl empty_post-written refusal-read refl asks
      (
        (omega arith, omega arith, (refl, tt)),
        ((omega arith, omega arith, (refl, tt)), ((omega arith, omega arith, (refl, tt)), tt)),
      )
      (omega arith) (omega arith) (omega arith) (omega arith) second-length
