-- ===== src/Http/Tests.antt =====
-- A URL and headers.
use netcwmp.Common.{
  Bytes, replicate, false, without, without_sound, length, ◌≤◌, ◌&&◌, ◌++◌, pos, decimal, digits,
  atoi, ◌∷◌, ◌≡◌, refl, true, [], none, some, codes, arith, bytes_eq, ◌||◌,
}
use netcwmp.Types.{case_eq}
use netcwmp.Http.{no_dest, find_scheme, behind_at, up_to, encode_spaces, parse_url}
use netcwmp.Http.Urls.{url_of, parse_url-url_of}
use netcwmp.Http.Headers.{get_variable}
use netcwmp.Http.Reading.{message, header_length}
use netcwmp.Http.Requests.{Method, Target, request, authorise, write_request, read_request}
use netcwmp.Http.Requests.Printed.{write_request_overflow}
use netcwmp.Http.Requests.Trip.{read_request-write_request}
use netcwmp.Http.Responses.{read_response, set_status}
use netcwmp.Http.Responses.Pieces.{read_response-message}
use netcwmp.Http.Splitting.{IsSent, IsSent-line, joined}

http-known :
    (case_eq (codes "http") (codes "http") || case_eq (codes "http") (codes "https")) ≡ true
unfolding case_eq bytes_eq
http-known = refl

parse_url-url_of_example :
    parse_url (url_of (codes "http") (codes "acs") 8080 (codes "/tr")) no_dest ≡ (
      true,
      record no_dest { scheme = codes "http"; host = codes "acs"; port = 8080; uri = codes "/tr" },
    )
parse_url-url_of_example =
    parse_url-url_of (codes "http") 97 (codes "cs") 8080 (codes "/tr")
      (refl, (refl, (refl, (refl, tt)))) (omega arith) http-known refl
      ((refl, refl, refl), ((refl, refl, refl), ((refl, refl, refl), tt))) (omega arith)
      (omega arith) (refl, (refl, (refl, tt))) (omega arith)

with_password : parse_url (codes "http://u:p@acs/a b") no_dest ≡ (
  true,
  record {
    scheme = codes "http";
    user = codes "u";
    password = codes "p";
    host = codes "acs";
    port = 80;
    uri = codes "/a%20b";
  },
)
unfolding parse_url find_scheme behind_at up_to encode_spaces case_eq bytes_eq
with_password = refl

abbrev md5 : Bytes → Bytes
md5 s = replicate 16 171

abbrev acs : Target
acs = record {
  dest = record no_dest { scheme = codes "http"; host = codes "h"; port = 80; uri = codes "/" };
  auth_type = 0;
  cookie = codes "a=b";
  auth = record {
    active = false;
    realm = [];
    nonce = [];
    cnonce = [];
    response = [];
    qop = [];
    nc = [];
    uri = [];
  };
}

line :
    (l : Bytes)
    → 1 ≤ length l
    → length l ≤ 1020
    → (without 0 l && without 10 l && without 13 l) ≡ true
    → IsSent l
line l one h plain = IsSent-line l one h (ground arith) (ground arith) (ground arith)

read_request-write_request_example :
    (sent : Bytes) × ((write_request md5 Method.post (codes "xy") acs).0 ≡ some sent)
    × (read_request true sent
        ≡ request 146 Method.post
            ((codes "host", codes "h:80")
              ∷ (codes "user-agent", codes "CPE Netcwmp Agent")
              ∷ (codes "accept", codes "*/*")
              ∷ (codes "content-type", codes "text/xml; charset=utf-8")
              ∷ (codes "content-length", codes "2")
              ∷ (codes "cookie", codes "a=b")
              ∷ [])
            (codes "xy"))
unfolding header_length authorise decimal digits
read_request-write_request_example =
    read_request-write_request md5 true (codes "xy") acs (omega arith)
      (
        line (codes "POST / HTTP/1.1") (omega arith) (omega arith) refl,
        (
          line (codes "Host: h:80") (omega arith) (omega arith) refl,
          (
            line (codes "User-Agent: CPE Netcwmp Agent") (omega arith) (omega arith) refl,
            (
              line (codes "Accept: */*") (omega arith) (omega arith) refl,
              (
                line (codes "Content-Type: text/xml; charset=utf-8") (omega arith) (omega arith)
                    refl,
                (
                  line (codes "Content-Length: 2") (omega arith) (omega arith) refl,
                  (line (codes "Cookie: a=b") (omega arith) (omega arith) refl, tt),
                ),
              ),
            ),
          ),
        ),
      )
      (refl, (refl, (refl, (refl, (refl, (refl, tt))))))

read_response-message_example :
    read_response true
      (λ s. s ∷ [])
      (message (codes "HTTP/1.1 200 OK" ∷ codes "Content-Length: 2" ∷ []) (codes "xy"))
    ≡ (
      pos 200,
      record {
        status = pos 200;
        parser =
            set_status (codes "200") (codes "OK") [] ++ (codes "content-length", codes "2") ∷ [];
        readers = codes "xy" ∷ [];
      },
      [],
    )
unfolding get_variable case_eq bytes_eq decimal digits atoi
read_response-message_example =
    read_response-message true (λ s. s ∷ []) (codes "HTTP/1.1") (codes "200") (codes "OK")
      ((codes "Content-Length", codes "2") ∷ []) (codes "xy") (unfold joined in refl)
      (omega arith, tt) (without_sound 32 (codes "HTTP/1.1") refl)
      (omega arith, without_sound 32 (codes "200") refl) refl (omega arith) (refl, tt) (refl, tt)
      (
        line (codes "HTTP/1.1 200 OK") (omega arith) (omega arith) refl,
        (line (codes "Content-Length: 2") (omega arith) (omega arith) refl, tt),
      )
      (omega arith) refl

-- A header that does not fit: path, host and cookie fill their arrays.
abbrev crowded : Target
crowded = record acs {
  dest = record acs.dest { host = replicate 128 97; uri = replicate 512 97 };
  cookie = replicate 256 97;
}

write_request_overflow_example : (write_request md5 Method.post [] crowded).0 ≡ none
write_request_overflow_example =
    write_request_overflow md5 [] crowded (unfold header_length authorise in omega arith)
