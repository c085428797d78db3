-- ===== src/Exchange/Challenge.antt =====
-- The answer to a challenge of the ACS.
use netcwmp.Common.{
  ℕ, ◌≤◌, Bool, true, false, List, [], ◌∷◌, ◌++◌, some, Bytes, codes, length, decimal, take_all,
  pos, ◌==◌, ◌≡◌, refl, ap, ap₂, ◌∙◌, arith,
}
use netcwmp.Hex.{hex_to_string}
use netcwmp.Http.Headers.{get_variable}
use netcwmp.Http.{Dest}
use netcwmp.Http.Reading.{message, header_length}
use netcwmp.Http.Requests.{Method, Target, quoted, authorise, sends_auth, write_request}
use netcwmp.Http.Requests.Printed.{
  lines_of, first_line, auth_fields, cookie_fields, request_lines, write_request-message,
}
use netcwmp.Http.Responses.{Response, read_response}
use netcwmp.Digest.{no_fields, copy_fields, calc_digest_response, DigestAuth}
use netcwmp.Digest.Reads.{stored}
use netcwmp.Digest.Accepts.{
  challenge_key, keyed, header, AreValues, Directive, rfc_old_response, IsMd5,
  parse_digest_auth-header, calc_digest_response-copied,
}
use netcwmp.Exchange.{
  Exchange, Incoming, Outcome, Sending, with_auth, challenged, challenge, update_auth,
  update_cookie, received, recv_response, post, post_body, after_empty, from_empty, posts_empty,
  send_request,
}

-- The fields of a challenge.
abbrev pub fields_of : List (Directive × Bytes) → DigestAuth → DigestAuth
fields_of avs d = copy_fields (stored (keyed challenge_key avs) no_fields) d

-- The session after the challenge, before the cookie.
abbrev answered : List (Directive × Bytes) → Response → Exchange → Exchange
answered avs r x =
    with_auth (record x { last_code = r.status; readers = x.readers ++ r.readers })
      (fields_of avs (record x.target.auth { active = false }))

update_cookie-auth :
    (r : Response) (x : Exchange)
    → ((update_cookie r x).target.auth ≡ x.target.auth)
      × ((update_cookie r x).target.dest ≡ x.target.dest)
      × ((update_cookie r x).target.auth_type ≡ x.target.auth_type)
unfolding update_cookie
update_cookie-auth r x = ground arith

recv_response-challenged :
    (i : Incoming) (x : Exchange) (r : Response) (unread : List Bytes)
    (avs : List (Directive × Bytes))
    → read_response i.closed i.cut i.bytes ≡ (pos 401, r, unread)
    → r.status ≡ pos 401
    → get_variable (codes "WWW-Authenticate") r.parser ≡ some (header challenge_key avs)
    → AreValues challenge_key avs
    → length (header challenge_key avs) ≤ 511
    → recv_response i x ≡ Outcome.returned false (update_cookie r (answered avs r x))
unfolding recv_response received update_auth challenge challenged
recv_response-challenged i x r unread avs e status asks h short =
    rw
      (
        e,
        status,
        asks,
        parse_digest_auth-header avs (record x.target.auth { active = false }) h short,
      )
      refl

-- Nothing is calculated for an empty body.
post_empty :
    (md5 : Bytes → Bytes) (x : Exchange) (first : Bytes)
    → (write_request md5 Method.post [] x.target).0 ≡ some first
    → post md5 [] x ≡ (some first, x)
unfolding post write_request authorise
post_empty md5 x first e = ap (λ o. (o, x)) e

send_request-empty :
    (md5 : Bytes → Bytes) (write_ok : Bool) (body first : Bytes) (i : Incoming) (x y : Exchange)
    → posts_empty x.target ≡ true
    → (write_request md5 Method.post [] x.target).0 ≡ some first
    → recv_response i x ≡ Outcome.returned false y
    → send_request md5 write_ok body i x ≡ post_body md5 write_ok body (first ∷ []) y
unfolding send_request from_empty after_empty
send_request-empty md5 write_ok body first i x y twice e received =
    rw (twice, post_empty md5 x first e, received) refl

sends_auth-true :
    (len : ℕ) (t : Target)
    → 1 ≤ len
    → t.auth.active ≡ false
    → (t.auth_type == 2) ≡ true
    → sends_auth len t ≡ true
sends_auth-true len t one active digest = ground arith

-- The Authorization header of RFC 2617.
abbrev pub credentials : (user realm nonce uri response : Bytes) → Bytes × Bytes
credentials user realm nonce uri response = (
  codes "Authorization",
  codes "Digest username="
      ++ (quoted user
          ++ (codes ", realm="
              ++ (quoted realm
                  ++ (codes ", nonce="
                      ++ (quoted nonce
                          ++ (codes ", uri="
                              ++ (quoted uri ++ (codes ", response=" ++ quoted response)))))))),
)

-- The header of a post of `len` bytes with credentials.
abbrev pub post_lines : ℕ → Dest → Bytes × Bytes → Bytes → List Bytes
post_lines len d authorization cookie =
    (codes "POST " ++ (d.uri ++ codes " HTTP/1.1"))
    ∷ lines_of (
        (codes "Host", d.host ++ (58 ∷ decimal d.port))
        ∷ (codes "User-Agent", codes "CPE Netcwmp Agent")
        ∷ (codes "Accept", codes "*/*")
        ∷ (codes "Content-Type", codes "text/xml; charset=utf-8")
        ∷ (codes "Content-Length", decimal len)
        ∷ authorization
        ∷ cookie_fields cookie)

abbrev digest_response : (Bytes → Bytes) → Dest → DigestAuth → Bytes
digest_response md5 d a = calc_digest_response md5 d.user d.password a.realm a.nonce a.uri a.cnonce

authorise-sends :
    (md5 : Bytes → Bytes) (len : ℕ) (t : Target)
    → 1 ≤ len
    → t.auth.active ≡ false
    → (t.auth_type == 2) ≡ true
    → authorise md5 len t
      ≡ record t { auth = record t.auth { response = digest_response md5 t.dest t.auth } }
unfolding authorise
authorise-sends md5 len t one active digest =
    let some_bytes : (len == 0) ≡ false = ground arith in
    rw (authorise, some_bytes, active, digest) refl

request_lines-post_lines :
    (md5 : Bytes → Bytes) (len : ℕ) (t : Target)
    → 1 ≤ len
    → t.auth.active ≡ false
    → (t.auth_type == 2) ≡ true
    → request_lines len (authorise md5 len t)
      ≡ post_lines len t.dest
          (credentials t.dest.user t.auth.realm t.auth.nonce t.auth.uri
            (digest_response md5 t.dest t.auth))
          t.cookie
request_lines-post_lines md5 len t one active digest =
    let t' = record t { auth = record t.auth { response = digest_response md5 t.dest t.auth } } in
    ap (request_lines len) (authorise-sends md5 len t one active digest)
    ∙ ap
        (λ b.
          first_line t'
          ∷ lines_of (
              (codes "Host", t.dest.host ++ (58 ∷ decimal t.dest.port))
              ∷ (codes "User-Agent", codes "CPE Netcwmp Agent")
              ∷ (codes "Accept", codes "*/*")
              ∷ (codes "Content-Type", codes "text/xml; charset=utf-8")
              ∷ (codes "Content-Length", decimal len)
              ∷ (auth_fields b t' ++ cookie_fields t.cookie)))
        (sends_auth-true len t' one active digest)

posts_empty-digest : (t : Target) → posts_empty t ≡ true → (t.auth_type == 2) ≡ true
posts_empty-digest t h = ground arith

-- The session after the response with the challenge.
abbrev pub challenged_session : List (Directive × Bytes) → Response → Exchange → Exchange
challenged_session avs r x = update_cookie r (answered avs r x)

-- The header of the second post: its credentials are for the session's user, and the realm, the nonce
-- and the domain of the challenge.
abbrev pub answer_lines :
    (Bytes → Bytes) → ℕ → List (Directive × Bytes) → Response → Exchange → List Bytes
answer_lines md5 len avs r x =
    let f = stored (keyed challenge_key avs) no_fields in
    let d = x.target.dest in
    post_lines len d
      (credentials d.user f.realm f.nonce f.uri (
        rfc_old_response (λ s. hex_to_string (md5 s)) (codes "POST") d.user d.password f.realm
          f.nonce f.uri))
      (challenged_session avs r x).target.cookie

module _ (md5 : Bytes → Bytes) (body : Bytes) (x : Exchange) (r : Response)
    (avs : List (Directive × Bytes)) (is_md5 : IsMd5 md5) (one : 1 ≤ length body)
    (twice : posts_empty x.target ≡ true)
    (hr : length (stored (keyed challenge_key avs) no_fields).realm ≤ 32)
    (hn : length (stored (keyed challenge_key avs) no_fields).nonce ≤ 32)
    (hu : length (stored (keyed challenge_key avs) no_fields).uri ≤ 128) where
  request_lines-answer_lines :
      request_lines (length body) (authorise md5 (length body) (challenged_session avs r x).target)
      ≡ answer_lines md5 (length body) avs r x
  unfolding copy_fields
  request_lines-answer_lines =
      let z = answered avs r x in
      let y = challenged_session avs r x in
      let same = update_cookie-auth r z in
      let f = stored (keyed challenge_key avs) no_fields in
      let d = x.target.dest in
      let lines = λ (d : Dest) (a : DigestAuth) (response : Bytes).
        post_lines (length body) d (credentials d.user a.realm a.nonce a.uri response)
          y.target.cookie in
      request_lines-post_lines md5 (length body) y.target one (ap (λ a. a.active) same.0)
        (ap (λ n. n == 2) same.2 ∙ posts_empty-digest x.target twice)
      ∙ ap₂ (λ a d. lines d a (digest_response md5 d a)) same.0 same.1
      ∙ ap (lines d z.target.auth) (
          calc_digest_response-copied md5 is_md5 f (record x.target.auth { active = false }) d.user
            d.password hr hn hu)
      ∙ ap
          (λ (w : Bytes × Bytes × Bytes).
            post_lines (length body) d
              (credentials d.user w.0 w.1 w.2 (
                rfc_old_response (λ s. hex_to_string (md5 s)) (codes "POST") d.user d.password
                  f.realm f.nonce f.uri))
              y.target.cookie)
          (ap₂ (λ (a : Bytes) (w : Bytes × Bytes). (a, w.0, w.1)) (take_all 32 f.realm hr)
            (ap₂ (λ (b c : Bytes). (b, c)) (take_all 32 f.nonce hn) (take_all 128 f.uri hu)))

post_body-message :
    (md5 : Bytes → Bytes) (write_ok : Bool) (body text : Bytes) (before : List Bytes) (y : Exchange)
    → (write_request md5 Method.post body y.target).0 ≡ some text
    → (z : Exchange) × (post_body md5 write_ok body before y
        ≡ Sending.posted (before ++ text ∷ []) write_ok z)
unfolding post_body post
post_body-message md5 write_ok body text before y e = (
  record y { target = (write_request md5 Method.post body y.target).1 },
  rw (post_body, post, e) refl,
)

-- Digest authentication is set and the last response was not accepted; the header of an empty post
-- fits in its buffer, and the response to it has the code 401 and a challenge as `parse_digest_auth`
-- reads it, with a realm, a nonce and a domain that are not cut off; and the header of the second
-- post fits in its buffer too. Then `cwmp_session_send_request` posts twice, first the empty request,
-- then the body, which is not empty, with an Authorization header for the session's user, the realm
-- and the nonce of the challenge, its domain as the address, and the response of RFC 2069 to these
-- and the password.
pub send_request-challenge :
    (md5 : Bytes → Bytes) (write_ok : Bool) (body first : Bytes) (i : Incoming) (x : Exchange)
    (r : Response) (unread : List Bytes) (avs : List (Directive × Bytes))
    → IsMd5 md5
    → 1 ≤ length body
    → posts_empty x.target ≡ true
    → (write_request md5 Method.post [] x.target).0 ≡ some first
    → read_response i.closed i.cut i.bytes ≡ (pos 401, r, unread)
    → r.status ≡ pos 401
    → get_variable (codes "WWW-Authenticate") r.parser ≡ some (header challenge_key avs)
    → AreValues challenge_key avs
    → length (header challenge_key avs) ≤ 511
    → length (stored (keyed challenge_key avs) no_fields).realm ≤ 32
    → length (stored (keyed challenge_key avs) no_fields).nonce ≤ 32
    → length (stored (keyed challenge_key avs) no_fields).uri ≤ 128
    → header_length (answer_lines md5 (length body) avs r x) ≤ 1023
    → (z : Exchange) × (send_request md5 write_ok body i x
        ≡ Sending.posted
            (first ∷ message (answer_lines md5 (length body) avs r x) body ∷ [])
            write_ok
            z)
send_request-challenge md5 write_ok body first i x r unread avs is_md5 one twice e read status asks
      h short hr hn hu small =
    let y = challenged_session avs r x in
    let lines = request_lines-answer_lines md5 body x r avs is_md5 one twice hr hn hu in
    let text =
      write_request-message md5 body y.target (omega (arith, small, ap header_length lines))
      ∙ ap (λ ls. some (message ls body)) lines in
    let (z, sent) =
      post_body-message md5 write_ok body (message (answer_lines md5 (length body) avs r x) body)
        (first ∷ []) y text in
    (
      z,
      send_request-empty md5 write_ok body first i x y twice e
            (recv_response-challenged i x r unread avs read status asks h short)
          ∙ sent,
    )
