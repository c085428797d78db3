-- ===== src/Http/Urls.antt =====
-- `http_parse_url` of libcwmp/src/http.c on the URLs that it is for.
use netcwmp.Common.{
  ℕ, zero, suc, ◌+◌, ◌/◌, ◌%◌, ◌≤◌, ◌<◌, true, false, ◌||◌, [], ◌∷◌, ◌++◌, none, some, Bytes, codes,
  take_all, length, All, digits, decimal, decimal_zero, decimal-digits, Bool-cases, inl, inr,
  ==_iff, limit, isspace, ◌≡◌, refl, sym, subst, ap, ◌∙◌, arith, ◌==◌, if◌then◌else◌,
}
use netcwmp.Types.{case_eq}
use netcwmp.Http.{
  Dest, no_dest, find_scheme, behind_at, up_to, port_loop, port_of, encode_spaces, write_document,
  or_slash, from_port, from_host, from_user, from_scheme, parse_host, parse_authority, parse_rest,
  default_port, parse_url,
}

-- A byte of a host's name.
abbrev pub IsHostByte : ℕ → Type 0
IsHostByte c = ((c == 47) ≡ false) × ((c == 58) ≡ false) × ((c == 64) ≡ false)

-- A path is empty or begins with a slash.
abbrev pub IsPath : Bytes → Type 0
IsPath [] = Unit
IsPath (c ∷ s) = (c ≡ 47) × All (λ d. isspace d ≡ false) s

find_scheme-append :
    (scheme rest : Bytes)
    → All (λ c. (c == 58) ≡ false) scheme
    → find_scheme (scheme ++ 58 ∷ 47 ∷ rest) ≡ some (scheme, 47 ∷ rest)
unfolding find_scheme
find_scheme-append [] rest h = refl
find_scheme-append (c ∷ []) rest h = rw (h.0) refl
find_scheme-append (c ∷ d ∷ s) rest h = rw (h.0, find_scheme-append (d ∷ s) rest h.1) refl

up_to-append :
    (host rest : Bytes) → All IsHostByte host → up_to 47 58 (host ++ 58 ∷ rest) ≡ (host, 58 ∷ rest)
unfolding up_to
up_to-append [] rest h = refl
up_to-append (c ∷ s) rest h = rw (h.0.0, h.0.1, up_to-append s rest h.1) refl

behind_at-append :
    (s t : Bytes)
    → All (λ c. ((c == 47) ≡ false) × ((c == 64) ≡ false)) s
    → behind_at t ≡ none
    → behind_at (s ++ t) ≡ none
unfolding behind_at
behind_at-append [] t h e = e
behind_at-append (c ∷ s) t h e = rw (h.0.0, h.0.1) (behind_at-append s t h.1 e)

behind_at-path : (path : Bytes) → IsPath path → behind_at path ≡ none
unfolding behind_at
behind_at-path [] h = refl
behind_at-path (c ∷ s) h = rw (h.0) refl

digits-append : (k n : ℕ) (out t : Bytes) → digits k n out ++ t ≡ digits k n (out ++ t)
unfolding digits
digits-append zero n out t = refl
digits-append (suc k) n out t =
    elim (n == 0)
      as (λ b.
        (if b then out else digits k (n / 10) ((48 + n % 10) ∷ out)) ++ t
        ≡ (if b then out ++ t else digits k (n / 10) ((48 + n % 10) ∷ out ++ t))) [
          | true ↦ refl
          | false ↦ digits-append k (n / 10) ((48 + n % 10) ∷ out) t
        ]

port_loop-digits :
    (k n : ℕ) (out : Bytes) → n < limit k → port_loop (digits k n out) 0 ≡ port_loop out n
unfolding port_loop digits
port_loop-digits zero zero out h = refl
port_loop-digits zero (suc n) out h = absurd (omega (arith, h))
port_loop-digits (suc k) n out h =
    ground (arith, port_loop-digits k (n / 10) ((48 + n % 10) ∷ out) (omega (arith, h)))

port_loop-path : (n : ℕ) (path : Bytes) → IsPath path → port_loop path n ≡ (n, some path)
unfolding port_loop
port_loop-path n [] h = refl
port_loop-path n (c ∷ s) h = rw (h.0) refl

port_loop-decimal :
    (n : ℕ) (path : Bytes)
    → n < limit 10
    → IsPath path
    → port_loop (decimal n ++ path) 0 ≡ (n, some path)
unfolding port_loop
port_loop-decimal n path h p = elim (Bool-cases (n == 0)) [
  | inl is_zero ↦
      ap (λ s. port_loop (s ++ path) 0) (decimal_zero n is_zero)
      ∙ port_loop-path 0 path p
      ∙ ap (λ k. (k, some path)) (sym ((==_iff n 0).0 is_zero))
  | inr positive ↦
      ap (λ s. port_loop (s ++ path) 0) (decimal-digits n positive)
      ∙ ap (λ s. port_loop s 0) (digits-append 10 n [] path)
      ∙ port_loop-digits 10 n path h
      ∙ port_loop-path n path p
]

encode_spaces-path : (s : Bytes) → All (λ d. isspace d ≡ false) s → encode_spaces s ≡ s
unfolding encode_spaces
encode_spaces-path [] h = refl
encode_spaces-path (c ∷ s) h = rw (h.0, encode_spaces-path s h.1) refl

-- The bytes of a URL with a host and a port.
abbrev pub url_of : Bytes → Bytes → ℕ → Bytes → Bytes
url_of scheme host port path =
    scheme ++ (codes "://" ++ (host ++ (codes ":" ++ (decimal port ++ path))))

or_slash-plain : (path : Bytes) → IsPath path → encode_spaces (or_slash path) ≡ or_slash path
unfolding encode_spaces
or_slash-plain [] h = refl
or_slash-plain (c ∷ s) h = encode_spaces-path (c ∷ s) (rw (h.0) refl, h.1)

-- A byte that ends no user.
abbrev IsPlain : ℕ → Type 0
IsPlain c = ((c == 47) ≡ false) × ((c == 64) ≡ false)

digits-IsPlain : (k n : ℕ) (out : Bytes) → All IsPlain out → All IsPlain (digits k n out)
unfolding digits
digits-IsPlain zero n out h = h
digits-IsPlain (suc k) n out h =
    elim (n == 0)
      as (λ b. All IsPlain (if b then out else digits k (n / 10) ((48 + n % 10) ∷ out))) [
        | true ↦ h
        | false ↦ digits-IsPlain k (n / 10) ((48 + n % 10) ∷ out) ((ground arith, ground arith), h)
      ]

decimal-IsPlain : (n : ℕ) → All IsPlain (decimal n)
decimal-IsPlain n = elim (Bool-cases (n == 0)) [
  | inl is_zero ↦ subst (All IsPlain) (sym (decimal_zero n is_zero)) ((refl, refl), tt)
  | inr positive ↦ subst (All IsPlain) (sym (decimal-digits n positive)) (digits-IsPlain 10 n [] tt)
]

host-IsPlain : (host : Bytes) → All IsHostByte host → All IsPlain host
host-IsPlain [] h = tt
host-IsPlain (c ∷ s) h = ((h.0.0, h.0.2), host-IsPlain s h.1)

parse_host-url :
    (default : ℕ) (host : Bytes) (port : ℕ) (path : Bytes) (dest : Dest)
    → All IsHostByte host
    → length host ≤ 128
    → port < limit 10
    → IsPath path
    → parse_host default (host ++ 58 ∷ (decimal port ++ path)) dest
      ≡ (true, write_document path (record dest { host = host; port = port }))
unfolding parse_host from_host from_port port_of
parse_host-url default host port path dest hb le lt p =
    ap (λ r. from_host default r dest) (up_to-append host (decimal port ++ path) hb)
    ∙ ap (λ r. from_port host r dest) (port_loop-decimal port path lt p)
    ∙ ap (λ h. (true, write_document path (record dest { host = h; port = port })))
        (take_all 128 host le)

parse_authority-url :
    (default : ℕ) (host : Bytes) (port : ℕ) (path : Bytes) (dest : Dest)
    → All IsHostByte host
    → length host ≤ 128
    → port < limit 10
    → IsPath path
    → parse_authority default (host ++ 58 ∷ (decimal port ++ path)) dest
      ≡ (true, write_document path (record dest { host = host; port = port }))
unfolding parse_authority from_user behind_at
parse_authority-url default host port path dest hb le lt p =
    ap (λ r. from_user default (host ++ 58 ∷ (decimal port ++ path)) r dest)
      (behind_at-append host _ (host-IsPlain host hb)
        (behind_at-append (decimal port) path (decimal-IsPlain port) (behind_at-path path p)))
    ∙ parse_host-url default host port path dest hb le lt p

neither : (c : ℕ) → (c == 47) ≡ false → (c == 46) ≡ false → (c == 47 || c == 46) ≡ false
neither c a b = rw (a, b) refl

-- The parts of a URL with a host, a port and perhaps a path are read back from its text: where the
-- scheme is `http` or `https` in any case, the host has at least one and at most 128 bytes, begins
-- with no dot and has no `/`, `:` or `@`, the port is below 2 ^ 31, and the path is empty, which is
-- read as `/`, or begins with `/`, has no white space and at most 512 bytes.
pub parse_url-url_of :
    (scheme : Bytes) (c : ℕ) (host : Bytes) (port : ℕ) (path : Bytes)
    → All (λ d. (d == 58) ≡ false) scheme
    → length scheme ≤ 8
    → (case_eq scheme (codes "http") || case_eq scheme (codes "https")) ≡ true
    → (c == 46) ≡ false
    → All IsHostByte (c ∷ host)
    → length (c ∷ host) ≤ 128
    → port < 2147483648
    → IsPath path
    → length path ≤ 512
    → parse_url (url_of scheme (c ∷ host) port path) no_dest ≡ (
      true,
      record no_dest { scheme = scheme; host = c ∷ host; port = port; uri = or_slash path },
    )
unfolding parse_url from_scheme parse_rest write_document
parse_url-url_of scheme c host port path sc sl known dot hb le lt p short =
    let url = url_of scheme (c ∷ host) port path in
    let rest = (c ∷ host) ++ 58 ∷ (decimal port ++ path) in
    ap (λ r. from_scheme url r no_dest) (find_scheme-append scheme (47 ∷ rest) sc)
    ∙ ap (λ s. parse_rest (default_port url) rest (record no_dest { scheme = s }))
        (take_all 8 scheme sl)
    ∙ ap
        (λ b.
          if b
          then (true, write_document rest (record no_dest { scheme = scheme }))
          else parse_authority (default_port url) rest (record no_dest { scheme = scheme }))
        (neither c hb.0.0 dot)
    ∙ parse_authority-url (default_port url) (c ∷ host) port path
        (record no_dest { scheme = scheme }) hb le (omega (arith, lt)) p
    ∙ ap
        (λ b. (
          true,
          if b
              then record no_dest {
                scheme = scheme;
                host = c ∷ host;
                port = port;
                uri = encode_spaces (or_slash path);
              }
              else record no_dest { scheme = scheme; host = c ∷ host; port = port },
        ))
        known
    ∙ ap (λ u. (true, record no_dest { scheme = scheme; host = c ∷ host; port = port; uri = u }))
        (or_slash-plain path p)
