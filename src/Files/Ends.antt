-- ===== src/Files/Ends.antt =====
-- How the transfers of files end, in libcwmp/src/http.c and cwmpd/src/agent.c.
use netcwmp.Common.{
  ℕ, zero, suc, ◌/◌, ◌<◌, ◌≤◌, Bool, true, false, List, [], ◌∷◌, none, some, Bytes, codes, pos,
  negsuc, is_pos, length, length-drop, length-take, All, without, decimal, leb, Bool-cases, inl,
  inr, ◌==◌, ◌≡◌, refl, ap, ◌∙◌, arith, le→leb, leb→le, drop, take, length-append, if◌then◌else◌,
}
use netcwmp.Exchange.{Incoming}
use netcwmp.Fault.{is_ok}
use netcwmp.Files.{
  Peer, Moved, stopped, get_file, dest_create, received, receive_file, or_denied, is_ftp,
  download_file, default_len, send_blocks, file_head, is_code, answered, sent_file, send_file,
  upload_file,
}
use netcwmp.Http.Headers.{get_variable, IsValue}
use netcwmp.Http.Reading.{message}
use netcwmp.Http.Requests.{Method, write_request}
use netcwmp.Http.Requests.Printed.{lines_of, lowered}
use netcwmp.Http.Responses.Pieces.{AreReads, IsWord, status_text, read_response-message}
use netcwmp.Http.Responses.{read_response, code_of}
use netcwmp.Http.Splitting.{joined, IsSent}

-- A connection over which a request has been written, with the file open.
pub record IsConnected (p : Peer) : Type 0 where
  pub socket : is_ok p.socket ≡ true
  pub connect : is_ok p.connect ≡ true
  pub opens : p.opens ≡ true
  pub wrote : is_pos p.wrote ≡ true

receive_file-IsConnected :
    (md5 : Bytes → Bytes) (p : Peer) (url request : Bytes)
    → IsConnected p
    → (write_request md5 Method.get [] (dest_create url)).0 ≡ some request
    → receive_file md5 p url ≡ some (received (some request) p.incoming)
unfolding receive_file get_file
receive_file-IsConnected md5 p url request c e =
    rw (receive_file, c.socket, c.connect, c.opens, e, get_file, c.wrote) refl

-- A download over HTTP, from an address whose path has at most 512 bytes and with a request that fits
-- into its buffer, of which the response has come whole, with any code but one that is 0 as an `int`,
-- as 200 is: the body is in the file, in the reads in which it came, and the download is reported to
-- have failed, by the fault 9001. The response has at most 61 further lines, of a name without colon
-- and a value, each of a length that can be read, one of them with the length of the body, which is
-- less than 2 ^ 31.
pub download_file-message :
    (md5 : Bytes → Bytes) (p : Peer) (url request version code text : Bytes)
    (nvs : List (Bytes × Bytes)) (body : Bytes)
    → is_ftp url ≡ false
    → length (dest_create url).dest.uri ≤ 512
    → (write_request md5 Method.get [] (dest_create url)).0 ≡ some request
    → IsConnected p
    → p.incoming.bytes ≡ message (status_text version code text ∷ lines_of nvs) body
    → is_ok (code_of code) ≡ false
    → joined (p.incoming.cut body) ≡ body
    → AreReads (p.incoming.cut body)
    → All (λ c. (c == 32) ≡ false) version
    → IsWord code
    → IsValue text
    → length nvs ≤ 61
    → All (λ nv. without 58 nv.0 ≡ true) nvs
    → All (λ nv. IsValue nv.1) nvs
    → All IsSent (status_text version code text ∷ lines_of nvs)
    → length body < 2147483648
    → get_variable (codes "Content-Length") (lowered nvs) ≡ some (decimal (length body))
    → download_file md5 p url
      ≡ some
          (record { code = pos 9001; request = some request; bytes = some (p.incoming.cut body) })
unfolding download_file
download_file-message md5 p url request version code text nvs body http fits sends c e failed whole
      reads hv hc ht many names values sent below len =
    let i = p.incoming in
    let read =
      ap (read_response i.closed i.cut) e
      ∙ read_response-message i.closed i.cut version code text nvs body whole reads hv hc ht many
          names values sent below len in
    ap (λ b. if b then some (stopped (pos 9001)) else or_denied (receive_file md5 p url)) http
    ∙ ap or_denied (receive_file-IsConnected md5 p url request c sends)
    ∙ ap
        (λ r.
          or_denied
            (some (record { code = r.0; request = some request; bytes = some r.1.readers })))
        read
    ∙ ap
        (λ b. some (record {
          code = if b then pos 0 else pos 9001;
          request = some request;
          bytes = some (i.cut body);
        }))
        failed

-- Where the file cannot be created, the download is reported to have succeeded.
pub download_file_unopened :
    (md5 : Bytes → Bytes) (p : Peer) (url : Bytes)
    → is_ftp url ≡ false
    → is_ok p.socket ≡ true
    → is_ok p.connect ≡ true
    → p.opens ≡ false
    → download_file md5 p url ≡ some (stopped (pos 0))
unfolding download_file receive_file
download_file_unopened md5 p url http s c o =
    rw (download_file, http, receive_file, s, c, o, c) refl

length-send_blocks :
    (k : ℕ) (content : Bytes)
    → length content ≤ k
    → length (joined (send_blocks k content)) ≡ length content / 1024
unfolding send_blocks joined
length-send_blocks zero content h = omega (arith, h)
length-send_blocks (suc k) content h = elim (Bool-cases (leb default_len (length content))) [
  | inl full ↦
      let le = leb→le default_len (length content) full in
      let left = length-drop default_len content in
      let rest = length-send_blocks k (drop default_len content) (omega (arith, h, le, left)) in
      rw full (
        omega (
          arith,
          length-append (take 1 content) (joined (send_blocks k (drop default_len content))),
          length-take 1 content,
          rest,
          left,
          le,
        ))
  | inr short ↦ rw short (omega (arith, not_full (length content) short))
]
  where
    not_full : (n : ℕ) → leb default_len n ≡ false → n < 1024
    not_full n e = ground (arith, e)

-- How many bytes of the file have been written.
pub bytes_sent : Moved → ℕ
unfolding joined
bytes_sent m = elim m.bytes [ none ↦ 0 | some pieces ↦ length (joined pieces) ]

sent_file-answered :
    (address : ℕ) (i : Incoming) (url content : Bytes)
    → (read_response i.closed i.cut i.bytes).0 ≡ pos 100
    → (sent_file address i url content).bytes ≡ some (send_blocks (length content) content)
sent_file-answered address i url content e =
    let read = read_response i.closed i.cut i.bytes in
    let head = some (file_head (dest_create url).dest address) in
    let chosen : Bool → Moved = λ b.
      if b
      then record {
        code = answered i read.2;
        request = head;
        bytes = some (send_blocks (length content) content);
      }
      else record { code = negsuc 0; request = head; bytes = some [] } in
    ap (λ c. (chosen (is_code 100 c)).bytes) e

send_file-IsConnected :
    (address : ℕ) (p : Peer) (content url : Bytes)
    → IsConnected p
    → send_file address p content url ≡ sent_file address p.incoming url content
unfolding send_file
send_file-IsConnected address p content url c = rw (send_file, c.socket, c.connect, c.opens) refl

-- An upload to an address whose path has at most 512 bytes, for a file type of 27 bytes or more, over
-- a connection on which the peer answers the header with the code 100: of the file, which is the
-- configuration for each type, one byte is sent for each 1024 that it has, and of a shorter file
-- nothing.
pub upload_file-bytes_sent :
    (address : ℕ) (p : Peer) (file : Bytes → Bytes) (type url : Bytes)
    → 27 ≤ length type
    → length (dest_create url).dest.uri ≤ 512
    → IsConnected p
    → (read_response p.incoming.closed p.incoming.cut p.incoming.bytes).0 ≡ pos 100
    → (m : Moved) × (upload_file address p file (some type) url ≡ some m)
      × (bytes_sent m ≡ length (file (codes "/tmp/mysystem.cfg")) / 1024)
unfolding upload_file bytes_sent
upload_file-bytes_sent address p file type url long fits c e =
    let content = file (codes "/tmp/mysystem.cfg") in
    let m = sent_file address p.incoming url content in
    (
      record m { code = if is_ok m.code then pos 0 else pos 9001 },
      rw (upload_file, le→leb 27 (length type) long)
          (ap (λ m. or_denied (some m)) (send_file-IsConnected address p content url c)),
      ap (λ o. elim o [ none ↦ 0 | some pieces ↦ length (joined pieces) ])
            (sent_file-answered address p.incoming url content e)
          ∙ length-send_blocks (length content) content (omega arith),
    )
