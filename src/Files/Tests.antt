-- ===== src/Files/Tests.antt =====
-- A download of two bytes, and an upload of five.
use netcwmp.Common.{
  ◌/◌, ◌≤◌, [], ◌∷◌, some, Bytes, codes, pos, ◌≡◌, refl, true, arith, length, without_sound,
  bytes_eq, decimal, digits, atoi, ap, replicate,
}
use netcwmp.Files.{Peer, Moved, dest_create, download_file, upload_file}
use netcwmp.Files.Ends.{IsConnected, bytes_sent, download_file-message, upload_file-bytes_sent}
use netcwmp.Http.Headers.{get_variable}
use netcwmp.Http.Reading.{message}
use netcwmp.Http.Requests.{Method, write_request}
use netcwmp.Http.{parse_url}
use netcwmp.Http.Responses.{read_response}
use netcwmp.Http.Responses.Pieces.{read_response-message}
use netcwmp.Http.Splitting.{IsSent-line, joined}
use netcwmp.Types.{case_eq}

md5 : Bytes → Bytes
md5 s = s

abbrev peer : Peer
peer = record {
  socket = pos 0;
  connect = pos 0;
  opens = true;
  wrote = pos 90;
  incoming = record {
    closed = true;
    bytes = message (codes "HTTP/1.1 200 OK" ∷ codes "Content-Length: 2" ∷ []) (codes "xy");
    cut = λ s. s ∷ [];
  };
}

peer-IsConnected : IsConnected peer
peer-IsConnected = record { socket = refl; connect = refl; opens = refl; wrote = refl }

abbrev url : Bytes
url = codes "http://h/f"

abbrev asked : Bytes
asked =
    message
      (codes "GET /f HTTP/1.1"
        ∷ codes "Host: h:80"
        ∷ codes "User-Agent: CPE Netcwmp Agent"
        ∷ codes "Accept: */*"
        ∷ codes "Content-Type: text/xml; charset=utf-8"
        ∷ codes "Content-Length: 0"
        ∷ [])
      []

asked-written : (write_request md5 Method.get [] (dest_create url)).0 ≡ some asked
unfolding write_request message joined decimal digits parse_url case_eq bytes_eq dest_create
asked-written = refl

uri-fits : length (dest_create url).dest.uri ≤ 512
unfolding parse_url case_eq bytes_eq dest_create
uri-fits = omega arith

download_file-message_example :
    download_file md5 peer url
    ≡ some (record { code = pos 9001; request = some asked; bytes = some (codes "xy" ∷ []) })
unfolding get_variable case_eq bytes_eq decimal digits atoi
download_file-message_example =
    download_file-message md5 peer url asked (codes "HTTP/1.1") (codes "200") (codes "OK")
      ((codes "Content-Length", codes "2") ∷ []) (codes "xy") refl uri-fits asked-written
      peer-IsConnected refl refl (unfold joined in refl) (omega arith, tt)
      (without_sound 32 (codes "HTTP/1.1") refl) (omega arith, without_sound 32 (codes "200") refl)
      refl (omega arith) (refl, tt) (refl, tt)
      (
        IsSent-line (codes "HTTP/1.1 200 OK") (omega arith) (omega arith) refl refl refl,
        (IsSent-line (codes "Content-Length: 2") (omega arith) (omega arith) refl refl refl, tt),
      )
      (omega arith) refl

-- A peer that lets an upload go on.
abbrev goes_on : Peer
goes_on = record peer {
  incoming = record {
    closed = true;
    bytes = message (codes "HTTP/1.1 100 Continue" ∷ codes "Content-Length: 0" ∷ []) [];
    cut = λ s. [];
  };
}

goes_on-code :
    (read_response goes_on.incoming.closed goes_on.incoming.cut goes_on.incoming.bytes).0 ≡ pos 100
unfolding get_variable case_eq bytes_eq decimal digits atoi
goes_on-code =
    ap (λ r. r.0)
      (read_response-message true (λ s. []) (codes "HTTP/1.1") (codes "100") (codes "Continue")
        ((codes "Content-Length", codes "0") ∷ []) [] (unfold joined in refl) tt
        (without_sound 32 (codes "HTTP/1.1") refl)
        (omega arith, without_sound 32 (codes "100") refl) refl (omega arith) (refl, tt) (refl, tt)
        (
          IsSent-line (codes "HTTP/1.1 100 Continue") (omega arith) (omega arith) refl refl refl,
          (IsSent-line (codes "Content-Length: 0") (omega arith) (omega arith) refl refl refl, tt),
        )
        (omega arith) refl)

-- Of 3000 bytes two are sent.
abbrev large : Bytes → Bytes
large name = replicate 3000 97

upload_file-bytes_sent_example :
    (m : Moved) × (upload_file 4096 goes_on large (some (codes "1 Vendor Configuration File")) url
      ≡ some m)
    × (bytes_sent m ≡ length (large (codes "/tmp/mysystem.cfg")) / 1024)
upload_file-bytes_sent_example =
    upload_file-bytes_sent 4096 goes_on large (codes "1 Vendor Configuration File") url
      (omega arith) uri-fits (record { socket = refl; connect = refl; opens = refl; wrote = refl })
      goes_on-code
