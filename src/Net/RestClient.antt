-- ===== src/Net/RestClient.antt =====
-- src/net/rest_client.h, src/net/rest_client.cpp: `connect`, `send_request_` and `recv_response_`, on what
-- the operating system answers.
pub mod Descriptor
pub mod Received
pub mod Reply
use kalshi_cpp.Prelude.{
  ℕ, zero, suc, ◌+◌, ◌-◌, ◌≤◌, max, Bool, true, false, Option, none, some, List, [], ◌∷◌, ◌++◌,
  length, take, drop, ◌==◌, if◌then◌else◌, Bytes, codes, bytes_eq, ℤ, pos,
}
use kalshi_cpp.Prelude.Strings.{find, substr}
use kalshi_cpp.Prelude.Decimals.{stoi, to_string}
use kalshi_cpp.Prelude.Runs.{
  Run, value, returns, throws, undefined, running, ◌>>=◌, or_throw, or_return,
}
use kalshi_cpp.Sim.RestServer.{Written, write_loop}
use kalshi_cpp.Sim.RestServer.Connections.{ReadAnswer, got, end_of_stream, again, read_failed}

pub record Response : Type 0 where
  pub status : ℤ
  pub headers : List (Bytes × Bytes)
  pub body : Bytes

-- `fd` is `none` where the source has -1; the descriptors closed so far are noted, the last first.
pub record RestClient : Type 0 where
  pub host : Bytes
  pub port : Bytes
  pub fd : Option ℕ
  pub closed : List ℕ

abbrev pub init_client : Bytes → Bytes → RestClient
init_client host port = record { host = host; port = port; fd = none; closed = [] }

-- What getaddrinfo, socket and connect answer.
pub record Dialled : Type 0 where
  pub resolved : Bool
  pub socket : Option ℕ
  pub connected : Bool

unfoldable pub connect : Dialled → RestClient → Bool × RestClient
connect os c =
    if os.resolved
    then (elim os.socket [
      | none ↦ (false, record c { fd = none })
      | some fd ↦
          if os.connected
          then (true, record c { fd = some fd })
          else (false, record c { fd = some fd; closed = fd ∷ c.closed })
    ])
    else (false, c)

-- The destructor.
unfoldable pub destroy : RestClient → RestClient
destroy c = elim c.fd [ none ↦ c | some fd ↦ record c { closed = fd ∷ c.closed } ]

abbrev pub crlf : Bytes
crlf = 13 ∷ 10 ∷ []

-- `Response{}`
abbrev pub empty_response : Response
empty_response = record { status = pos 0; headers = []; body = [] }

-- `if (!body.empty()) { … }`
abbrev pub body_headers : Bytes → Bytes → Bytes
body_headers [] content_type = []
body_headers (b ∷ bs) content_type =
    codes "Content-Type: "
    ++ (content_type
        ++ (crlf ++ (codes "Content-Length: " ++ (to_string (length (b ∷ bs)) ++ crlf))))

unfoldable pub request : Bytes → Bytes → Bytes → Bytes → Bytes → Bytes
request host method path body content_type =
    method
    ++ (codes " "
        ++ (path
            ++ (codes " HTTP/1.1"
                ++ (crlf
                    ++ (codes "Host: "
                        ++ (host
                            ++ (crlf
                                ++ (codes "Connection: close"
                                    ++ (crlf
                                        ++ (body_headers body content_type
                                            ++ (crlf ++ body)))))))))))

abbrev Receiving : Type 0 → Type 0
Receiving A = Run Response A

-- The first loop of `recv_response_`: the headers, what has come behind them, and the answers that are
-- left. EAGAIN is tried again.
unfoldable pub read_header :
    List ReadAnswer → Bytes → ℕ → Receiving (Bytes × Bytes × List ReadAnswer)
read_header [] header tot_size = running
read_header (again ∷ reads) header tot_size = read_header reads header tot_size
read_header (read_failed ∷ reads) header tot_size = returns empty_response
read_header (end_of_stream ∷ reads) header tot_size = value (header, [], reads)
read_header (got bytes ∷ reads) header tot_size =
    let header' = header ++ bytes in
    elim (find header' (13 ∷ 10 ∷ 13 ∷ 10 ∷ []) (max 3 tot_size - 3)) [
      | some ptr ↦ value (take (ptr + 4) header', drop (ptr + 4) header', reads)
      | none ↦ read_header reads header' (tot_size + length bytes)
    ]

-- `while (header[ptr] != ' ') ptr++;` on the bytes from `ptr` on; past the end it is undefined.
unfoldable pub skip_word : Bytes → ℕ → Receiving ℕ
skip_word [] ptr = undefined
skip_word (c ∷ cs) ptr = elim (c == 32) [ true ↦ value ptr | false ↦ skip_word cs (suc ptr) ]

-- The loop that collects `status`: the word, and the position of the space behind it.
unfoldable pub read_word : Bytes → ℕ → Bytes → Receiving (Bytes × ℕ)
read_word [] ptr word = undefined
read_word (c ∷ cs) ptr word = elim (c == 32) [
  | true ↦ value (word, ptr)
  | false ↦ read_word cs (suc ptr) (word ++ (c ∷ []))
]

-- `response.headers.insert({name, content})` keeps the content of a name that is there.
unfoldable pub insert_absent : Bytes → Bytes → List (Bytes × Bytes) → List (Bytes × Bytes)
insert_absent name content [] = (name, content) ∷ []
insert_absent name content (h ∷ hs) =
    if bytes_eq name h.0 then h ∷ hs else h ∷ insert_absent name content hs

-- The loop over the header lines.
unfoldable pub read_lines : ℕ → Bytes → ℕ → List (Bytes × Bytes) → Receiving (List (Bytes × Bytes))
read_lines zero header ptr headers = running
read_lines (suc fuel) header ptr headers = do
  nxt ← or_return empty_response (find header crlf ptr)
  elim (nxt == ptr) [
    | true ↦ value headers
    | false ↦ do
      header_line ← or_throw (substr header ptr (nxt - ptr))
      space ← or_return empty_response (find header_line (58 ∷ 32 ∷ []) 0)
      let header_sec = drop (space + 2) header_line
      read_lines fuel header (nxt + 2) (insert_absent (take space header_line) header_sec headers)
  ]

-- The last loop.
unfoldable pub read_body : List ReadAnswer → Bytes → Receiving Bytes
read_body [] body = running
read_body (again ∷ reads) body = read_body reads body
read_body (read_failed ∷ reads) body = returns empty_response
read_body (end_of_stream ∷ reads) body = value body
read_body (got bytes ∷ reads) body = read_body reads (body ++ bytes)

-- What is done with the headers: the status and the header lines.
unfoldable pub read_head : Bytes → Receiving (ℤ × List (Bytes × Bytes))
read_head header = do
  space ← skip_word header 0
  (status_text, status_end) ← read_word (drop (space + 1) header) (space + 1) []
  status ← or_throw (stoi status_text)
  line_end ← or_return empty_response (find header crlf status_end)
  headers ← read_lines (length header) header (line_end + 2) []
  value (status, headers)

unfoldable pub recv_response : List ReadAnswer → Receiving (Unit {0})
recv_response reads = do
  (header, behind, reads') ← read_header reads [] 0
  (status, headers) ← read_head header
  body ← read_body reads' behind
  returns (record { status = status; headers = headers; body = body })

-- `send_request_`: what the socket takes, and the response.
unfoldable pub send_request :
    RestClient
    → Bytes
    → Bytes
    → Bytes
    → Bytes
    → List Written
    → List ReadAnswer
    → Bytes × Receiving (Unit {0})
send_request c method path body content_type writes reads =
    let (sent, done) = write_loop (request c.host method path body content_type) 0 writes in
    elim done [
      | none ↦ (sent, running)
      | some false ↦ (sent, returns empty_response)
      | some true ↦ (sent, recv_response reads)
    ]

unfoldable pub get :
    RestClient → Bytes → List Written → List ReadAnswer → Bytes × Receiving (Unit {0})
get c path = send_request c (codes "GET") path [] []

unfoldable pub post :
    RestClient
    → Bytes
    → Bytes
    → Bytes
    → List Written
    → List ReadAnswer
    → Bytes × Receiving (Unit {0})
post c path body content_type = send_request c (codes "POST") path body content_type
