-- ===== src/Net/Exchange.antt =====
-- src/net/rest_client.cpp against sim/http/rest_server.cpp: what the client sends is what the server
-- parses, and what the server answers is what the client reads.
use kalshi_cpp.Prelude.{
  ℕ, ◌+◌, ◌^◌, ◌<◌, ◌≡◌, ◌⊎◌, inl, inr, refl, sym, ap, ◌∙◌, subst, true, false, Option, some, List,
  [], ◌∷◌, ◌++◌, append_assoc, arith, length, length-append, take, drop, take-length, drop-length,
  ◌==◌, if-elim, Bytes, codes, ℤ, pos,
}
use kalshi_cpp.Prelude.Strings.{find}
use kalshi_cpp.Prelude.Strings.Segments.{Lacks, Lacks-append}
use kalshi_cpp.Prelude.Decimals.{to_string, stoi-to_string, to_string-digits, AllDigits, is_digit}
use kalshi_cpp.Prelude.Runs.{value, returns}
use kalshi_cpp.Sim.RestServer.{Request, Routes, Written, write_loop, dispatch, reason_phrase}
use kalshi_cpp.Sim.RestServer
use kalshi_cpp.Sim.RestServer.Answer.{serialize_response}
use kalshi_cpp.Sim.RestServer.Writing.{Offered, write_loop-sends}
use kalshi_cpp.Sim.RestServer.Parse.{Headers}
use kalshi_cpp.Sim.RestServer.Parse.Lines.{block, WellFormed}
use kalshi_cpp.Sim.RestServer.Parse.Accepts.{request_text, find-headers_end}
use kalshi_cpp.Sim.RestServer.Parse.Prefixes.{Announces, has_length, put_all}
use kalshi_cpp.Sim.RestServer.Connections.{Buffers, in_buffer, Served, on_connection_event}
use kalshi_cpp.Sim.RestServer.Connections.Pieces.{
  joined, all_pieces, last_event, arrive, pieces-served,
}
use kalshi_cpp.Net.RestClient.{
  RestClient, request, read_head, read_header, read_body, recv_response, send_request,
}
use kalshi_cpp.Net.RestClient.Received.{
  answers, received, headers_end, read_header-splits, read_body-received,
}
use kalshi_cpp.Net.RestClient.Reply.{insert_all, head_text, read_head-text}

-- Digits are neither spaces nor line ends.
Lacks-digits : (b : ℕ) (ds : Bytes) → is_digit b ≡ false → AllDigits ds → Lacks b ds
Lacks-digits b [] h d = tt
Lacks-digits b (c ∷ cs) h (d, ds) = (λ e. ground arith, Lacks-digits b cs h ds)

Lacks-to_string : (b v : ℕ) → is_digit b ≡ false → v < 2 ^ 64 → Lacks b (to_string v)
Lacks-to_string b v h small =
    let (c, cs, e, ds, back) = to_string-digits v [] small tt in
    subst (Lacks b) (sym e) (Lacks-digits b (c ∷ cs) h ds)

Lacks-reason_phrase : (status : ℕ) → Lacks 13 (reason_phrase status)
unfolding reason_phrase
Lacks-reason_phrase status =
    if-elim (Lacks 13) (status == 200) _ _ (λ _. omega arith)
      λ _.
        if-elim (Lacks 13) (status == 400) _ _ (λ _. omega arith)
          λ _.
            if-elim (Lacks 13) (status == 404) _ _ (λ _. omega arith)
              λ _. if-elim (Lacks 13) (status == 500) _ _ (λ _. omega arith) λ _. omega arith

-- The header lines of a response.
abbrev pub reply_headers : RestServer.Response → Headers
reply_headers r =
    (codes "Content-Type", r.content_type)
    ∷ (codes "Content-Length", to_string (length r.body))
    ∷ (codes "Connection", codes "close")
    ∷ []

-- The header lines of a request.
abbrev pub sent_headers : Bytes → Bytes → Bytes → Headers
sent_headers host [] content_type = (codes "Host", host) ∷ (codes "Connection", codes "close") ∷ []
sent_headers host (b ∷ bs) content_type =
    (codes "Host", host)
    ∷ (codes "Connection", codes "close")
    ∷ (codes "Content-Type", content_type)
    ∷ (codes "Content-Length", to_string (length (b ∷ bs)))
    ∷ []

request-text :
    (host method path body content_type : Bytes)
    → request host method path body content_type
      ≡ request_text method path (codes "HTTP/1.1") (sent_headers host body content_type) body
unfolding request
request-text host method path [] content_type = simp append_assoc
request-text host method path (b ∷ bs) content_type = simp append_assoc

abbrev pub reply_line : RestServer.Response → Bytes
reply_line r = codes "HTTP/1.1" ++ (32 ∷ (to_string r.status ++ (32 ∷ reason_phrase r.status)))

reply-text :
    (r : RestServer.Response)
    → serialize_response r
      ≡ reply_line r ++ ((13 ∷ 10 ∷ []) ++ (block (reply_headers r) ++ ((13 ∷ 10 ∷ []) ++ r.body)))
unfolding serialize_response
reply-text r = simp append_assoc

reply-WellFormed :
    (r : RestServer.Response)
    → Lacks 13 r.content_type
    → length r.body < 2 ^ 64
    → WellFormed (reply_headers r)
reply-WellFormed r l size = (
  (omega arith, omega arith, l),
  (
    (omega arith, omega arith, Lacks-to_string 13 (length r.body) refl size),
    ((omega arith, omega arith, omega arith), tt),
  ),
)

-- Where the headers of a response end, and what stands before and behind.
reply-split :
    (r : RestServer.Response)
    → Lacks 13 r.content_type
    → r.status < 2 ^ 31
    → length r.body < 2 ^ 64
    → (e : ℕ) × (find (serialize_response r) headers_end 0 ≡ some e)
      × (take (e + 4) (serialize_response r)
          ≡ head_text
              (codes "HTTP/1.1")
              (to_string r.status)
              (reason_phrase r.status)
              (reply_headers r))
      × (drop (e + 4) (serialize_response r) ≡ r.body)
reply-split r l small size =
    let line : Bytes = reply_line r in
    let hs : Headers = reply_headers r in
    let head : Bytes = line ++ ((13 ∷ 10 ∷ []) ++ (block hs ++ ((13 ∷ 10 ∷ []) ++ []))) in
    let lacks : Lacks 13 line =
      Lacks-append 13 (codes "HTTP/1.1")
        (32 ∷ (to_string r.status ++ (32 ∷ reason_phrase r.status))) (omega arith)
        (
          omega arith,
          Lacks-append 13 (to_string r.status) (32 ∷ reason_phrase r.status)
              (Lacks-to_string 13 r.status refl (omega arith))
              (omega arith, Lacks-reason_phrase r.status),
        ) in
    let whole : serialize_response r ≡ head ++ r.body = reply-text r ∙ simp append_assoc in
    let len : length line + length (block hs) + 4 ≡ length head = omega (
      arith,
      length-append line ((13 ∷ 10 ∷ []) ++ (block hs ++ ((13 ∷ 10 ∷ []) ++ []))),
      length-append (block hs) ((13 ∷ 10 ∷ []) ++ []),
    ) in
    (
      length line + length (block hs),
      ap (λ t. find t headers_end 0) (reply-text r)
          ∙ find-headers_end line hs r.body lacks (reply-WellFormed r l size),
      ap (take (length line + length (block hs) + 4)) whole
          ∙ (ap (λ n. take n (head ++ r.body)) len ∙ (take-length head r.body ∙ simp append_assoc)),
      ap (drop (length line + length (block hs) + 4)) whole
          ∙ (ap (λ n. drop n (head ++ r.body)) len ∙ drop-length head r.body),
    )

recv_response-rounds :
    (ps rest : List (Option Bytes)) (header behind body : Bytes) (n : ℤ) (hs : Headers)
    → read_header (answers ps) [] 0 ≡ value (header, behind, answers rest)
    → read_head header ≡ value (n, hs)
    → read_body (answers rest) behind ≡ value body
    → recv_response (answers ps) ≡ returns (record { status = n; headers = hs; body = body })
unfolding recv_response
recv_response-rounds ps rest header behind body n hs e1 e2 e3 = ground (arith, e1, e2, e3)

-- However a response of the server is cut into reads, the client reads its status, its header lines and
-- its body; the content type has no carriage return, and the numbers fit an int and a size_t.
pub recv_response-serialize_response :
    (r : RestServer.Response) (ps : List (Option Bytes))
    → Lacks 13 r.content_type
    → r.status < 2 ^ 31
    → length r.body < 2 ^ 64
    → received ps ≡ serialize_response r
    → recv_response (answers ps)
      ≡ returns (record {
        status = pos r.status;
        headers = insert_all (reply_headers r) [];
        body = r.body;
      })
recv_response-serialize_response r ps l small size all =
    let (e, found, front, back) = reply-split r l small size in
    let (behind, rest, run, left) =
      read_header-splits ps [] (serialize_response r) e 0 all (omega arith) (unfold find in refl)
        found in
    recv_response-rounds ps rest
      (head_text (codes "HTTP/1.1") (to_string r.status) (reason_phrase r.status) (reply_headers r))
      behind r.body (pos r.status) (insert_all (reply_headers r) [])
      (run ∙ ap (λ h. value (h, behind, answers rest)) front)
      (read_head-text (codes "HTTP/1.1") (to_string r.status) (reason_phrase r.status)
        (reply_headers r) (pos r.status) (omega arith)
        (Lacks-to_string 32 r.status refl (omega arith)) (Lacks-reason_phrase r.status)
        (reply-WellFormed r l size) (stoi-to_string r.status small))
      (read_body-received rest behind ∙ ap value (left ∙ back))

sent-WellFormed :
    (host body content_type : Bytes)
    → Lacks 13 host
    → Lacks 13 content_type
    → length body < 2 ^ 31
    → WellFormed (sent_headers host body content_type)
sent-WellFormed host [] content_type l1 l2 size =
    ((omega arith, omega arith, l1), ((omega arith, omega arith, omega arith), tt))
sent-WellFormed host (b ∷ bs) content_type l1 l2 size = (
  (omega arith, omega arith, l1),
  (
    (omega arith, omega arith, omega arith),
    (
      (omega arith, omega arith, l2),
      ((omega arith, omega arith, Lacks-to_string 13 (length (b ∷ bs)) refl (omega arith)), tt),
    ),
  ),
)

sent-Announces :
    (host body content_type : Bytes)
    → length body < 2 ^ 31
    → Announces (length body) (sent_headers host body content_type)
sent-Announces host [] content_type size = (λ e. cc, (λ e. cc, tt))
sent-Announces host (b ∷ bs) content_type size =
    (λ e. cc, (λ e. cc, (λ e. cc, (λ e. stoi-to_string (length (b ∷ bs)) size, tt))))

sent-has_length :
    (host body content_type : Bytes)
    → (body ≡ []) ⊎ (has_length (sent_headers host body content_type) ≡ true)
sent-has_length host [] content_type = inl refl
sent-has_length host (b ∷ bs) content_type = inr refl

send_request-sent :
    (c : RestClient) (method path body content_type : Bytes) (writes : List Written)
    (ps : List (Option Bytes))
    → (write_loop (request c.host method path body content_type) 0 writes).1 ≡ some true
    → send_request c method path body content_type writes (answers ps) ≡ (
      (write_loop (request c.host method path body content_type) 0 writes).0,
      recv_response (answers ps),
    )
unfolding send_request
send_request-sent c method path body content_type writes ps e = ground (arith, e)

-- The request that the server makes of what the client sends.
abbrev pub sent_request : RestClient → Bytes → Bytes → Bytes → Bytes → Request
sent_request c method path body content_type = record {
  method = method;
  path = path;
  headers = put_all (sent_headers c.host body content_type) [];
  body = body;
}

-- The server's end of an exchange: events that bring the request, and the last one.
abbrev pub answered :
    ℕ → Routes → List (List Bytes) → List Bytes → Bytes → List Written → Buffers → Served
answered fd routes es cs c writes m =
    on_connection_event fd routes writes (last_event cs c) (arrive fd routes es m).buffers

-- A method, a path, a host and a content type that fit their lines, and a body that fits an int.
abbrev pub Sendable : RestClient → Bytes → Bytes → Bytes → Bytes → Type 0
Sendable c method path body content_type =
    Lacks 13 method
    × Lacks 32 method
    × Lacks 13 path
    × Lacks 32 path
    × Lacks 13 c.host
    × Lacks 13 content_type
    × (length body < 2 ^ 31)
    × (length (request c.host method path body content_type) < 2 ^ 62)

-- A status that fits an int, a content type that fits its line, and a body that fits a size_t.
abbrev pub Repliable : RestServer.Response → Type 0
Repliable r = (r.status < 2 ^ 31) × Lacks 13 r.content_type × (length r.body < 2 ^ 64)

-- An exchange between the client and the server, when both write loops succeed, the parts of the
-- request fit their lines, the bodies and the status their integers, and the content type of the answer
-- has no carriage return: however the request is cut into reads and events, and the response into reads,
-- the client returns the status, the header lines and the body of what the server's routes answer to the
-- request that was asked for.
pub exchange :
    (c : RestClient) (method path body content_type : Bytes) (routes : Routes) (fd : ℕ)
    (m : Buffers) (es : List (List Bytes)) (cs : List Bytes) (last : Bytes) (cw sw : List Written)
    (ps : List (Option Bytes))
    → Sendable c method path body content_type
    → Repliable (dispatch (sent_request c method path body content_type) routes)
    → Offered (request c.host method path body content_type) 0 cw
    → (write_loop (request c.host method path body content_type) 0 cw).1 ≡ some true
    → Offered
        (serialize_response (dispatch (sent_request c method path body content_type) routes))
        0
        sw
    → (write_loop
        (serialize_response (dispatch (sent_request c method path body content_type) routes))
        0
        sw).1
      ≡ some true
    → in_buffer fd m ≡ []
    → all_pieces es ++ (joined cs ++ last)
      ≡ (send_request c method path body content_type cw (answers ps)).0
    → 0 < length last
    → received ps ≡ (answered fd routes es cs last sw m).sent
    → (send_request c method path body content_type cw (answers ps)).1
      ≡ returns (record {
        status = pos (dispatch (sent_request c method path body content_type) routes).status;
        headers =
            insert_all
              (reply_headers (dispatch (sent_request c method path body content_type) routes))
              [];
        body = (dispatch (sent_request c method path body content_type) routes).body;
      })
exchange c method path body content_type routes fd m es cs last cw sw ps
      (l1, l2, l3, l4, l5, l6, small, size) (r1, r2, r3) o1 w1 o2 w2 fresh all h back =
    let hs : Headers = sent_headers c.host body content_type in
    let reply : RestServer.Response =
      dispatch (sent_request c method path body content_type) routes in
    let text = request-text c.host method path body content_type in
    let run = send_request-sent c method path body content_type cw ps w1 in
    let wire : all_pieces es ++ (joined cs ++ last)
        ≡ request_text method path (codes "HTTP/1.1") hs body =
      all
      ∙ (ap (λ r. r.0) run
          ∙ (write_loop-sends (request c.host method path body content_type) 0 cw o1 w1 ∙ text)) in
    let size' : length (request_text method path (codes "HTTP/1.1") hs body) < 2 ^ 62 =
      subst (λ t. length t < 2 ^ 62) text size in
    let (none_yet, kept, served) =
      pieces-served method path (codes "HTTP/1.1") hs body fd routes sw es cs last m true
        (l1, l2, l3, l4, omega arith) (sent-WellFormed c.host body content_type l5 l6 small) size'
        (sent-Announces c.host body content_type small) (sent-has_length c.host body content_type)
        fresh wire h w2 in
    let came : received ps ≡ serialize_response reply =
      back ∙ (ap (λ s. s.sent) served ∙ write_loop-sends (serialize_response reply) 0 sw o2 w2) in
    ap (λ r. r.1) run ∙ recv_response-serialize_response reply ps r2 r1 r3 came
