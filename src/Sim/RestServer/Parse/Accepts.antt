-- ===== src/Sim/RestServer/Parse/Accepts.antt =====
-- sim/http/rest_server.cpp: `parse_request` on the text of a request.
use kalshi_cpp.Prelude.{
  ℕ, ◌+◌, ◌*◌, ◌^◌, ◌≤◌, ◌<◌, ◌≡◌, ◌≢◌, refl, sym, ap, ◌∙◌, some, [], ◌∷◌, ◌++◌, append_assoc,
  arith, length, length-append, Bytes, sub_size,
}
use kalshi_cpp.Prelude.Strings.{npos, add_size, find_at, find, substr}
use kalshi_cpp.Prelude.Strings.Segments.{
  Lacks, Lacks-append, At, At-start, At-next, At-eq, At-length, substr-At, substr-tail, find-At,
  find_at-line, find_at-end, add_size-small, sub_size-add,
}
use kalshi_cpp.Prelude.Runs.{returns, ◌>>=◌}
use kalshi_cpp.Sim.RestServer.Parse.{
  Headers, Parsing, crlf, headers_end, space, header_loop, parse_request,
}
use kalshi_cpp.Sim.RestServer.Parse.Lines.{block, WellFormed, read_headers, header_loop-block}

abbrev pub first_line : Bytes → Bytes → Bytes → Bytes
first_line method path version = method ++ (space ++ (path ++ (space ++ version)))

abbrev pub request_text : Bytes → Bytes → Bytes → Headers → Bytes → Bytes
request_text method path version hs body =
    first_line method path version ++ (crlf ++ (block hs ++ (crlf ++ body)))

-- No part of the first line has a carriage return, and the method and the path have no space.
abbrev pub GoodLine : Bytes → Bytes → Bytes → Type 0
GoodLine method path version =
    Lacks 13 method × Lacks 32 method × Lacks 13 path × Lacks 32 path × Lacks 13 version

-- A header line, before its end, begins with a byte that is not a carriage return.
line-begins :
    (name content : Bytes)
    → Lacks 13 name
    → (c : ℕ) × (cs : Bytes) × (name ++ (58 ∷ 32 ∷ content) ≡ c ∷ cs) × (c ≢ 13)
line-begins [] content l = (58, 32 ∷ content, refl, omega arith)
line-begins (c ∷ cs) content (ne, l) = (c, cs ++ (58 ∷ 32 ∷ content), refl, ne)

-- The end of the headers is at the end of the last line, and nowhere before.
find_at-block :
    (hs : Headers) (x t : Bytes) (i : ℕ)
    → Lacks 13 x
    → WellFormed hs
    → find_at headers_end (x ++ (crlf ++ (block hs ++ (crlf ++ t)))) i
      ≡ some (i + length x + length (block hs))
find_at-block [] x t i l w = find_at-end x t i l ∙ ap some (omega arith)
find_at-block (h ∷ hs) x t i l ((l1, l2, l3), w) =
    let line : Bytes = h.0 ++ (58 ∷ 32 ∷ h.1) in
    let (c, cs, e, ne) = line-begins h.0 h.1 l1 in
    let rest : Bytes = crlf ++ (block hs ++ (crlf ++ t)) in
    let split : block (h ∷ hs) ++ (crlf ++ t) ≡ line ++ rest = simp append_assoc in
    let front : line ++ rest ≡ c ∷ (cs ++ rest) = ap (λ u. u ++ rest) e in
    let lacks : Lacks 13 line =
      Lacks-append 13 h.0 (58 ∷ 32 ∷ h.1) l1 (omega arith, (omega arith, l3)) in
    let len : length (block (h ∷ hs)) ≡ length line + (2 + length (block hs)) = omega (
      arith,
      length-append h.0 (58 ∷ 32 ∷ (h.1 ++ (crlf ++ block hs))),
      length-append h.1 (crlf ++ block hs),
      length-append h.0 (58 ∷ 32 ∷ h.1),
    ) in
    ap (λ u. find_at headers_end (x ++ (crlf ++ u)) i) (split ∙ front)
    ∙ (find_at-line x (cs ++ rest) c i l ne
        ∙ (ap (λ u. find_at headers_end u (i + length x + 2)) (sym front)
            ∙ (find_at-block hs line t (i + length x + 2) lacks w ∙ ap some (omega arith))))

pub find-headers_end :
    (x : Bytes) (hs : Headers) (t : Bytes)
    → Lacks 13 x
    → WellFormed hs
    → find (x ++ (crlf ++ (block hs ++ (crlf ++ t)))) headers_end 0
      ≡ some (length x + length (block hs))
unfolding find
find-headers_end x hs t l w = find_at-block hs x t 0 l w ∙ ap some (omega arith)

-- The rounds of the function, from what each of its calls answers.
parse_request-rounds :
    (buffer method path body : Bytes) (end ptr method_end path_start path_end line_end line : ℕ)
    (headers : Parsing Headers)
    → find buffer headers_end 0 ≡ some end
    → add_size end 4 ≡ ptr
    → find buffer space 0 ≡ some method_end
    → substr buffer 0 method_end ≡ some method
    → add_size method_end 1 ≡ path_start
    → find buffer space path_start ≡ some path_end
    → substr buffer path_start (sub_size path_end path_start) ≡ some path
    → find buffer crlf 0 ≡ some line_end
    → add_size line_end 2 ≡ line
    → header_loop (length buffer) buffer ptr line [] ≡ headers
    → substr buffer ptr npos ≡ some body
    → parse_request buffer ≡ (
        headers >>= λ hs.
        returns (some (record { method = method; path = path; headers = hs; body = body })))
unfolding parse_request
parse_request-rounds buffer method path body end ptr method_end path_start path_end line_end line
      headers e1 e2 e3 e4 e5 e6 e7 e8 e9 e10 e11 =
    ground (arith, e1, e2, e3, e4, e5, e6, e7, e8, e9, e10, e11)

length-block : (hs : Headers) → 2 * length hs ≤ length (block hs)
length-block [] = omega arith
length-block (h ∷ hs) = omega (
  arith,
  length-block hs,
  length-append h.0 (58 ∷ 32 ∷ (h.1 ++ (crlf ++ block hs))),
  length-append h.1 (crlf ++ block hs),
)

-- On the text of a request the parser reads the method, the path and the headers, checks every
-- Content-Length against the bytes behind the headers, and takes those as the body.
pub parse_request-text :
    (method path version : Bytes) (hs : Headers) (body : Bytes)
    → GoodLine method path version
    → WellFormed hs
    → length (request_text method path version hs body) < 2 ^ 62
    → parse_request (request_text method path version hs body) ≡ (
        read_headers (length body) hs [] >>= λ headers.
        returns (some (record { method = method; path = path; headers = headers; body = body })))
parse_request-text method path version hs body (l1, l2, l3, l4, l5) w size =
    let buffer : Bytes = request_text method path version hs body in
    let rest : Bytes = crlf ++ (block hs ++ (crlf ++ body)) in
    let first : Bytes = first_line method path version in
    let a0 : At buffer 0 (method ++ (space ++ (path ++ (space ++ (version ++ rest))))) =
      (omega arith, simp append_assoc) in
    let a1 : At buffer (length method + 1) (path ++ (space ++ (version ++ rest))) =
      At-eq buffer (0 + length method + 1) _ _ (omega arith)
        (At-next buffer _ space _ (At-next buffer 0 method _ a0)) in
    let b1 : At buffer (length first + 2) (block hs ++ (crlf ++ body)) =
      At-eq buffer (0 + length first + 2) _ _ (omega arith)
        (At-next buffer _ crlf _ (At-next buffer 0 first rest (At-start buffer))) in
    let b2 : At buffer (length first + 2 + length (block hs) + 2) body =
      At-next buffer _ crlf _ (At-next buffer _ (block hs) _ b1) in
    let total = At-length buffer _ body b2 in
    let inside = At-length buffer _ _ a1 in
    let path_len = length-append path (space ++ (version ++ rest)) in
    let lacks : Lacks 13 first =
      Lacks-append 13 method _ l1 (omega arith, Lacks-append 13 path _ l3 (omega arith, l5)) in
    parse_request-rounds buffer method path body (length first + length (block hs))
      (length first + 2 + length (block hs) + 2) (length method) (length method + 1)
      (length method + 1 + length path) (length first) (length first + 2)
      (read_headers (length body) hs []) (find-headers_end first hs body lacks w)
      (omega (arith, total))
      (find-At buffer 0 32 [] method (path ++ (space ++ (version ++ rest))) l2 a0
        ∙ ap some (omega arith))
      (substr-At buffer 0 method _ a0) (add_size-small (length method) 1 (omega (arith, inside)))
      (find-At buffer (length method + 1) 32 [] path (version ++ rest) l4 a1)
      (ap (substr buffer (length method + 1))
          (sub_size-add (length method + 1) (length path) (omega (arith, inside, path_len)))
        ∙ substr-At buffer (length method + 1) path _ a1)
      (find-At buffer 0 13 (10 ∷ []) first (block hs ++ (crlf ++ body)) lacks (At-start buffer)
        ∙ ap some (omega arith))
      (add_size-small (length first) 2 (omega (arith, total)))
      (header_loop-block hs (length buffer) buffer (length first + 2 + length (block hs) + 2)
          (length first + 2) [] body (omega (arith, total, length-block hs)) size b1 w
        ∙ ap (λ n. read_headers n hs []) (omega (arith, total)))
      (substr-tail buffer _ body b2 (omega arith))
