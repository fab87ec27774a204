-- ===== src/Sim/RestServer/Parse/Prefixes.antt =====
-- sim/http/rest_server.cpp: `parse_request` on a request that has arrived in part, and in whole.
use kalshi_cpp.Prelude.{
  ℕ, ◌+◌, ◌-◌, ◌^◌, ◌<◌, ◌≡◌, ◌≢◌, ◌⊎◌, refl, ap, ◌∙◌, Bool, true, false, none, some, [], ◌∷◌, ◌++◌,
  arith, length, length-append, take, take-append, length-take, Bytes, pos, bytes_eq, if◌then◌else◌,
  ltb, Bool-cases, inl, inr,
}
use kalshi_cpp.Prelude.Strings.{find, put}
use kalshi_cpp.Prelude.Strings.Search.{find-take}
use kalshi_cpp.Prelude.Strings.Segments.{Lacks, Lacks-append}
use kalshi_cpp.Prelude.Decimals.{stoi}
use kalshi_cpp.Prelude.Runs.{value, returns, ◌>>=◌}
use kalshi_cpp.Sim.RestServer.Parse.{
  Headers, crlf, headers_end, content_length, check_length, parse_request,
}
use kalshi_cpp.Sim.RestServer.Parse.Lines.{block, WellFormed, read_headers}
use kalshi_cpp.Sim.RestServer.Parse.Accepts.{
  first_line, request_text, GoodLine, find-headers_end, parse_request-text,
}

-- Each Content-Length says `n`.
abbrev pub Announces : ℕ → Headers → Type 0
Announces n [] = Unit {0}
Announces n (h ∷ hs) =
    (bytes_eq h.0 content_length ≡ true → stoi h.1 ≡ some (pos n)) × Announces n hs

-- One of the headers is a Content-Length.
abbrev pub has_length : Headers → Bool
has_length [] = false
has_length (h ∷ hs) = if bytes_eq h.0 content_length then true else has_length hs

-- `request.headers[name] = content` for each header in order
pub put_all : Headers → Headers → Headers
put_all [] acc = acc
put_all (h ∷ hs) acc = put_all hs (put h.0 h.1 acc)

check_length-other :
    (name content : Bytes) (rest : ℕ)
    → bytes_eq name content_length ≡ false
    → check_length name content rest ≡ value tt
unfolding check_length
check_length-other name content rest e = ground (arith, e)

check_length-same :
    (name content : Bytes) (n : ℕ)
    → bytes_eq name content_length ≡ true
    → stoi content ≡ some (pos n)
    → check_length name content n ≡ value tt
unfolding check_length
check_length-same name content n e s = ground (arith, e, s)

check_length-differs :
    (name content : Bytes) (n rest : ℕ)
    → bytes_eq name content_length ≡ true
    → stoi content ≡ some (pos n)
    → n ≢ rest
    → check_length name content rest ≡ returns none
unfolding check_length
check_length-differs name content n rest e s ne = ground (arith, e, s)

read_headers-Announces :
    (n : ℕ) (hs acc : Headers) → Announces n hs → read_headers n hs acc ≡ value (put_all hs acc)
unfolding read_headers put_all
read_headers-Announces n [] acc a = refl
read_headers-Announces n (h ∷ hs) acc (a, more) =
    let passes : check_length h.0 h.1 n ≡ value tt =
      elim (Bool-cases (bytes_eq h.0 content_length)) [
        | inl e ↦ check_length-same h.0 h.1 n e (a e)
        | inr e ↦ check_length-other h.0 h.1 n e
      ] in
    ap (λ m. m >>= λ _. read_headers n hs (put h.0 h.1 acc)) passes
    ∙ read_headers-Announces n hs (put h.0 h.1 acc) more

read_headers-differs :
    (n rest : ℕ) (hs acc : Headers)
    → Announces n hs
    → has_length hs ≡ true
    → n ≢ rest
    → read_headers rest hs acc ≡ returns none
unfolding read_headers
read_headers-differs n rest [] acc a h ne = cc
read_headers-differs n rest (h ∷ hs) acc (a, more) has ne =
    elim (Bool-cases (bytes_eq h.0 content_length)) [
      | inl e ↦
          ap (λ m. m >>= λ _. read_headers rest hs (put h.0 h.1 acc))
            (check_length-differs h.0 h.1 n rest e (a e) ne)
      | inr e ↦
          let later : has_length hs ≡ true = ground (arith, has, e) in
          ap (λ m. m >>= λ _. read_headers rest hs (put h.0 h.1 acc))
            (check_length-other h.0 h.1 rest e)
          ∙ read_headers-differs n rest hs (put h.0 h.1 acc) more later ne
    ]

-- The text of a request whose Content-Length headers say the length of its body is accepted.
pub parse_request-whole :
    (method path version : Bytes) (hs : Headers) (body : Bytes)
    → GoodLine method path version
    → WellFormed hs
    → length (request_text method path version hs body) < 2 ^ 62
    → Announces (length body) hs
    → parse_request (request_text method path version hs body)
      ≡ returns
          (some (record { method = method; path = path; headers = put_all hs []; body = body }))
parse_request-whole method path version hs body g w size a =
    parse_request-text method path version hs body g w size
    ∙ ap
        (λ m. m >>= λ headers.
          returns (some (record { method = method; path = path; headers = headers; body = body })))
        (read_headers-Announces (length body) hs [] a)

no_end : (buffer : Bytes) → find buffer headers_end 0 ≡ none → parse_request buffer ≡ returns none
unfolding parse_request
no_end buffer e = ground (arith, e)

take-request_text :
    (method path version : Bytes) (hs : Headers) (body : Bytes) (k j : ℕ)
    → k ≡ length (first_line method path version) + length (block hs) + 4 + j
    → take k (request_text method path version hs body)
      ≡ request_text method path version hs (take j body)
take-request_text method path version hs body k j e =
    let first : Bytes = first_line method path version in
    take-append first _ k (2 + (length (block hs) + (2 + j))) (omega arith)
    ∙ ap (λ t. first ++ t)
        (take-append crlf _ (2 + (length (block hs) + (2 + j))) (length (block hs) + (2 + j))
            (omega arith)
          ∙ ap (λ t. crlf ++ t)
              (take-append (block hs) (crlf ++ body) (length (block hs) + (2 + j)) (2 + j)
                  (omega arith)
                ∙ ap (λ t. block hs ++ t) (take-append crlf body (2 + j) j (omega arith))))

length-request_text :
    (method path version : Bytes) (hs : Headers) (body : Bytes)
    → length (request_text method path version hs body)
      ≡ length (first_line method path version) + length (block hs) + 4 + length body
length-request_text method path version hs body = omega (
  arith,
  length-append (first_line method path version) (crlf ++ (block hs ++ (crlf ++ body))),
  length-append (block hs) (crlf ++ body),
)

-- What has arrived of a request is not accepted before its last byte.
pub parse_request-prefix :
    (method path version : Bytes) (hs : Headers) (body : Bytes) (k : ℕ)
    → GoodLine method path version
    → WellFormed hs
    → length (request_text method path version hs body) < 2 ^ 62
    → Announces (length body) hs
    → (body ≡ []) ⊎ (has_length hs ≡ true)
    → k < length (request_text method path version hs body)
    → parse_request (take k (request_text method path version hs body)) ≡ returns none
parse_request-prefix method path version hs body k g w size a whole short =
    let first : Bytes = first_line method path version in
    let text : Bytes = request_text method path version hs body in
    let total = length-request_text method path version hs body in
    let (l1, l2, l3, l4, l5) = g in
    let lacks : Lacks 13 first =
      Lacks-append 13 method _ l1 (omega arith, Lacks-append 13 path _ l3 (omega arith, l5)) in
    elim (Bool-cases (ltb k (length first + length (block hs) + 4))) [
      | inl early ↦ no_end (take k text) (
          find-take text headers_end (length first + length (block hs)) k
            (find-headers_end first hs body lacks w) (ground arith))
      | inr late ↦
          let j : ℕ = k - (length first + length (block hs) + 4) in
          let k_is : k ≡ length first + length (block hs) + 4 + j = ground arith in
          let part_len : length (take j body) ≡ j = length-take j body (omega arith) in
          let part_total = length-request_text method path version hs (take j body) in
          let has : has_length hs ≡ true = elim whole [
            | inl e ↦ absurd (omega (arith, ap (length {A = ℕ}) e))
            | inr h ↦ h
          ] in
          ap parse_request (take-request_text method path version hs body k j k_is)
          ∙ (parse_request-text method path version hs (take j body) g w (omega arith)
              ∙ ap
                  (λ m. m >>= λ headers. returns (
                    some (record {
                      method = method;
                      path = path;
                      headers = headers;
                      body = take j body;
                    })))
                  (read_headers-differs (length body) (length (take j body)) hs [] a has
                    (λ e. omega arith)))
    ]
