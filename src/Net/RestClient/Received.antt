-- ===== src/Net/RestClient/Received.antt =====
-- src/net/rest_client.cpp: the loops of `recv_response_` that read, whatever the sizes of the reads.
use kalshi_cpp.Prelude.{
  ℕ, ◌+◌, ◌-◌, ◌≤◌, max, dec_le, ◌≡◌, inl, inr, refl, sym, ap, ◌∙◌, Option, none, some, List, [],
  ◌∷◌, ◌++◌, append_assoc, append-nil, arith, length, length-append, take, drop, drop-append,
  length-drop, take-append_in, Bytes, Option-cases,
}
use kalshi_cpp.Prelude.Strings.{find}
use kalshi_cpp.Prelude.Strings.Search.{
  find-append, find-later, find-cut, find-occurs, starts_with-length,
}
use kalshi_cpp.Prelude.Runs.{value}
use kalshi_cpp.Sim.RestServer.Connections.{ReadAnswer, got, end_of_stream, again}
use kalshi_cpp.Net.RestClient.{read_header, read_body}

-- A stream: pieces, an EAGAIN in place of some, and the end.
abbrev pub answers : List (Option Bytes) → List ReadAnswer
answers [] = end_of_stream ∷ []
answers (none ∷ ps) = again ∷ answers ps
answers (some b ∷ ps) = got b ∷ answers ps

-- The bytes of a stream.
abbrev pub received : List (Option Bytes) → Bytes
received [] = []
received (none ∷ ps) = received ps
received (some b ∷ ps) = b ++ received ps

abbrev pub headers_end : Bytes
headers_end = 13 ∷ 10 ∷ 13 ∷ 10 ∷ []

-- The last loop appends all that is left of the stream.
pub read_body-received :
    (ps : List (Option Bytes)) (body : Bytes)
    → read_body (answers ps) body ≡ value (body ++ received ps)
unfolding read_body
read_body-received [] body = ap value (sym (append-nil body))
read_body-received (none ∷ ps) body = read_body-received ps body
read_body-received (some b ∷ ps) body =
    read_body-received ps (body ++ b) ∙ ap value (append_assoc body b (received ps))

read_header-found :
    (bytes header : Bytes) (reads : List ReadAnswer) (tot_size ptr : ℕ)
    → find (header ++ bytes) headers_end (max 3 tot_size - 3) ≡ some ptr
    → read_header (got bytes ∷ reads) header tot_size
      ≡ value (take (ptr + 4) (header ++ bytes), drop (ptr + 4) (header ++ bytes), reads)
unfolding read_header
read_header-found bytes header reads tot_size ptr e = rw (read_header, e) refl

read_header-not_yet :
    (bytes header : Bytes) (reads : List ReadAnswer) (tot_size : ℕ)
    → find (header ++ bytes) headers_end (max 3 tot_size - 3) ≡ none
    → read_header (got bytes ∷ reads) header tot_size
      ≡ read_header reads (header ++ bytes) (tot_size + length bytes)
unfolding read_header
read_header-not_yet bytes header reads tot_size e = rw (read_header, e) refl

read_header-again :
    (reads : List ReadAnswer) (header : Bytes) (tot_size : ℕ)
    → read_header (again ∷ reads) header tot_size ≡ read_header reads header tot_size
unfolding read_header
read_header-again reads header tot_size = refl

-- The search that starts three bytes before the new ones answers what a search from the start would.
search-resumed :
    (header bytes : Bytes)
    → find header headers_end 0 ≡ none
    → find (header ++ bytes) headers_end (max 3 (length header) - 3)
      ≡ find (header ++ bytes) headers_end 0
search-resumed header bytes absent =
    find-later (header ++ bytes) headers_end (max 3 (length header) - 3) (omega arith) λ j e.
      elim (dec_le (j + 4) (length header)) [
        | yes le ↦ let (k, found) = find-cut header bytes headers_end j (omega arith) e le in cc
        | no gt ↦ ground arith
      ]

-- When the end of the headers first occurs at `e` of a stream, the first loop splits there, and leaves the
-- rest of the stream for the last one.
pub read_header-splits :
    (ps : List (Option Bytes)) (header text : Bytes) (e tot_size : ℕ)
    → header ++ received ps ≡ text
    → tot_size ≡ length header
    → find header headers_end 0 ≡ none
    → find text headers_end 0 ≡ some e
    → (behind : Bytes) × (rest : List (Option Bytes)) × (read_header (answers ps) header tot_size
        ≡ value (take (e + 4) text, behind, answers rest))
      × (behind ++ received rest ≡ drop (e + 4) text)
read_header-splits [] header text e tot_size all size absent found =
    let whole : header ≡ text = sym (append-nil header) ∙ all in
    let same : find header headers_end 0 ≡ some e = ap (λ t. find t headers_end 0) whole ∙ found in
    cc
read_header-splits (none ∷ ps) header text e tot_size all size absent found =
    let (behind, rest, run, back) =
      read_header-splits ps header text e tot_size all size absent found in
    (behind, rest, read_header-again (answers ps) header tot_size ∙ run, back)
read_header-splits (some b ∷ ps) header text e tot_size all size absent found =
    let split : (header ++ b) ++ received ps ≡ text = append_assoc header b (received ps) ∙ all in
    let resumed : find (header ++ b) headers_end (max 3 tot_size - 3)
        ≡ find (header ++ b) headers_end 0 =
      ap (λ n. find (header ++ b) headers_end (max 3 n - 3)) size
      ∙ search-resumed header b absent in
    elim (Option-cases (find (header ++ b) headers_end 0)) [
      | inr (j, f) ↦
          let same : some e ≡ some j =
            sym found
            ∙ (ap (λ t. find t headers_end 0) (sym split)
                ∙ find-append (header ++ b) (received ps) headers_end j f) in
          let eq : j ≡ e = cc in
          let (ge, at) = find-occurs (header ++ b) headers_end 0 j f in
          let inside : e + 4 ≤ length (header ++ b) = omega (
            arith,
            eq,
            starts_with-length headers_end (drop j (header ++ b)) at,
            length-drop j (header ++ b),
          ) in
          let run = read_header-found b header (answers ps) tot_size j (resumed ∙ f) in
          (
            drop (e + 4) (header ++ b),
            ps,
            run
                ∙ (ap
                      (λ n.
                        value (take (n + 4) (header ++ b), drop (n + 4) (header ++ b), answers ps))
                      eq
                    ∙ ap (λ t. value (t, drop (e + 4) (header ++ b), answers ps))
                        (sym (take-append_in (e + 4) (header ++ b) (received ps) inside)
                          ∙ ap (take (e + 4)) split)),
            sym (drop-append (e + 4) (header ++ b) (received ps) inside) ∙ ap (drop (e + 4)) split,
          )
      | inl f ↦
          let (behind, rest, run, back) =
            read_header-splits ps (header ++ b) text e (tot_size + length b) split
              (omega (arith, length-append header b)) f found in
          (
            behind,
            rest,
            read_header-not_yet b header (answers ps) tot_size (resumed ∙ f) ∙ run,
            back,
          )
    ]
