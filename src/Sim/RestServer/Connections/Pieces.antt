-- ===== src/Sim/RestServer/Connections/Pieces.antt =====
-- sim/http/rest_server.cpp: a request that arrives in pieces, over several events.
use kalshi_cpp.Prelude.{
  ℕ, ◌^◌, ◌<◌, ◌≡◌, ◌⊎◌, refl, sym, ap, ◌∙◌, Bool, true, none, some, List, [], ◌∷◌, ◌++◌,
  append_assoc, append-nil, arith, length, length-append, take, take-length, ◌==◌, Bytes,
  Bool-cases, inl, inr,
}
use kalshi_cpp.Prelude.Runs.{returns}
use kalshi_cpp.Sim.RestServer.{Request, Routes, dispatch, Written, write_loop}
use kalshi_cpp.Sim.RestServer.Answer.{serialize_response}
use kalshi_cpp.Sim.RestServer.Parse.{Headers, parse_request}
use kalshi_cpp.Sim.RestServer.Parse.Lines.{WellFormed}
use kalshi_cpp.Sim.RestServer.Parse.Accepts.{request_text, GoodLine}
use kalshi_cpp.Sim.RestServer.Parse.Prefixes.{
  Announces, has_length, put_all, parse_request-whole, parse_request-prefix,
}
use kalshi_cpp.Sim.RestServer.Connections.{
  Buffers, in_buffer, set_buffer, erase_buffer, ReadAnswer, got, again, kept_open, closed, Served,
  close_connection, respond, on_connection_event,
}

in_buffer-set_buffer : (fd : ℕ) (b : Bytes) (m : Buffers) → in_buffer fd (set_buffer fd b m) ≡ b
unfolding in_buffer set_buffer
in_buffer-set_buffer fd b [] = ground arith
in_buffer-set_buffer fd b (c ∷ cs) = elim (Bool-cases (fd == c.0)) [
  | inl e ↦ ground arith
  | inr e ↦ ground (arith, e, in_buffer-set_buffer fd b cs)
]

erase_buffer-set_buffer :
    (fd : ℕ) (b : Bytes) (m : Buffers) → erase_buffer fd (set_buffer fd b m) ≡ erase_buffer fd m
unfolding erase_buffer set_buffer
erase_buffer-set_buffer fd b [] = ground arith
erase_buffer-set_buffer fd b (c ∷ cs) = elim (Bool-cases (fd == c.0)) [
  | inl e ↦ ground (arith, e)
  | inr e ↦ ground (arith, e, erase_buffer-set_buffer fd b cs)
]

abbrev pub joined : List Bytes → Bytes
joined [] = []
joined (c ∷ cs) = c ++ joined cs

-- An event whose reads answer the pieces and then EAGAIN.
abbrev pub event : List Bytes → List ReadAnswer
event [] = again ∷ []
event (c ∷ cs) = got c ∷ event cs

-- An event whose reads answer the pieces, one at least.
abbrev pub last_event : List Bytes → Bytes → List ReadAnswer
last_event [] c = got c ∷ []
last_event (d ∷ ds) c = got d ∷ last_event ds c

abbrev continues : Served → Served → Served
continues s rest = elim s.progress [ kept_open ↦ rest | _ ↦ s ]

-- Events one after another, as long as the connection is kept open.
unfoldable pub arrive : ℕ → Routes → List (List Bytes) → Buffers → Served
arrive fd routes [] m = record { buffers = m; sent = []; progress = kept_open }
arrive fd routes (e ∷ es) m =
    let s = on_connection_event fd routes [] (event e) m in
    continues s (arrive fd routes es s.buffers)

unfoldable pub all_pieces : List (List Bytes) → Bytes
all_pieces [] = []
all_pieces (e ∷ es) = joined e ++ all_pieces es

on_connection_event-more :
    (fd : ℕ) (routes : Routes) (ws : List Written) (c : Bytes) (reads : List ReadAnswer)
    (m : Buffers)
    → parse_request (in_buffer fd m ++ c) ≡ returns none
    → on_connection_event fd routes ws (got c ∷ reads) m
      ≡ on_connection_event fd routes ws reads (set_buffer fd (in_buffer fd m ++ c) m)
unfolding on_connection_event
on_connection_event-more fd routes ws c reads m e =
    let p : parse_request (in_buffer fd (set_buffer fd (in_buffer fd m ++ c) m)) ≡ returns none =
      ap parse_request (in_buffer-set_buffer fd (in_buffer fd m ++ c) m) ∙ e in
    rw (on_connection_event, p) refl

on_connection_event-whole :
    (fd : ℕ) (routes : Routes) (ws : List Written) (c : Bytes) (reads : List ReadAnswer)
    (m : Buffers) (req : Request)
    → parse_request (in_buffer fd m ++ c) ≡ returns (some req)
    → on_connection_event fd routes ws (got c ∷ reads) m
      ≡ respond fd req routes ws (set_buffer fd (in_buffer fd m ++ c) m)
unfolding on_connection_event
on_connection_event-whole fd routes ws c reads m req e =
    let p : parse_request (in_buffer fd (set_buffer fd (in_buffer fd m ++ c) m))
        ≡ returns (some req) =
      ap parse_request (in_buffer-set_buffer fd (in_buffer fd m ++ c) m) ∙ e in
    rw (on_connection_event, p) refl

respond-done :
    (fd : ℕ) (req : Request) (routes : Routes) (ws : List Written) (m : Buffers) (ok : Bool)
    → (write_loop (serialize_response (dispatch req routes)) 0 ws).1 ≡ some ok
    → respond fd req routes ws m ≡ record {
      buffers = erase_buffer fd m;
      sent = (write_loop (serialize_response (dispatch req routes)) 0 ws).0;
      progress = closed;
    }
unfolding respond close_connection
respond-done fd req routes ws m ok e = ground (arith, e, erase_buffer-set_buffer fd [] m)

-- A text of which no proper prefix is a request, and which is one.
module _ (text : Bytes) (req : Request)
    (early : (k : ℕ) → k < length text → parse_request (take k text) ≡ returns none)
    (whole : parse_request text ≡ returns (some req)) where
  short : (b rest : Bytes) → b ++ rest ≡ text → 0 < length rest → parse_request b ≡ returns none
  short b rest e h =
      ap parse_request (sym (ap (take (length b)) (sym e) ∙ take-length b rest))
      ∙ early (length b) (omega (arith, ap (length {A = ℕ}) e, length-append b rest))

  -- An event that leaves something to come only adds its pieces to the buffer.
  event-kept :
      (fd : ℕ) (routes : Routes) (ws : List Written) (cs : List Bytes) (m : Buffers) (rest : Bytes)
      → in_buffer fd m ++ (joined cs ++ rest) ≡ text
      → 0 < length rest
      → (m' : Buffers) × (on_connection_event fd routes ws (event cs) m
          ≡ record { buffers = m'; sent = []; progress = kept_open })
        × (in_buffer fd m' ≡ in_buffer fd m ++ joined cs)
        × (erase_buffer fd m' ≡ erase_buffer fd m)
  event-kept fd routes ws [] m rest e h =
      (m, unfold on_connection_event in refl, sym (append-nil (in_buffer fd m)), refl)
  event-kept fd routes ws (d ∷ ds) m rest e h =
      let b : Bytes = in_buffer fd m in
      let whole_text : (b ++ d) ++ (joined ds ++ rest) ≡ text =
        append_assoc b d (joined ds ++ rest)
        ∙ (ap (λ t. b ++ t) (sym (append_assoc d (joined ds) rest)) ∙ e) in
      let none_yet : parse_request (b ++ d) ≡ returns none =
        short (b ++ d) (joined ds ++ rest) whole_text
          (omega (arith, length-append (joined ds) rest)) in
      let m1 : Buffers = set_buffer fd (b ++ d) m in
      let filled : in_buffer fd m1 ≡ b ++ d = in_buffer-set_buffer fd (b ++ d) m in
      let (m', run, holds, same) =
        event-kept fd routes ws ds m1 rest (ap (λ t. t ++ (joined ds ++ rest)) filled ∙ whole_text)
          h in
      (
        m',
        on_connection_event-more fd routes ws d (event ds) m none_yet ∙ run,
        holds ∙ (ap (λ t. t ++ joined ds) filled ∙ append_assoc b d (joined ds)),
        same ∙ erase_buffer-set_buffer fd (b ++ d) m,
      )

  last_event-answers :
      (fd : ℕ) (routes : Routes) (ws : List Written) (cs : List Bytes) (c : Bytes) (m : Buffers)
      (ok : Bool)
      → in_buffer fd m ++ (joined cs ++ c) ≡ text
      → 0 < length c
      → (write_loop (serialize_response (dispatch req routes)) 0 ws).1 ≡ some ok
      → on_connection_event fd routes ws (last_event cs c) m ≡ record {
        buffers = erase_buffer fd m;
        sent = (write_loop (serialize_response (dispatch req routes)) 0 ws).0;
        progress = closed;
      }
  last_event-answers fd routes ws [] c m ok e h w =
      on_connection_event-whole fd routes ws c [] m req (ap parse_request e ∙ whole)
      ∙ (respond-done fd req routes ws (set_buffer fd (in_buffer fd m ++ c) m) ok w
          ∙ ap
              (λ bs. record {
                buffers = bs;
                sent = (write_loop (serialize_response (dispatch req routes)) 0 ws).0;
                progress = closed;
              })
              (erase_buffer-set_buffer fd (in_buffer fd m ++ c) m))
  last_event-answers fd routes ws (d ∷ ds) c m ok e h w =
      let b : Bytes = in_buffer fd m in
      let whole_text : (b ++ d) ++ (joined ds ++ c) ≡ text =
        append_assoc b d (joined ds ++ c)
        ∙ (ap (λ t. b ++ t) (sym (append_assoc d (joined ds) c)) ∙ e) in
      let none_yet : parse_request (b ++ d) ≡ returns none =
        short (b ++ d) (joined ds ++ c) whole_text (omega (arith, length-append (joined ds) c)) in
      let filled : in_buffer fd (set_buffer fd (b ++ d) m) ≡ b ++ d =
        in_buffer-set_buffer fd (b ++ d) m in
      on_connection_event-more fd routes ws d (last_event ds c) m none_yet
      ∙ (last_event-answers fd routes ws ds c (set_buffer fd (b ++ d) m) ok
            (ap (λ t. t ++ (joined ds ++ c)) filled ∙ whole_text) h w
          ∙ ap
              (λ bs. record {
                buffers = bs;
                sent = (write_loop (serialize_response (dispatch req routes)) 0 ws).0;
                progress = closed;
              })
              (erase_buffer-set_buffer fd (b ++ d) m))

  arrive-kept :
      (fd : ℕ) (routes : Routes) (es : List (List Bytes)) (m : Buffers) (rest : Bytes)
      → in_buffer fd m ++ (all_pieces es ++ rest) ≡ text
      → 0 < length rest
      → (m' : Buffers) × (arrive fd routes es m
          ≡ record { buffers = m'; sent = []; progress = kept_open })
        × (in_buffer fd m' ++ rest ≡ text)
        × (erase_buffer fd m' ≡ erase_buffer fd m)
  unfolding arrive all_pieces
  arrive-kept fd routes [] m rest e h = (m, refl, e, refl)
  arrive-kept fd routes (d ∷ ds) m rest e h =
      let b : Bytes = in_buffer fd m in
      let (m1, run, holds, same) =
        event-kept fd routes [] d m (all_pieces ds ++ rest)
          (ap (λ t. b ++ t) (sym (append_assoc (joined d) (all_pieces ds) rest)) ∙ e)
          (omega (arith, length-append (all_pieces ds) rest)) in
      let (m', more, full, same') =
        arrive-kept fd routes ds m1 rest
          (ap (λ t. t ++ (all_pieces ds ++ rest)) holds
            ∙ (append_assoc b (joined d) (all_pieces ds ++ rest)
                ∙ (ap (λ t. b ++ t) (sym (append_assoc (joined d) (all_pieces ds) rest)) ∙ e)))
          h in
      (m', ap (λ s. continues s (arrive fd routes ds s.buffers)) run ∙ more, full, same' ∙ same)

-- However the bytes of a request are cut into reads and events, the server keeps the connection open
-- and sends nothing until the last piece, and then the loop that writes sends the response of the
-- route, after which the connection and its buffer are gone; the request's Content-Length headers say
-- the length of its body (there is one, or the body is empty), and the writes of the response finish.
pub pieces-served :
    (method path version : Bytes) (hs : Headers) (body : Bytes) (fd : ℕ) (routes : Routes)
    (ws : List Written) (es : List (List Bytes)) (cs : List Bytes) (c : Bytes) (m : Buffers)
    (ok : Bool)
    → GoodLine method path version
    → WellFormed hs
    → length (request_text method path version hs body) < 2 ^ 62
    → Announces (length body) hs
    → (body ≡ []) ⊎ (has_length hs ≡ true)
    → in_buffer fd m ≡ []
    → all_pieces es ++ (joined cs ++ c) ≡ request_text method path version hs body
    → 0 < length c
    → (write_loop
        (serialize_response (
          dispatch
            (record { method = method; path = path; headers = put_all hs []; body = body })
            routes))
        0
        ws).1
      ≡ some ok
    → ((arrive fd routes es m).sent ≡ [])
      × ((arrive fd routes es m).progress ≡ kept_open)
      × (on_connection_event fd routes ws (last_event cs c) (arrive fd routes es m).buffers
          ≡ record {
            buffers = erase_buffer fd m;
            sent =
                (write_loop
                  (serialize_response (
                    dispatch
                      (record {
                        method = method;
                        path = path;
                        headers = put_all hs [];
                        body = body;
                      })
                      routes))
                  0
                  ws).0;
            progress = closed;
          })
pieces-served method path version hs body fd routes ws es cs c m ok g w size a l fresh all h done =
    let req : Request = record {
      method = method;
      path = path;
      headers = put_all hs [];
      body = body;
    } in
    let text : Bytes = request_text method path version hs body in
    let early : (k : ℕ) → k < length text → parse_request (take k text) ≡ returns none =
      λ k. parse_request-prefix method path version hs body k g w size a l in
    let whole : parse_request text ≡ returns (some req) =
      parse_request-whole method path version hs body g w size a in
    let (m', run, full, same) =
      arrive-kept text req early whole fd routes es m (joined cs ++ c)
        (ap (λ t. t ++ (all_pieces es ++ (joined cs ++ c))) fresh ∙ all)
        (omega (arith, length-append (joined cs) c)) in
    (
      ap (λ s. s.sent) run,
      ap (λ s. s.progress) run,
      ap (λ s. on_connection_event fd routes ws (last_event cs c) s.buffers) run
          ∙ (last_event-answers text req early whole fd routes ws cs c m' ok full h done
              ∙ ap
                  (λ bs. record {
                    buffers = bs;
                    sent = (write_loop (serialize_response (dispatch req routes)) 0 ws).0;
                    progress = closed;
                  })
                  same),
    )
