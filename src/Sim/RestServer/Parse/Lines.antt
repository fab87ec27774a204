-- ===== src/Sim/RestServer/Parse/Lines.antt =====
-- sim/http/rest_server.cpp: the header loop of `parse_request` on well-formed lines.
use kalshi_cpp.Prelude.{
  ℕ, zero, suc, ◌+◌, ◌^◌, ◌≤◌, ◌<◌, ◌≡◌, refl, sym, ap, ◌∙◌, true, false, some, [], ◌∷◌, ◌++◌,
  append_assoc, arith, length, length-append, ◌==◌, Bytes, sub_size,
}
use kalshi_cpp.Prelude.Strings.{add_size, find, substr, put}
use kalshi_cpp.Prelude.Strings.Segments.{
  Lacks, Lacks-append, At, At-next, At-length, substr-At, find-At, sub_size-add, add_size-small,
}
use kalshi_cpp.Prelude.Runs.{value, ◌>>=◌}
use kalshi_cpp.Sim.RestServer.Parse.{Headers, Parsing, crlf, colon, check_length, header_loop}

abbrev pub block : Headers → Bytes
block [] = []
block (h ∷ hs) = h.0 ++ (colon ++ (h.1 ++ (crlf ++ block hs)))

-- A name has no colon, and neither a name nor a content has a carriage return.
abbrev pub WellFormed : Headers → Type 0
WellFormed [] = Unit {0}
WellFormed (h ∷ hs) = (Lacks 13 h.0 × Lacks 58 h.0 × Lacks 13 h.1) × WellFormed hs

-- The headers in order, each put into the map, and checked against the bytes that follow them.
unfoldable pub read_headers : ℕ → Headers → Headers → Parsing Headers
read_headers rest [] acc = value acc
read_headers rest (h ∷ hs) acc =
    check_length h.0 h.1 rest >>= λ _. read_headers rest hs (put h.0 h.1 acc)

-- One round of the loop, from what each of its calls answers.
header_loop-round :
    (fuel : ℕ) (buffer : Bytes) (ptr line nxt name_end from next : ℕ) (acc : Headers)
    (whole name content : Bytes)
    → find buffer crlf line ≡ some nxt
    → (nxt == line) ≡ false
    → substr buffer line (sub_size nxt line) ≡ some whole
    → find buffer colon line ≡ some name_end
    → substr buffer line (sub_size name_end line) ≡ some name
    → add_size name_end 2 ≡ from
    → substr buffer from (sub_size nxt from) ≡ some content
    → add_size nxt 2 ≡ next
    → header_loop (suc fuel) buffer ptr line acc ≡ (
        check_length name content (sub_size (length buffer) ptr) >>= λ _.
        header_loop fuel buffer ptr next (put name content acc))
unfolding header_loop
header_loop-round fuel buffer ptr line nxt name_end from next acc whole name content e1 e2 e3 e4 e5
      e6 e7 e8 =
    ground (arith, e1, e2, e3, e4, e5, e6, e7, e8)

header_loop-line :
    (fuel : ℕ) (buffer : Bytes) (ptr line : ℕ) (acc : Headers) (name content t : Bytes)
    → length buffer < 2 ^ 62
    → At buffer line (name ++ (colon ++ (content ++ (crlf ++ t))))
    → Lacks 13 name
    → Lacks 58 name
    → Lacks 13 content
    → header_loop (suc fuel) buffer ptr line acc ≡ (
        check_length name content (sub_size (length buffer) ptr) >>= λ _.
        header_loop fuel buffer ptr
          (line + length name + 2 + length content + 2)
          (put name content acc))
unfolding header_loop
header_loop-line fuel buffer ptr line acc name content t size at l1 l2 l3 =
    let len = At-length buffer line _ at in
    let total : line + (length name + (2 + (length content + 2))) ≤ length buffer = omega (
      arith,
      len,
      length-append name (colon ++ (content ++ (crlf ++ t))),
      length-append content (crlf ++ t),
    ) in
    let whole : Bytes = name ++ (colon ++ content) in
    let whole_len : length whole ≡ length name + (2 + length content) =
      omega (arith, length-append name (colon ++ content)) in
    let at' : At buffer line (whole ++ (crlf ++ t)) =
      (at.0, at.1 ∙ sym (append_assoc name (colon ++ content) (crlf ++ t))) in
    let nxt : find buffer crlf line ≡ some (line + length whole) =
      find-At buffer line 13 (10 ∷ []) whole t
        (Lacks-append 13 name (colon ++ content) l1 ((omega arith, (omega arith, l3)))) at' in
    let at_colon : find buffer colon line ≡ some (line + length name) =
      find-At buffer line 58 (32 ∷ []) name (content ++ (crlf ++ t)) l2 at in
    let moved : (line + length whole == line) ≡ false = ground arith in
    let at_content : At buffer (line + length name + 2) (content ++ (crlf ++ t)) =
      At-next buffer (line + length name) colon _ (At-next buffer line name _ at) in
    let d1 : sub_size (line + length whole) line ≡ length whole =
      sub_size-add line (length whole) (omega arith) in
    let d2 : sub_size (line + length name) line ≡ length name =
      sub_size-add line (length name) (omega arith) in
    let d3 : sub_size (line + length whole) (line + length name + 2) ≡ length content =
      omega arith in
    header_loop-round fuel buffer ptr line (line + length whole) (line + length name)
      (line + length name + 2) (line + length name + 2 + length content + 2) acc whole name content
      nxt moved (ap (substr buffer line) d1 ∙ substr-At buffer line whole (crlf ++ t) at') at_colon
      (ap (substr buffer line) d2
        ∙ substr-At buffer line name (colon ++ (content ++ (crlf ++ t))) at)
      (add_size-small (line + length name) 2 (omega arith))
      (ap (substr buffer (line + length name + 2)) d3
        ∙ substr-At buffer (line + length name + 2) content (crlf ++ t) at_content)
      (omega arith)

header_loop-stop :
    (fuel : ℕ) (buffer : Bytes) (ptr line : ℕ) (acc : Headers) (t : Bytes)
    → At buffer line (crlf ++ t)
    → header_loop (suc fuel) buffer ptr line acc ≡ value acc
unfolding header_loop
header_loop-stop fuel buffer ptr line acc t at =
    let nxt : find buffer crlf line ≡ some (line + 0) =
      find-At buffer line 13 (10 ∷ []) [] t tt at in
    let here : (line + 0 == line) ≡ true = ground arith in rw (header_loop, nxt, here) refl

-- With a round of fuel for each line and one more, the loop on well-formed lines reads the headers.
pub header_loop-block :
    (hs : Headers) (fuel : ℕ) (buffer : Bytes) (ptr line : ℕ) (acc : Headers) (t : Bytes)
    → length hs < fuel
    → length buffer < 2 ^ 62
    → At buffer line (block hs ++ (crlf ++ t))
    → WellFormed hs
    → header_loop fuel buffer ptr line acc ≡ read_headers (sub_size (length buffer) ptr) hs acc
unfolding read_headers
header_loop-block hs zero buffer ptr line acc t f size at w = absurd (omega arith)
header_loop-block [] (suc fuel) buffer ptr line acc t f size at w =
    header_loop-stop fuel buffer ptr line acc t at
header_loop-block (h ∷ hs) (suc fuel) buffer ptr line acc t f size at ((l1, l2, l3), w) =
    let at' : At buffer line (h.0 ++ (colon ++ (h.1 ++ (crlf ++ (block hs ++ (crlf ++ t)))))) =
      (at.0, at.1 ∙ simp append_assoc) in
    let next : At buffer (line + length h.0 + 2 + length h.1 + 2) (block hs ++ (crlf ++ t)) =
      At-next buffer _ crlf _
        (At-next buffer _ h.1 _ (At-next buffer _ colon _ (At-next buffer line h.0 _ at'))) in
    header_loop-line fuel buffer ptr line acc h.0 h.1 _ size at' l1 l2 l3
    ∙ ap (λ k. check_length h.0 h.1 (sub_size (length buffer) ptr) >>= λ _. k)
        (header_loop-block hs fuel buffer ptr _ (put h.0 h.1 acc) t (omega arith) size next w)
