-- ===== src/Sim/RestServer/Parse/Terminates.antt =====
-- sim/http/rest_server.cpp: the `while (true)` of `parse_request` comes to an end on every buffer.
use kalshi_cpp.Prelude.{
  ℕ, zero, suc, ◌+◌, ◌*◌, ◌^◌, ◌≤◌, ◌<◌, ◌≡◌, ◌≢◌, ◌⊎◌, inl, inr, refl, sym, ap, ◌∙◌, subst, true,
  false, none, some, Option, [], ◌∷◌, arith, length, drop, drop-drop, length-drop, ◌==◌, if-elim,
  Bytes, sub_size, Bool-cases, bytes_eq,
}
use kalshi_cpp.Prelude.Strings.{starts_with, npos, add_size, find, or_npos, substr, put}
use kalshi_cpp.Prelude.Strings.Search.{find-occurs, find-finds, starts_with-length}
use kalshi_cpp.Prelude.Strings.Segments.{add_size-small}
use kalshi_cpp.Prelude.Decimals.{stoi}
use kalshi_cpp.Prelude.Runs.{
  value, ◌>>=◌, or_throw, or_return, Ends, Ends-bind, Ends-bind_eq, Ends-or_throw, Ends-or_return,
  or_return-value,
}
use kalshi_cpp.Sim.RestServer.{Request}
use kalshi_cpp.Sim.RestServer.Parse.{
  Headers, Parsing, crlf, headers_end, space, colon, content_length, to_size, check_length,
  header_loop, parse_request,
}

-- A line end one byte before the end of the headers would need a byte to be 10 and 13.
overlap : (u : Bytes) → starts_with crlf u ≡ true → starts_with headers_end (drop 1 u) ≡ true → ⊥
overlap [] h k = cc
overlap (a ∷ []) h k = cc
overlap (a ∷ b ∷ u) h k = ground arith

end_has_crlf : (u : Bytes) → starts_with headers_end u ≡ true → starts_with crlf u ≡ true
end_has_crlf [] h = cc
end_has_crlf (a ∷ []) h = ground arith
end_has_crlf (a ∷ b ∷ u) h = ground arith

end_has_crlf_2 : (u : Bytes) → starts_with headers_end u ≡ true → starts_with crlf (drop 2 u) ≡ true
end_has_crlf_2 [] h = cc
end_has_crlf_2 (a ∷ []) h = ground arith
end_has_crlf_2 (a ∷ b ∷ u) h = ground arith

Ends-check_length : (name content : Bytes) (rest : ℕ) → Ends (check_length name content rest)
unfolding check_length
Ends-check_length name content rest =
    if-elim Ends (bytes_eq name content_length) _ _
      (λ _.
        Ends-bind (or_throw (stoi content)) _ (Ends-or_throw (Option Request) (stoi content))
          λ n. if-elim Ends (to_size n == rest) _ _ (λ _. tt) (λ _. tt))
      (λ _. tt)

header_loop-stops :
    (fuel : ℕ) (buffer : Bytes) (ptr line : ℕ) (acc : Headers)
    → find buffer crlf line ≡ some line
    → header_loop (suc fuel) buffer ptr line acc ≡ value acc
unfolding header_loop
header_loop-stops fuel buffer ptr line acc e =
    let here : (line == line) ≡ true = ground arith in rw (header_loop, e, here) refl

abbrev round : ℕ → Bytes → ℕ → ℕ → ℕ → Headers → Parsing Headers
round fuel buffer ptr line nxt headers = do
  _ ← or_throw (substr buffer line (sub_size nxt line))
  let header_name = or_npos (find buffer colon line)
  name ← or_throw (substr buffer line (sub_size header_name line))
  let header_content = add_size header_name 2
  content ← or_throw (substr buffer header_content (sub_size nxt header_content))
  _ ← check_length name content (sub_size (length buffer) ptr)
  header_loop fuel buffer ptr (add_size nxt 2) (put name content headers)

header_loop-goes_on :
    (fuel : ℕ) (buffer : Bytes) (ptr line : ℕ) (acc : Headers)
    → (or_npos (find buffer crlf line) == line) ≡ false
    → header_loop (suc fuel) buffer ptr line acc
      ≡ round fuel buffer ptr line (or_npos (find buffer crlf line)) acc
unfolding header_loop
header_loop-goes_on fuel buffer ptr line acc ne = rw (header_loop, ne) refl

Ends-round :
    (fuel : ℕ) (buffer : Bytes) (ptr line nxt : ℕ) (acc : Headers)
    → ((acc' : Headers) → Ends (header_loop fuel buffer ptr (add_size nxt 2) acc'))
    → Ends (round fuel buffer ptr line nxt acc)
Ends-round fuel buffer ptr line nxt acc h =
    Ends-bind (or_throw (substr buffer line (sub_size nxt line))) _
      (Ends-or_throw (Option Request) _)
      λ _.
        Ends-bind (or_throw (substr buffer line (sub_size (or_npos (find buffer colon line)) line)))
          _ (Ends-or_throw (Option Request) _)
          λ name.
            Ends-bind
              (or_throw (
                substr buffer (add_size (or_npos (find buffer colon line)) 2)
                  (sub_size nxt (add_size (or_npos (find buffer colon line)) 2))))
              _ (Ends-or_throw (Option Request) _)
              λ content.
                Ends-bind (check_length name content (sub_size (length buffer) ptr)) _
                  (Ends-check_length name content _) λ _. h (put name content acc)

next_line :
    (j end next : ℕ) → next ≡ j + 2 → j ≤ end → suc j ≢ end → (next ≤ end) ⊎ (next ≡ end + 2)
next_line j end next e le ne = elim (Bool-cases (j == end)) [
  | inl same ↦ inr (ground arith)
  | inr apart ↦ inl (ground arith)
]

-- Whatever line the loop is at, up to the last, it comes to the end of the headers.
Ends-header_loop :
    (fuel : ℕ) (buffer : Bytes) (ptr line end : ℕ) (acc : Headers)
    → length buffer < 2 ^ 62
    → starts_with headers_end (drop end buffer) ≡ true
    → end + 2 < length buffer
    → (line ≤ end) ⊎ (line ≡ end + 2)
    → end + 2 < line + 2 * fuel
    → Ends (header_loop fuel buffer ptr line acc)
Ends-header_loop zero buffer ptr line end acc size here inside (inl le) f = absurd (omega arith)
Ends-header_loop zero buffer ptr line end acc size here inside (inr e) f = absurd (omega arith)
Ends-header_loop (suc fuel) buffer ptr line end acc size here inside (inr e) f =
    let at : starts_with crlf (drop line buffer) ≡ true =
      ap (λ u. starts_with crlf u) (ap (λ n. drop n buffer) e ∙ sym (drop-drop end 2 buffer))
      ∙ end_has_crlf_2 (drop end buffer) here in
    let (j, found, ge, le) = find-finds buffer crlf line line (omega arith) (omega arith) at in
    subst Ends (sym (header_loop-stops fuel buffer ptr line acc (found ∙ ap some (omega arith)))) tt
Ends-header_loop (suc fuel) buffer ptr line end acc size here inside (inl le) f =
    let (j, found, ge, le') =
      find-finds buffer crlf line end le (omega arith) (end_has_crlf (drop end buffer) here) in
    elim (Bool-cases (j == line)) [
      | inl e ↦
          subst Ends
            (sym (header_loop-stops fuel buffer ptr line acc (found ∙ ap some (ground arith)))) tt
      | inr ne ↦
          let apart : suc j ≢ end = λ e.
            overlap (drop j buffer) (find-occurs buffer crlf line j found).1 (
              ap (starts_with headers_end)
                (drop-drop j 1 buffer ∙ ap (λ n. drop n buffer) {x = j + 1} {y = end} (omega arith))
              ∙ here) in
          let same : or_npos (find buffer crlf line) ≡ j = ap or_npos found in
          let moved : (or_npos (find buffer crlf line) == line) ≡ false =
            ap (λ n. n == line) same ∙ ne in
          let next : add_size j 2 ≡ j + 2 = add_size-small j 2 (omega arith) in
          subst Ends
            (sym (
              header_loop-goes_on fuel buffer ptr line acc moved
              ∙ ap (λ n. round fuel buffer ptr line n acc) same))
            (Ends-round fuel buffer ptr line j acc λ acc'.
              Ends-header_loop fuel buffer ptr (add_size j 2) end acc' size here inside
                (next_line j end (add_size j 2) next le' apart) (omega arith))
    ]

-- The parser comes to an end on every buffer: the loop over the headers never runs on.
pub parse_request-Ends : (buffer : Bytes) → length buffer < 2 ^ 62 → Ends (parse_request buffer)
unfolding parse_request
parse_request-Ends buffer size =
    Ends-bind_eq (or_return none (find buffer headers_end 0)) _ (Ends-or_return none _) λ end found.
      let here : starts_with headers_end (drop end buffer) ≡ true =
        (find-occurs buffer headers_end 0 end (or_return-value none _ end found)).1 in
      let inside : end + 2 < length buffer =
        omega
          (arith, starts_with-length headers_end (drop end buffer) here, length-drop end buffer) in
      let (j, first, ge, le) =
        find-finds buffer crlf 0 end (omega arith) (omega arith)
          (end_has_crlf (drop end buffer) here) in
      let apart : suc j ≢ end = λ e. overlap (drop j buffer) (find-occurs buffer crlf 0 j first).1 (
        ap (starts_with headers_end)
          (drop-drop j 1 buffer ∙ ap (λ n. drop n buffer) {x = j + 1} {y = end} (omega arith))
        ∙ here) in
      let line : add_size (or_npos (find buffer crlf 0)) 2 ≡ j + 2 =
        ap (λ n. add_size n 2) (ap or_npos first) ∙ add_size-small j 2 (omega arith) in
      Ends-bind (or_throw (substr buffer 0 (or_npos (find buffer space 0)))) _
        (Ends-or_throw (Option Request) _)
        λ method.
          Ends-bind (or_throw (substr buffer _ _)) _ (Ends-or_throw (Option Request) _) λ path.
            Ends-bind
              (header_loop (length buffer) buffer (add_size end 4)
                (add_size (or_npos (find buffer crlf 0)) 2) [])
              _
              (Ends-header_loop (length buffer) buffer (add_size end 4)
                (add_size (or_npos (find buffer crlf 0)) 2) end [] size here inside
                (next_line j end _ line le apart) (omega (arith, line)))
              λ headers.
                Ends-bind (or_throw (substr buffer (add_size end 4) npos)) _
                  (Ends-or_throw (Option Request) _) λ body. tt
