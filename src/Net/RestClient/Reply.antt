-- ===== src/Net/RestClient/Reply.antt =====
-- src/net/rest_client.cpp: `recv_response_` on the text of a response.
use kalshi_cpp.Prelude.{
  ℕ, zero, suc, ◌+◌, ◌-◌, ◌≤◌, ◌<◌, ◌≡◌, sym, ap, ◌∙◌, false, some, List, [], ◌∷◌, ◌++◌,
  append_assoc, append-nil, arith, length, length-append, take, drop, take-length, drop-length,
  drop-drop, ap₂, ◌==◌, Bytes, ℤ,
}
use kalshi_cpp.Prelude.Strings.{find, substr}
use kalshi_cpp.Prelude.Strings.Segments.{
  Lacks, Lacks-append, At, At-start, At-next, At-eq, At-length, substr-At, find-At,
}
use kalshi_cpp.Prelude.Decimals.{stoi}
use kalshi_cpp.Prelude.Runs.{value}
use kalshi_cpp.Sim.RestServer.Parse.Lines.{block, WellFormed}
use kalshi_cpp.Net.RestClient.{crlf, skip_word, read_word, insert_absent, read_lines, read_head}

abbrev pub Headers : Type 0
Headers = List (Bytes × Bytes)

-- `insert` for each header in order
pub insert_all : Headers → Headers → Headers
insert_all [] acc = acc
insert_all (h ∷ hs) acc = insert_all hs (insert_absent h.0 h.1 acc)

skip_word-past :
    (x t : Bytes) (ptr : ℕ) → Lacks 32 x → skip_word (x ++ (32 ∷ t)) ptr ≡ value (ptr + length x)
unfolding skip_word
skip_word-past [] t ptr l = ap value (omega arith)
skip_word-past (c ∷ cs) t ptr (ne, l) =
    let other : (c == 32) ≡ false = ground arith in
    rw (skip_word, other) (skip_word-past cs t (suc ptr) l ∙ ap value (omega arith))

read_word-past :
    (x t word : Bytes) (ptr : ℕ)
    → Lacks 32 x
    → read_word (x ++ (32 ∷ t)) ptr word ≡ value (word ++ x, ptr + length x)
unfolding read_word
read_word-past [] t word ptr l =
    ap (λ w. value (w, ptr)) (sym (append-nil word)) ∙ ap (λ n. value (word ++ [], n)) (omega arith)
read_word-past (c ∷ cs) t word ptr (ne, l) =
    let other : (c == 32) ≡ false = ground arith in
    rw (read_word, other)
      (read_word-past cs t (word ++ (c ∷ [])) (suc ptr) l
        ∙ (ap (λ w. value (w, suc ptr + length cs)) (append_assoc word (c ∷ []) cs)
            ∙ ap (λ n. value (word ++ (c ∷ cs), n)) (omega arith)))

-- One round of the loop over the lines, from what each of its calls answers.
read_lines-round :
    (fuel : ℕ) (header : Bytes) (ptr nxt space : ℕ) (acc : Headers) (line : Bytes)
    → find header crlf ptr ≡ some nxt
    → (nxt == ptr) ≡ false
    → substr header ptr (nxt - ptr) ≡ some line
    → find line (58 ∷ 32 ∷ []) 0 ≡ some space
    → read_lines (suc fuel) header ptr acc
      ≡ read_lines fuel header
          (nxt + 2)
          (insert_absent (take space line) (drop (space + 2) line) acc)
unfolding read_lines
read_lines-round fuel header ptr nxt space acc line e1 e2 e3 e4 = ground (arith, e1, e2, e3, e4)

read_lines-stop :
    (fuel : ℕ) (header : Bytes) (ptr : ℕ) (acc : Headers) (t : Bytes)
    → At header ptr (crlf ++ t)
    → read_lines (suc fuel) header ptr acc ≡ value acc
unfolding read_lines
read_lines-stop fuel header ptr acc t at =
    let nxt : find header crlf ptr ≡ some (ptr + 0) = find-At header ptr 13 (10 ∷ []) [] t tt at in
    ground (arith, nxt)

read_lines-line :
    (fuel : ℕ) (header : Bytes) (ptr : ℕ) (acc : Headers) (name content t : Bytes)
    → At header ptr (name ++ (58 ∷ 32 ∷ (content ++ (crlf ++ t))))
    → Lacks 13 name
    → Lacks 58 name
    → Lacks 13 content
    → read_lines (suc fuel) header ptr acc
      ≡ read_lines fuel header
          (ptr + length (name ++ (58 ∷ 32 ∷ content)) + 2)
          (insert_absent name content acc)
read_lines-line fuel header ptr acc name content t at l1 l2 l3 =
    let line : Bytes = name ++ (58 ∷ 32 ∷ content) in
    let line_len = length-append name (58 ∷ 32 ∷ content) in
    let at' : At header ptr (line ++ (crlf ++ t)) =
      (at.0, at.1 ∙ sym (append_assoc name (58 ∷ 32 ∷ content) (crlf ++ t))) in
    let lacks : Lacks 13 line = Lacks-append 13 name _ l1 (omega arith, (omega arith, l3)) in
    read_lines-round fuel header ptr (ptr + length line) (length name) acc line
      (find-At header ptr 13 (10 ∷ []) line t lacks at') (ground arith)
      (ap (substr header ptr) (omega arith) ∙ substr-At header ptr line (crlf ++ t) at')
      (find-At line 0 58 (32 ∷ []) name content l2 (At-start line) ∙ ap some (omega arith))
    ∙ ap₂ (λ n c. read_lines fuel header (ptr + length line + 2) (insert_absent n c acc))
        (take-length name (58 ∷ 32 ∷ content))
        (sym (drop-drop (length name) 2 line) ∙ ap (drop 2) (drop-length name (58 ∷ 32 ∷ content)))

read_lines-block :
    (hs : Headers) (fuel : ℕ) (header : Bytes) (ptr : ℕ) (acc : Headers) (t : Bytes)
    → length hs < fuel
    → At header ptr (block hs ++ (crlf ++ t))
    → WellFormed hs
    → read_lines fuel header ptr acc ≡ value (insert_all hs acc)
unfolding insert_all
read_lines-block hs zero header ptr acc t f at w = absurd (omega arith)
read_lines-block [] (suc fuel) header ptr acc t f at w = read_lines-stop fuel header ptr acc t at
read_lines-block (h ∷ hs) (suc fuel) header ptr acc t f at ((l1, l2, l3), w) =
    let line : Bytes = h.0 ++ (58 ∷ 32 ∷ h.1) in
    let rest : Bytes = block hs ++ (crlf ++ t) in
    let at1 : At header ptr (h.0 ++ (58 ∷ 32 ∷ (h.1 ++ (crlf ++ rest)))) =
      (at.0, at.1 ∙ simp append_assoc) in
    let at2 : At header ptr (line ++ (crlf ++ rest)) =
      (at1.0, at1.1 ∙ sym (append_assoc h.0 (58 ∷ 32 ∷ h.1) (crlf ++ rest))) in
    let next : At header (ptr + length line + 2) rest =
      At-next header _ crlf _ (At-next header ptr line _ at2) in
    read_lines-line fuel header ptr acc h.0 h.1 rest at1 l1 l2 l3
    ∙ read_lines-block hs fuel header (ptr + length line + 2) (insert_absent h.0 h.1 acc) t
        (omega arith) next w

length-block : (hs : Headers) → length hs ≤ length (block hs)
length-block [] = omega arith
length-block (h ∷ hs) = omega (
  arith,
  length-block hs,
  length-append h.0 (58 ∷ 32 ∷ (h.1 ++ (crlf ++ block hs))),
  length-append h.1 (crlf ++ block hs),
)

read_head-rounds :
    (header status_text : Bytes) (space status_end line_end : ℕ) (status : ℤ) (headers : Headers)
    → skip_word header 0 ≡ value space
    → read_word (drop (space + 1) header) (space + 1) [] ≡ value (status_text, status_end)
    → stoi status_text ≡ some status
    → find header crlf status_end ≡ some line_end
    → read_lines (length header) header (line_end + 2) [] ≡ value headers
    → read_head header ≡ value (status, headers)
unfolding read_head
read_head-rounds header status_text space status_end line_end status headers e1 e2 e3 e4 e5 =
    ground (arith, e1, e2, e3, e4, e5)

abbrev pub head_text : Bytes → Bytes → Bytes → Headers → Bytes
head_text version code reason hs =
    version ++ (32 ∷ (code ++ (32 ∷ (reason ++ (crlf ++ (block hs ++ (crlf ++ [])))))))

-- The head of a response: a version, a status code, a reason and header lines.
pub read_head-text :
    (version code reason : Bytes) (hs : Headers) (n : ℤ)
    → Lacks 32 version
    → Lacks 32 code
    → Lacks 13 reason
    → WellFormed hs
    → stoi code ≡ some n
    → read_head (head_text version code reason hs) ≡ value (n, insert_all hs [])
read_head-text version code reason hs n l1 l2 l3 w e =
    let header : Bytes = head_text version code reason hs in
    let lines : Bytes = block hs ++ (crlf ++ []) in
    let a0 : At header 0 header = At-start header in
    let a1 : At header (length version + 1) (code ++ (32 ∷ (reason ++ (crlf ++ lines)))) =
      At-eq header (0 + length version + 1) _ _ (omega arith)
        (At-next header _ (32 ∷ []) _ (At-next header 0 version _ a0)) in
    let a2 : At header (length version + 1 + length code) ((32 ∷ reason) ++ (crlf ++ lines)) =
      At-next header _ code _ a1 in
    let a3 : At header (length version + 1 + length code + suc (length reason) + 2) lines =
      At-next header _ crlf _ (At-next header _ (32 ∷ reason) _ a2) in
    let total = At-length header _ lines a3 in
    read_head-rounds header code (length version) (length version + 1 + length code)
      (length version + 1 + length code + suc (length reason)) n (insert_all hs [])
      (skip_word-past version _ 0 l1 ∙ ap value (omega arith))
      (ap (λ t. read_word t (length version + 1) []) a1.1
        ∙ read_word-past code _ [] (length version + 1) l2)
      e (find-At header _ 13 (10 ∷ []) (32 ∷ reason) lines (omega arith, l3) a2)
      (read_lines-block hs (length header) header _ [] []
        (omega (arith, total, length-block hs, length-append (block hs) (crlf ++ []))) a3 w)
