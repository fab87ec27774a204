-- ===== src/Sim/RestServer/Parse.antt =====
-- sim/http/rest_server.cpp: `parse_request`, with the positions of the source as size_t.
pub mod Lines
pub mod Terminates
pub mod Accepts
pub mod Prefixes
use kalshi_cpp.Prelude.{
  ℕ, zero, suc, ◌+◌, ◌-◌, ◌%◌, ◌^◌, Bool, true, false, Option, none, some, List, [], ◌∷◌, ◌++◌,
  length, ◌==◌, if◌then◌else◌, Bytes, codes, bytes_eq, ℤ, pos, negsuc, size_mod, sub_size,
}
use kalshi_cpp.Prelude.Strings.{npos, add_size, find, or_npos, substr, put}
use kalshi_cpp.Prelude.Decimals.{stoi}
use kalshi_cpp.Prelude.Runs.{Run, value, returns, throws, running, ◌>>=◌, ◌>>◌, or_throw, or_return}
use kalshi_cpp.Sim.RestServer.{Request}

abbrev pub Headers : Type 0
Headers = List (Bytes × Bytes)

-- The function returns std::optional<Request>.
abbrev pub Parsing : Type 0 → Type 0
Parsing A = Run (Option Request) A

abbrev pub crlf : Bytes
crlf = 13 ∷ 10 ∷ []

abbrev pub headers_end : Bytes
headers_end = 13 ∷ 10 ∷ 13 ∷ 10 ∷ []

abbrev pub space : Bytes
space = 32 ∷ []

abbrev pub colon : Bytes
colon = 58 ∷ 32 ∷ []

abbrev pub content_length : Bytes
content_length = codes "Content-Length"

-- An int converted to size_t.
abbrev pub to_size : ℤ → ℕ
to_size (pos n) = n
to_size (negsuc n) = size_mod - suc n

-- `if (name == "Content-Length") { … }`: std::stoi, and the comparison with what follows the headers.
unfoldable pub check_length : Bytes → Bytes → ℕ → Parsing (Unit {0})
check_length name content rest =
    if bytes_eq name content_length
    then (or_throw (stoi content) >>= λ n. if to_size n == rest then value tt else returns none)
    else value tt

-- The loop over the header lines from position `line`.
unfoldable pub header_loop : ℕ → Bytes → ℕ → ℕ → Headers → Parsing Headers
header_loop zero buffer ptr line headers = running
header_loop (suc fuel) buffer ptr line headers =
    let nxt = or_npos (find buffer crlf line) in
    elim (nxt == line) [
      | true ↦ value headers
      | false ↦ do
        _ ← or_throw (substr buffer line (sub_size nxt line))
        let header_name = or_npos (find buffer colon line)
        name ← or_throw (substr buffer line (sub_size header_name line))
        let header_content = add_size header_name 2
        content ← or_throw (substr buffer header_content (sub_size nxt header_content))
        _ ← check_length name content (sub_size (length buffer) ptr)
        header_loop fuel buffer ptr (add_size nxt 2) (put name content headers)
    ]

-- A header line takes at least its two end bytes, so the length of the buffer is enough fuel.
unfoldable pub parse_request : Bytes → Parsing (Unit {0})
parse_request buffer = do
  end ← or_return none (find buffer headers_end 0)
  let ptr = add_size end 4
  let method_end = or_npos (find buffer space 0)
  method ← or_throw (substr buffer 0 method_end)
  let path_start = add_size method_end 1
  let path_end = or_npos (find buffer space path_start)
  path ← or_throw (substr buffer path_start (sub_size path_end path_start))
  let line = add_size (or_npos (find buffer crlf 0)) 2
  headers ← header_loop (length buffer) buffer ptr line []
  body ← or_throw (substr buffer ptr npos)
  returns (some (record { method = method; path = path; headers = headers; body = body }))
