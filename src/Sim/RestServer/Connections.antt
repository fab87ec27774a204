-- ===== src/Sim/RestServer/Connections.antt =====
-- sim/http/rest_server.cpp: `on_connection_event_` and `close_connection_`, on the answers of read and
-- write as lists. The reactor and close are told the file descriptor, which the result records.
pub mod Pieces
use kalshi_cpp.Prelude.{
  ℕ, Bool, true, false, Option, none, some, List, [], ◌∷◌, ◌++◌, ◌==◌, if◌then◌else◌, Bytes,
}
use kalshi_cpp.Prelude.Runs.{Run, value, returns, throws, undefined, running}
use kalshi_cpp.Sim.RestServer.{Request, Response, Routes, dispatch, Written, write_loop}
use kalshi_cpp.Sim.RestServer.Parse.{parse_request}
use kalshi_cpp.Sim.RestServer.Answer.{serialize_response}

-- `connections_`: the bytes that have come in on each file descriptor.
abbrev pub Buffers : Type 0
Buffers = List (ℕ × Bytes)

-- `connections_[fd].in_buffer`, where a new connection has an empty buffer
unfoldable pub in_buffer : ℕ → Buffers → Bytes
in_buffer fd [] = []
in_buffer fd (c ∷ cs) = if fd == c.0 then c.1 else in_buffer fd cs

unfoldable pub set_buffer : ℕ → Bytes → Buffers → Buffers
set_buffer fd bytes [] = (fd, bytes) ∷ []
set_buffer fd bytes (c ∷ cs) = if fd == c.0 then (fd, bytes) ∷ cs else c ∷ set_buffer fd bytes cs

-- `connections_.erase(fd)`
unfoldable pub erase_buffer : ℕ → Buffers → Buffers
erase_buffer fd [] = []
erase_buffer fd (c ∷ cs) = if fd == c.0 then cs else c ∷ erase_buffer fd cs

-- What a call of read answers: bytes, the end of the stream, EAGAIN, or another error.
pub data ReadAnswer : Type 0 where
  got : Bytes → ReadAnswer
  end_of_stream : ReadAnswer
  again : ReadAnswer
  read_failed : ReadAnswer

-- How the handler stands when its answers are used up or it has returned.
pub data Progress : Type 0 where
  still_reading still_writing kept_open closed threw : Progress

-- The map, the bytes that the socket has taken, and the progress.
pub record Served : Type 0 where
  pub buffers : Buffers
  pub sent : Bytes
  pub progress : Progress

-- `close_connection_`
unfoldable pub close_connection : ℕ → Buffers → Bytes → Served
close_connection fd buffers sent = record {
  buffers = erase_buffer fd buffers;
  sent = sent;
  progress = closed;
}

-- The response is written, the buffer cleared and the connection closed, whether or not write failed.
unfoldable pub respond : ℕ → Request → Routes → List Written → Buffers → Served
respond fd request routes writes buffers =
    let (sent, done) = write_loop (serialize_response (dispatch request routes)) 0 writes in
    elim done [
      | none ↦ record { buffers = buffers; sent = sent; progress = still_writing }
      | some _ ↦ close_connection fd (set_buffer fd [] buffers) sent
    ]

-- The loop of `on_connection_event_`.
unfoldable pub on_connection_event : ℕ → Routes → List Written → List ReadAnswer → Buffers → Served
on_connection_event fd routes writes [] buffers = record {
  buffers = buffers;
  sent = [];
  progress = still_reading;
}
on_connection_event fd routes writes (again ∷ reads) buffers = record {
  buffers = buffers;
  sent = [];
  progress = kept_open;
}
on_connection_event fd routes writes (end_of_stream ∷ reads) buffers =
    close_connection fd buffers []
on_connection_event fd routes writes (read_failed ∷ reads) buffers = close_connection fd buffers []
on_connection_event fd routes writes (got bytes ∷ reads) buffers =
    let filled = set_buffer fd (in_buffer fd buffers ++ bytes) buffers in
    elim (parse_request (in_buffer fd filled)) [
      | returns (some request) ↦ respond fd request routes writes filled
      | returns none ↦ on_connection_event fd routes writes reads filled
      | value _ ↦ record { buffers = filled; sent = []; progress = threw }
      | throws ↦ record { buffers = filled; sent = []; progress = threw }
      | undefined ↦ record { buffers = filled; sent = []; progress = threw }
      | running ↦ record { buffers = filled; sent = []; progress = still_reading }
    ]
