-- ===== src/Sim/RestServer/Answer.antt =====
-- sim/http/rest_server.cpp: `serialize_response`.
use kalshi_cpp.Prelude.{◌++◌, Bytes, codes, length}
use kalshi_cpp.Prelude.Decimals.{to_string}
use kalshi_cpp.Sim.RestServer.{Response, reason_phrase}
use kalshi_cpp.Sim.RestServer.Parse.{crlf}

abbrev pub status_line : Response → Bytes
status_line resp =
    codes "HTTP/1.1 " ++ (to_string resp.status ++ (codes " " ++ reason_phrase resp.status))

unfoldable pub serialize_response : Response → Bytes
serialize_response resp =
    status_line resp
    ++ (crlf
        ++ (codes "Content-Type: "
            ++ (resp.content_type
                ++ (crlf
                    ++ (codes "Content-Length: "
                        ++ (to_string (length resp.body)
                            ++ (crlf
                                ++ (codes "Connection: close"
                                    ++ (crlf ++ (crlf ++ resp.body))))))))))
