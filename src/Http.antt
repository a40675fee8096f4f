-- ===== src/Http.antt =====
-- src/netter/http_conn.cpp, http_parser_wrapper.cpp and http_handler_map.cpp. Texts are the lists of
-- their bytes. `http_parser_execute` is another project's: what it calls, in order, is given.
pub mod Parses
pub mod Handlers
pub mod Reading
pub mod NotFound
mod Tests
use netter.Common.{
  ℕ, ◌+◌, Bool, true, false, ◌&&◌, ◌||◌, List, [], ◌∷◌, ◌++◌, Option, none, some, Result, ok, ◌>>=◌,
  if◌then◌else◌, ◌==◌, length, take, u32, ◌≡◌, refl,
}
use netter.Common.Memory.{memcpy}
use netter.Conn.{BaseConn, send, close}
use netter.Conn.Receive.{recv_data}
use netter.Socket.Address.{octet}
use Prim.Native.String.{String}
use Prim.Native.Char.{code}

-- A call that `http_parser_execute` makes, with the bytes it passes; `on_headers_complete` with the
-- parser's `nread` and `content_length`.
pub data ParserCall : Type 0 where
  on_url on_header_field on_header_value on_body : List ℕ → ParserCall
  on_headers_complete : ℕ → ℕ → ParserCall
  on_message_complete : ParserCall

pub record HttpParserWrapper : Type 0 where
  pub read_all : Bool
  pub total_length : ℕ
  pub url : List ℕ
  pub body_content : List ℕ

-- `OnUrl`, `OnHeaderField`, `OnHeaderValue`, `OnHeadersComplete`, `OnBody` and `OnMessageComplete`.
unfoldable pub on_call : HttpParserWrapper → ParserCall → HttpParserWrapper
on_call w (on_url at) = record w { url = w.url ++ at }
on_call w (on_header_field at) = w
on_call w (on_header_value at) = w
on_call w (on_headers_complete nread content_length) = record w {
  total_length = u32 (nread + u32 content_length);
}
on_call w (on_body at) = record w { body_content = w.body_content ++ at }
on_call w on_message_complete = record w { read_all = true }

unfoldable pub on_calls : HttpParserWrapper → List ParserCall → HttpParserWrapper
unfolding on_call
on_calls w [] = w
on_calls w (call ∷ rest) = on_calls (on_call w call) rest

-- What `ParseHttpContent` does before it calls the parser.
unfoldable pub reset : HttpParserWrapper → HttpParserWrapper
reset w = record w { read_all = false; total_length = 0; url = []; body_content = [] }

-- `ParseHttpContent(buf, len)`, with `execute` as the parser.
unfoldable pub parse_http_content :
    (List ℕ → List ParserCall) → HttpParserWrapper → List ℕ → HttpParserWrapper
unfolding reset on_calls
parse_http_content execute w buf = on_calls (reset w) (execute buf)

unfoldable pub same_text : List ℕ → List ℕ → Bool
same_text [] [] = true
same_text [] (y ∷ ys) = false
same_text (x ∷ xs) [] = false
same_text (x ∷ xs) (y ∷ ys) = (x == y) && same_text xs ys

-- `HttpHandlerMap`: `insert` of a `map` leaves a handler that is there.
module _ {Handler : Type 0} where
  unfoldable pub get_handler : List (List ℕ × Handler) → List ℕ → Option Handler
  unfolding same_text
  get_handler [] url = none
  get_handler ((key, h) ∷ rest) url =
      let later = get_handler rest url in if same_text key url then some h else later

  unfoldable pub add_handler : List (List ℕ × Handler) → List ℕ → Handler → List (List ℕ × Handler)
  unfolding get_handler
  add_handler handlers url h = elim (get_handler handlers url) [
    | none ↦ handlers ++ ((url, h) ∷ [])
    | some old ↦ handlers
  ]

-- The part of the URL before '?'; as a C string the URL ends at a byte that is 0.
unfoldable pub handler_url : List ℕ → List ℕ
handler_url [] = []
handler_url (c ∷ cs) =
    let later = handler_url cs in if (c == 0) || (c == b'?') then [] else c ∷ later

-- The bytes of an ASCII text.
abbrev pub codes : String → List ℕ
codes String.[] = []
codes (String.◌∷◌ c s) = code c ∷ codes s

-- The text of the answer where there is no handler, and the answer; its length is below 1000.
abbrev resp_str : List ℕ
resp_str = codes "{\"code\": 404, \"msg\": \"no such method\"}\n"

unfoldable pub not_found : List ℕ
unfolding octet
not_found =
    codes "HTTP/1.1 200 OK\r\nCache-Control:no-cache\r\nConnection:close\r\nContent-Length:"
    ++ (octet (length resp_str)
        ++ (codes "\r\nContent-Type:text/html;charset=utf-8\r\n\r\n" ++ resp_str))

-- A handler may use the connection in any way.
abbrev pub HttpHandler : Type 0
HttpHandler = BaseConn → HttpParserWrapper → Result BaseConn

-- What `OnRead` does after parsing.
unfoldable pub respond :
    List (List ℕ × HttpHandler) → BaseConn → ℕ → HttpParserWrapper → Result BaseConn
respond handlers c now w =
    if w.read_all
    then elim (get_handler handlers (handler_url w.url)) [
      | some handler ↦ handler c w
      | none ↦ do (c', sent) ← send c now not_found (length not_found); ok (close c')
    ]
    else ok c

-- `in_buf[buf_len] = '\0'`.
unfoldable pub terminate : BaseConn → Result BaseConn
terminate c = do
  block ← memcpy c.in_buf.buffer c.in_buf.write_offset (0 ∷ []) 1
  ok (record c { in_buf = record (c.in_buf) { buffer = block } })

-- `HttpConn::OnRead`, with the wrapper of the connection's thread.
unfoldable pub on_read :
    (List ℕ → List ParserCall)
    → List (List ℕ × HttpHandler)
    → BaseConn
    → ℕ
    → HttpParserWrapper
    → Result BaseConn
on_read execute handlers c now w = do
  received ← recv_data c now
  c' ← terminate received
  respond handlers c' now
      (parse_http_content execute w (take c'.in_buf.write_offset c'.in_buf.buffer))
