-- ===== src/Http/Parses.antt =====
-- What a parse by src/netter/http_parser_wrapper.cpp leaves in the wrapper.
use netter.Common.{
  ℕ, ◌+◌, Bool, true, false, ◌||◌, List, [], ◌∷◌, ◌++◌, append_assoc, append-nil, ◌≡◌, refl, ap,
  ◌∙◌, u32, arith,
}
use netter.Http.{
  ParserCall, on_url, on_header_field, on_header_value, on_body, on_headers_complete,
  on_message_complete, HttpParserWrapper, on_call, on_calls, reset, parse_http_content,
}

-- The pieces of the URL and of the body, put together; whether the message is complete; and the length
-- that the last end of the headers gives.
unfoldable pub urls : List ParserCall → List ℕ
urls [] = []
urls (on_url at ∷ rest) = at ++ urls rest
urls (_ ∷ rest) = urls rest

unfoldable pub bodies : List ParserCall → List ℕ
bodies [] = []
bodies (on_body at ∷ rest) = at ++ bodies rest
bodies (_ ∷ rest) = bodies rest

unfoldable pub completes : List ParserCall → Bool
completes [] = false
completes (on_message_complete ∷ rest) = true
completes (_ ∷ rest) = completes rest

unfoldable pub total : ℕ → List ParserCall → ℕ
total n [] = n
total n (on_headers_complete nread content_length ∷ rest) =
    total (u32 (nread + u32 content_length)) rest
total n (_ ∷ rest) = total n rest

-- The request that a parser which makes these calls has read.
abbrev pub request : List ParserCall → HttpParserWrapper
request calls = record {
  read_all = completes calls;
  total_length = total 0 calls;
  url = urls calls;
  body_content = bodies calls;
}

abbrev after : HttpParserWrapper → List ParserCall → HttpParserWrapper
after w calls = record {
  read_all = w.read_all || completes calls;
  total_length = total w.total_length calls;
  url = w.url ++ urls calls;
  body_content = w.body_content ++ bodies calls;
}

true-or : (b : Bool) → true ≡ b || true
true-or true = refl
true-or false = refl

on_calls-after :
    (w : HttpParserWrapper) (calls : List ParserCall) → on_calls w calls ≡ after w calls
unfolding on_calls on_call urls bodies completes total
on_calls-after w [] = ground (arith, append-nil w.url, append-nil w.body_content)
on_calls-after w (on_url at ∷ rest) =
    on_calls-after (record w { url = w.url ++ at }) rest
    ∙ ap (λ q. record (after w rest) { url = q }) (append_assoc w.url at (urls rest))
on_calls-after w (on_header_field at ∷ rest) = on_calls-after w rest
on_calls-after w (on_header_value at ∷ rest) = on_calls-after w rest
on_calls-after w (on_body at ∷ rest) =
    on_calls-after (record w { body_content = w.body_content ++ at }) rest
    ∙ ap (λ q. record (after w rest) { body_content = q })
        (append_assoc w.body_content at (bodies rest))
on_calls-after w (on_headers_complete nread content_length ∷ rest) =
    on_calls-after (record w { total_length = u32 (nread + u32 content_length) }) rest
on_calls-after w (on_message_complete ∷ rest) =
    on_calls-after (record w { read_all = true }) rest
    ∙ ap (λ q. record (after w rest) { read_all = q }) (true-or w.read_all)

-- Whatever the thread's wrapper holds of earlier requests, of this connection or of others, and
-- however the parser cuts the URL and the body into pieces: after `ParseHttpContent` it holds the
-- request of exactly these bytes.
pub parse_http_content-request :
    (execute : List ℕ → List ParserCall) (w : HttpParserWrapper) (buf : List ℕ)
    → parse_http_content execute w buf ≡ request (execute buf)
unfolding parse_http_content reset
parse_http_content-request execute w buf = on_calls-after (reset w) (execute buf)
