-- ===== src/HttpParser.antt =====
-- rust/src/http_parser.rs, `ParserContext::feed`: the state machine that reads a request byte by byte.
-- `none` of a fuel-bounded run means that the loop has not ended. What is written to the stream is the
-- list of the replies; what `write_all` returns is a parameter, and its `unwrap` a panic.
pub mod Progress
pub mod Connection
use hcache.Base.{
  ℕ, zero, suc, ◌+◌, ◌-◌, Bool, Option, none, some, List, [], ◌∷◌, ◌++◌, Text, ◌==◌, leb, ltb,
  if◌then◌else◌, length, get_elem?, codes,
}
use hcache.Base.Run.{Run, ok, fault, panicked, ◌>>=◌}
use mathlib.Core.Option.{get_or}

pub data HttpMethod : Type 0 where
  unknown get post : HttpMethod

pub data HttpRequestParserState : Type 0 where
  parse_method parse_path reply_init add_or_range parse_body : HttpRequestParserState
  skip_before_path query_get_key del_get_key zrmv_get_key_value : ℕ → HttpRequestParserState
  add_get_body list_get_body batch_get_body : ℕ → HttpRequestParserState
  zadd_get_key_and_body zrange_get_body skip_header_no_body : ℕ → HttpRequestParserState

pub record ParserContext : Type 0 where
  pub body : Text
  pub state : HttpRequestParserState
  pub method : HttpMethod
  pub cur_path_component : Text
  pub path : List Text

unfoldable pub new_context : ParserContext
new_context = record {
  body = [];
  state = parse_method;
  method = unknown;
  cur_path_component = [];
  path = [];
}

-- the variables of the loop: the context, `buf_pos`, and what was written
pub record Loop : Type 0 where
  pub ctx : ParserContext
  pub buf_pos : ℕ
  pub written : List Text

unfoldable http_200 : Text
http_200 = codes "HTTP/1.1 200 OK" ++ 13 ∷ 10 ∷ 13 ∷ 10 ∷ []

unfoldable to_state : Loop → HttpRequestParserState → ℕ → Loop
to_state l st n = record l { ctx = record l.ctx { state = st }; buf_pos = l.buf_pos + n }

path_state : HttpMethod → ℕ → HttpRequestParserState
path_state post b =
    if b == b'l'
    then list_get_body 0
    else if b == b'b'
    then batch_get_body 0
    else if b == b'a'
    then add_get_body 0
    else add_or_range
path_state _ b =
    if b == b'd' then del_get_key 3 else if b == b'z' then zrmv_get_key_value 4 else reply_init

-- `write_all(...).await.0.unwrap()`, where `sends` says which writes to the stream succeed.
unfoldable pub write_all : (ℕ → Bool) → Text → Loop → Run Loop
write_all sends bytes l =
    if sends (length l.written)
    then ok (record l { written = l.written ++ bytes ∷ [] })
    else fault panicked

-- The last arm of the loop.
unfoldable pub reply : (ℕ → Bool) → Loop → Run Loop
unfolding http_200 write_all
reply sends l =
    write_all sends http_200 (record l { ctx = record l.ctx { state = skip_header_no_body 0 } })
    >>= write_all sends (codes "ok")

-- One round of the loop in each state, on a buffer of `size` bytes whose next one is `b`.
unfoldable pub round : (ℕ → Bool) → ℕ → ℕ → HttpRequestParserState → Loop → Run Loop
unfolding to_state path_state reply
round sends size b parse_method l =
    let m = if b == b'P' then post else get in
    let skip : ℕ = if b == b'P' then 5 else 4 in
    ok (record l {
      ctx = record l.ctx { method = m; state = skip_before_path skip };
      buf_pos = l.buf_pos + 1;
    })
round sends size b (skip_before_path skip_count) l =
    let buf_remain = size - l.buf_pos in
    if leb skip_count buf_remain
    then ok (to_state l parse_path skip_count)
    else ok (record l {
      ctx = record l.ctx { state = skip_before_path (skip_count - buf_remain) };
      buf_pos = size;
    })
round sends size b parse_path l = ok (to_state l (path_state l.ctx.method b) 1)
round sends size b add_or_range l =
    ok (to_state l (if b == b'a' then add_get_body 0 else zadd_get_key_and_body 4) 1)
round sends size b _ l = reply sends l

-- the round at the byte that `buf_pos` names
unfoldable pub round_at : (ℕ → Bool) → Text → Loop → Run Loop
unfolding round
round_at sends buf l = round sends (length buf) (get_or (get_elem? buf l.buf_pos) 0) l.ctx.state l

-- What comes after a round: the rest of the loop, or nothing if it has panicked.
unfoldable pub go_on : Run Loop → (Loop → Option (Run Loop)) → Option (Run Loop)
go_on (ok l) rest = rest l
go_on (fault e) rest = some (fault e)

-- `while buf_pos < buf.len()`
unfoldable pub feed : (ℕ → Bool) → ℕ → Text → Loop → Option (Run Loop)
unfolding round_at go_on
feed sends zero buf l = none
feed sends (suc fuel) buf l =
    let next = go_on (round_at sends buf l) (feed sends fuel buf) in
    if ltb l.buf_pos (length buf) then next else some (ok l)
