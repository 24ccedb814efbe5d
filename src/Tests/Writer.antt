-- ===== src/Tests/Writer.antt =====
-- Examples for the gzip writer: a body of two writes of forty bytes.
use couper.Base.{
  ℕ, none, codes, take, has_prefix, has_suffix, if◌then◌else◌, ◌≡◌, ◌++◌, true, false, [], ◌∷◌,
  List, refl, arith, Str, replicate, eq_str, lookup, insert, delete,
}
use couper.Writer.Response.{Response, new_response_writer, end_of_header, end_of_line, index}
use couper.Writer.Response
use couper.Writer.Response.Count
use couper.Writer.Response.Body
use couper.Middleware.Cors.{Header, get, set, add}
use couper.Writer.Gzip.{
  Gzip, new_gzip_writer, write, write_header, fill, gzip_name, content_encoding_header, sent_header,
  gzip_wrote, flushed, gzip_flushed, gzip_closed, close, flush, pass, send_header, still_enabled,
  varied, close_gzip, encoded, hijack, status_calls,
}
use couper.Writer.Gzip.Run.{
  Use, writes, flushes, hijacks, sets_status, closed, body, written, run, step,
}
use couper.Writer.Gzip.Body.{closed-body}
use couper.Writer.Gzip.Calls.{is_response}
use couper.Writer.Gzip.Encoding.{closed-encoding}
use couper.Writer.Gzip.Phases.{is_compressed}

abbrev forty : Str
forty = replicate 40 97

abbrev outputs : List Use
outputs = writes forty ∷ flushes true ∷ writes forty ∷ flushes true ∷ []

abbrev uses : List Use
uses = sets_status 200 ∷ writes forty ∷ hijacks true ∷ writes forty ∷ flushes false ∷ []

abbrev filling : Gzip
filling = record (new_gzip_writer true []) { buffer = forty }

compression : Unit {0}
unfolding closed close run step flush write write_header new_gzip_writer fill pass send_header
    still_enabled eq_str get lookup varied add insert delete set close_gzip encoded hijack
    status_calls written is_compressed
compression = tt

closed_calls :
    (closed outputs (write_header 200 (new_gzip_writer true []))).rw.calls
    ≡ sent_header 200 ∷ gzip_wrote (forty ++ forty) ∷ gzip_flushed ∷ flushed ∷ gzip_closed ∷ []
unfolding compression
closed_calls = refl

closed-body_example : body (closed uses (new_gzip_writer true [])).rw.calls ≡ forty ++ forty
unfolding written
closed-body_example = closed-body true [] uses

closed-encoding_example :
    (is_response 200 true (closed outputs (write_header 200 (new_gzip_writer true []))).rw.calls
      ≡ true)
    × (get content_encoding_header
          (closed outputs (write_header 200 (new_gzip_writer true []))).rw.header
        ≡ gzip_name)
unfolding compression
closed-encoding_example =
    closed-encoding true [] 200 outputs (omega arith) (tt, (tt, (tt, (tt, tt))))

abbrev head : Str
head = codes "HTTP/1.1 200" ++ end_of_header

abbrev read_line : Str → Str
read_line s = take 12 s

abbrev read_header : Str → Header
read_header s = []

abbrev atoi : Str → ℕ
atoi s = if eq_str s (codes "200") then 200 else 0

abbrev fresh : Response
fresh = new_response_writer [] []

finding : Unit {0}
unfolding index has_prefix has_suffix new_response_writer Response.write Count.body
finding = tt

-- The same body is lost with the end of a line behind it.
write-body_example :
    ((Response.write read_line read_header atoi none (head ++ (forty ++ end_of_line)) fresh).0
      ≡ (58, none))
    × (Count.body
          (Response.write read_line read_header atoi none
            (head ++ (forty ++ end_of_line))
            fresh).1.calls
        ≡ [])
unfolding finding
write-body_example =
    Body.write-body read_line read_header atoi (head ++ (forty ++ end_of_line)) fresh 12 refl refl
