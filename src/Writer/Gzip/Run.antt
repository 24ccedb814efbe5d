-- ===== src/Writer/Gzip/Run.antt =====
-- The use of a gzip writer: any calls of its methods, whose writes are accepted, and a final Close.
use couper.Base.{false, ℕ, Bool, List, [], ◌∷◌, ◌++◌, ◌≡◌, sym, ap, ◌∙◌, none, Str}
use mathlib.Core.List.{append_assoc, append-nil}
use couper.Middleware.Cors.{Header}
use couper.Writer.Gzip.{Gzip, Call, wrote, gzip_wrote, write, write_header, flush, hijack, close}

pub data Use : Type 0 where
  writes : Str → Use
  flushes hijacks : Bool → Use
  sets_status : ℕ → Use
  changes_header : (Header → Header) → Use

unfoldable pub step : Use → Gzip → Gzip
step (writes p) g = (write none p g).1
step (flushes flusher) g = flush flusher g
step (hijacks hijacker) g = (hijack hijacker g).1
step (sets_status code) g = write_header code g
step (changes_header f) g = record g { rw = record g.rw { header = f g.rw.header } }

unfoldable pub run : List Use → Gzip → Gzip
run [] g = g
run (u ∷ us) g = run us (step u g)

unfoldable pub closed : List Use → Gzip → Gzip
closed us g = (close none false (run us g)).1

abbrev pub bytes : Use → Str
bytes (writes p) = p
bytes _ = []

unfoldable pub written : List Use → Str
written [] = []
written (u ∷ us) = bytes u ++ written us

abbrev pub sent : Call → Str
sent (wrote p) = p
sent (gzip_wrote p) = p
sent _ = []

-- The body that the calls hand on.
unfoldable pub body : List Call → Str
body [] = []
body (c ∷ cs) = sent c ++ body cs

pub body-append : (cs : List Call) (c : Call) → body (cs ++ (c ∷ [])) ≡ body cs ++ sent c
unfolding body
body-append [] c = append-nil (sent c)
body-append (d ∷ cs) c =
    ap (λ s. sent d ++ s) (body-append cs c) ∙ sym (append_assoc (sent d) (body cs) (sent c))
