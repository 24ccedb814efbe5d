-- ===== src/Tests/Transport.antt =====
-- The health probe, the token request and the header of a request on small inputs.
use couper.Base.{
  true, false, lookup, split, trim, trim_left, trim_space, mem_str, insert, delete, ◌≤◌, ◌≡◌, refl,
  [], ◌∷◌, none, arith, codes, eq_str, has_prefix, ok, ◌==◌,
}
use couper.Transport.Probe.{
  failing, down, healthy, Options, error, response, contains, contains_text, outcome, update, round,
  rounds,
}
use couper.Transport.Probe.Health.{failures_since, rounds_lem}
use couper.Middleware.Cors.{Header, get, set}
use couper.Writer.Gzip.{modify_accept_encoding}
use couper.Transport.Headers.{
  connection, RequestContext, outgoing, remove_hop_headers, remove_connection_headers,
  set_user_agent,
}
use couper.Transport.Headers.Sent.{lookup-outgoing}
use couper.Transport.TokenRequest.{Answer, string, request_token, as_string}

abbrev opts : Options
opts = record { expected_status = λ s. s == 200; expected_text = codes "ok"; failure_threshold = 2 }

probing : Unit {0}
unfolding rounds round outcome update contains contains_text has_prefix eq_str
probing = tt

probe_runs :
    ((rounds opts (error ∷ response 200 (codes "all ok") ∷ [])).state ≡ failing)
    × ((rounds opts (response 500 [] ∷ error ∷ [])).state ≡ down)
    × ((rounds opts (response 200 (codes "all ok") ∷ error ∷ [])).state ≡ healthy)
unfolding probing
probe_runs = (refl, refl, refl)

rounds_lem_example :
    ((rounds opts (error ∷ error ∷ [])).failure ≡ 2)
    × (failures_since opts (error ∷ error ∷ []) ≤ 2)
    × ((rounds opts (error ∷ error ∷ [])).state ≡ down)
unfolding outcome
rounds_lem_example = rounds_lem opts (error ∷ error ∷ []) (omega arith)

abbrev answer : Answer
answer = record {
  error = none;
  token = ok (string (codes "t"));
  ttl = ok (string (codes "1m"));
  parse = λ s. ok 60_000_000_000;
}

answered : request_token answer ≡ ok (codes "t", 60)
unfolding request_token as_string
answered = refl

-- A request with a field that its Connection field lists.
abbrev named : Header
named =
    (connection, codes "X-A, close" ∷ [])
    ∷ (codes "X-A", codes "1" ∷ [])
    ∷ (codes "X-B", codes "2" ∷ [])
    ∷ []

abbrev plain : RequestContext
plain = record {
  is_proxy_req = false;
  xff = none;
  credentials = codes "u:p";
  websockets_allowed = true;
}

headers : Unit {0}
unfolding outgoing lookup split trim_space mem_str get insert delete remove_hop_headers
    remove_connection_headers modify_accept_encoding set_user_agent set eq_str trim trim_left
headers = tt

header_runs :
    (outgoing (λ s. s) (λ s. s) (λ s. false) plain named
      ≡ (codes "X-B", codes "2" ∷ [])
        ∷ (codes "Authorization", codes "Basic u:p" ∷ [])
        ∷ (codes "User-Agent", [] ∷ [])
        ∷ [])
unfolding headers
header_runs = refl

lookup-outgoing_example :
    lookup (codes "X-A") (outgoing (λ s. s) (λ s. s) (λ s. false) plain named) ≡ none
unfolding headers
lookup-outgoing_example =
    lookup-outgoing (λ s. s) (λ s. s) (λ s. false) plain (codes "X-A") named refl
