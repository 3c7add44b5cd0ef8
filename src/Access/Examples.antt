-- ===== src/Access/Examples.antt =====
-- Requests to the API, and the theorems at one of them.
use crawl_viz.Base.{◌≡◌, ◌↔◌, refl, String, Option, none, some, [], ◌∷◌}
use crawl_viz.Access.{
  TextRules, Request, RequestGuards, new_guards, reached, refused, host_name, header, bracketed,
  before, host_allowed, is_allowed_origin, origin_allowed, is_json, check, status_code,
  guard_middleware, bearer_matches, token_middleware, authorization_matches, serve,
}
use crawl_viz.Access.Served.{IsAdmitted, serve_iff}

-- Texts that are already stripped and lower case.
abbrev rules : TextRules
rules = record { strip = λ s. s; lower = λ s. s; upper = λ s. s; rstrip_slash = λ s. s }

abbrev guards : RequestGuards
unfolding new_guards
guards = new_guards rules ("localhost" ∷ []) ("http://localhost:5173" ∷ []) none

abbrev run_request : Option String → Request
run_request origin = record {
  scope_type = "http";
  method = "POST";
  path = "/run";
  host = some "localhost:8000";
  origin = origin;
  content_type = some "application/json; charset=utf-8";
  authorization = some "Bearer secret";
}

own_page : serve rules guards "secret" (run_request (some "http://localhost:5173")) ≡ reached
unfolding serve guard_middleware token_middleware check host_allowed host_name header bracketed
    before origin_allowed is_allowed_origin is_json authorization_matches bearer_matches guards
own_page = refl

other_page : serve rules guards "secret" (run_request (some "http://evil.example")) ≡ refused 403
unfolding serve guard_middleware token_middleware check host_allowed host_name header bracketed
    before origin_allowed is_allowed_origin is_json authorization_matches bearer_matches status_code
    guards
other_page = refl

serve_iff_example :
    (serve rules guards "secret" (run_request none) ≡ reached)
    ↔ IsAdmitted rules guards "secret" (run_request none)
serve_iff_example = serve_iff rules guards "secret" (run_request none) refl refl
