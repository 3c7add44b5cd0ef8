-- ===== src/Network/Examples.antt =====
-- A page that redirects to an address of the local network.
use crawl_viz.Base.{
  ℕ, ◌+◌, ◌≤◌, ◌≡◌, refl, String, true, false, none, some, [], ◌∷◌, length, All, if◌then◌else◌,
  str_eq,
}
use crawl_viz.Network.Guard.{
  UrlParts, not_public, IpAddress, ensure_public_url, resolve, resolves_to_private, any_blocked,
  no_hostname, is_blocked_address, judged,
}
use crawl_viz.Network.{
  Dns, target_of, looked_up, connector_error, Server, received, body, failed, blocked_address,
  execute_get, emit_request, NetworkClient, close, get_rounds, refusal, finish, redirect_of,
  read_text, type_accepted, announced, read_chunks, body_or_error,
}
use crawl_viz.Network.Redirects.{IsPublic, execute_get-IsSafe}

abbrev private_ip : IpAddress
private_ip = record { own = record { is_multicast = false; is_global = false }; ipv4_mapped = none }

abbrev public_ip : IpAddress
public_ip = record { own = record { is_multicast = false; is_global = true }; ipv4_mapped = none }

abbrev split : String → UrlParts
split url = record {
  scheme = "http";
  hostname = some url;
  address = if str_eq url "http://10.0.0.1/" then some private_ip else none;
}

-- One name resolves to an address of the local network, beside a public one.
abbrev dns : Dns
dns sent none = none
dns sent (some host) =
    some (if str_eq host "http://localhost/" then public_ip ∷ private_ip ∷ [] else public_ip ∷ [])

abbrev join : String → String → String
join base location = location

abbrev server : Server
server sent url = received (record {
  url = url;
  status = if str_eq url "http://a.org/" then 302 else 200;
  location = if str_eq url "http://a.org/" then some "http://10.0.0.1/" else none;
  content_type = "text/html";
  content_length = none;
  chunks = 7 ∷ 5 ∷ [];
})

redirected :
    execute_get split join dns server true 100 none 5 0 "http://a.org/"
    ≡ (failed (blocked_address not_public), ("http://a.org/", public_ip ∷ []) ∷ [])
unfolding execute_get get_rounds refusal target_of looked_up resolve any_blocked finish redirect_of
    ensure_public_url no_hostname is_blocked_address judged read_text type_accepted announced
    read_chunks body_or_error
redirected = refl

fetched :
    execute_get split join dns server true 100 none 5 0 "http://b.org/"
    ≡ (body 12, ("http://b.org/", public_ip ∷ []) ∷ [])
unfolding execute_get get_rounds refusal target_of looked_up resolve any_blocked finish redirect_of
    ensure_public_url no_hostname is_blocked_address judged read_text type_accepted announced
    read_chunks body_or_error
fetched = refl

local_name :
    execute_get split join dns server true 100 none 5 0 "http://localhost/"
    ≡ (failed (connector_error (some resolves_to_private)), [])
unfolding execute_get get_rounds refusal target_of looked_up resolve any_blocked ensure_public_url
    no_hostname is_blocked_address judged
local_name = refl

abbrev client : NetworkClient
client = record {
  allow_private_addresses = true;
  max_response_bytes = 10;
  max_redirects = 5;
  session = false;
}

unknown : (emit_request split join dns server "PUT" none 0 "http://b.org/" client).0.1 ≡ []
unfolding emit_request
unknown = refl

closed :
    (close (emit_request split join dns server "POST" none 0 "http://b.org/" client).1) ≡ client
unfolding emit_request close
closed = refl

unresolved : resolve (private_ip ∷ []) ≡ none
unfolding resolve
unresolved = refl

execute_get-IsSafe_example :
    let (result, connections) =
      execute_get split join dns server true 100 none 5 0 "http://a.org/" in
    All (λ c. All IsPublic c.1) connections
    × (length connections ≤ 5 + 1)
    × ((size : ℕ) → result ≡ body size → size ≤ 100)
execute_get-IsSafe_example = execute_get-IsSafe split join dns server 100 none 5 0 "http://a.org/"
