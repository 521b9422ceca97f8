-- ===== src/Listener/Proxy/Tests.antt =====
-- Runs of the forward proxy, and its theorems at concrete inputs.
use gorp.Prelude.{
  ◌≡◌, refl, String, true, false, List, [], ◌∷◌, none, some, str_eq, cut_at, value_of, has_prefix,
  cut_prefix, trim_prefix,
}
use gorp.Http.{Request, get, raw_values}
use gorp.Listener.Proxy.{
  Library, Cascade, direct, by_http, trim_dot, match_hostname, host_from_address, matches_cascade,
  dial_cascade, parse_proxy_basic_auth, Reply, tunnels, serve_connect, authenticate_proxy,
  serve_http,
}
use gorp.Listener.Proxy.Served.{Served, serve_http-Served}

-- A pattern matches itself, and base64 is left out.
abbrev lib : Library
lib = record {
  to_lower = λ s. s;
  trim_space = λ s. s;
  trim_brackets = λ s. s;
  decode = λ s. some s;
  path_match = λ p s. some (str_eq p s);
  split_host = λ s. some s;
  parse_url = λ s. none;
}

abbrev cascade : Cascade
cascade = record {
  url = record { scheme = "http"; host = "up:3128"; user = none };
  username = "";
  password = "";
  hosts = [];
  no_proxy = "local" ∷ [];
}

abbrev users : List (String × String)
users = ("u", "p") ∷ []

abbrev request : String → Request
request host = record {
  method = "CONNECT";
  path = "";
  host = host;
  remote_addr = "";
  header = ("Proxy-Authorization", "Basic u:p" ∷ []) ∷ [];
}

abbrev proxied : String → Reply lib
proxied host =
    serve_http lib (λ s. s) users (some cascade) (λ d t. true) true true false (request host) []

tunnel_up : proxied "site." ≡ tunnels (by_http cascade) "site."
unfolding serve_http serve_connect authenticate_proxy parse_proxy_basic_auth get raw_values
    has_prefix cut_prefix trim_prefix cut_at value_of dial_cascade host_from_address matches_cascade
    match_hostname trim_dot
tunnel_up = refl

tunnel_around : proxied "local." ≡ tunnels direct "local."
unfolding serve_http serve_connect authenticate_proxy parse_proxy_basic_auth get raw_values
    has_prefix cut_prefix trim_prefix cut_at value_of dial_cascade host_from_address matches_cascade
    match_hostname trim_dot
tunnel_around = refl

serve_http-Served_example :
    Served lib
      (λ s. s)
      users
      (some cascade)
      (λ d t. true)
      true
      true
      (request "site.")
      (proxied "site.")
serve_http-Served_example =
    serve_http-Served lib (λ s. s) users (some cascade) (λ d t. true) true true false
      (request "site.") []
