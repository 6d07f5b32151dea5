-- ===== src/Tests/Proxies.antt =====
-- The SOCKS5 client and the dialling of src/native at concrete inputs.

use yawc.Shared.{ℕ, ◌≡◌, ◌≢◌, refl, ◌⊎◌, true, false, none, some, List, [], ◌∷◌, ◌++◌, codes, arith}
use yawc.Error.{socks5, io_error, ok, err}
use yawc.Error.Socks5.{hostname_too_long, auth_failed}
use yawc.Network.{SocketAddr, v4, Host, Url, Network}
use yawc.Socks.{
  Auth, Target, named, greeting, auth_request, connect_request, is_too_long, connect, run_connect,
  negotiate, run_method, authenticate, refuse_if, method_from_code,
}
use yawc.Socks.Io.{◌>>=◌}
use yawc.Socks.Dialogue.{Settles, with_auth, IsGranted, bound_ipv4, connect-Dialogue}
use yawc.Socks.Script.{Script, script, script_history, connect-opens}
use yawc.Socks.Refusals.{IsRefusal, connect-IsRefusal}
use yawc.Socks.Proxy.{
  Proxy, UrlText, proxy_socks5, connect_from, from_url, proxy_host, proxy_auth, decode_userinfo,
  auth_too_long,
}
use yawc.Socks.Wire.{
  read_request, read_request-connect_request, read_credentials, read_credentials-proxy_socks5,
}
use yawc.Dial.{Opts, Tls, connect_stream}
use yawc.Dial.Safety.{connect_stream-returns, connect_from-independent}

abbrev user : Auth
user = record { username = codes "me"; password = codes "pw" }

abbrev site : Target
site = named (codes "a.io") 443

abbrev answers : List ℕ
answers = 5 ∷ 2 ∷ 1 ∷ 0 ∷ []

abbrev reply : List ℕ
reply = 5 ∷ 0 ∷ 0 ∷ 1 ∷ 10 ∷ 0 ∷ 0 ∷ 1 ∷ 4 ∷ 56 ∷ []

abbrev before : Script
before = record { incoming = answers ++ (reply ++ (9 ∷ 9 ∷ [])); received = []; sent = [] }

abbrev after_connect : Script
after_connect = record {
  incoming = 9 ∷ 9 ∷ [];
  received = answers ++ reply;
  sent = greeting (some user) ++ auth_request user ++ connect_request site;
}

fits : is_too_long site ≡ false
unfolding is_too_long
fits = refl

connect-opens_example : connect script (some user) site before ≡ (ok tt, after_connect)
connect-opens_example =
    connect-opens (some user) site (auth_request user) answers reply (9 ∷ 9 ∷ []) (with_auth user)
      (bound_ipv4 0 (10 ∷ 0 ∷ 0 ∷ 1 ∷ 4 ∷ 56 ∷ []) refl) fits

connect-Dialogue_example :
    (c x y : List ℕ) × Settles (some user) c x
    × IsGranted y
    × (is_too_long site ≡ false)
    × (after_connect.sent ≡ [] ++ (greeting (some user) ++ c ++ connect_request site))
    × (after_connect.received ≡ [] ++ (x ++ y))
unfolding script_history
connect-Dialogue_example =
    connect-Dialogue script_history (some user) site before after_connect tt connect-opens_example

-- The proxy does not take the password.
abbrev unwelcome : Script
unwelcome = record { incoming = 5 ∷ 2 ∷ 1 ∷ 7 ∷ []; received = []; sent = [] }

abbrev turned_away : Script
turned_away = record {
  incoming = [];
  received = 5 ∷ 2 ∷ 1 ∷ 7 ∷ [];
  sent = greeting (some user) ++ auth_request user;
}

refused : connect script (some user) site unwelcome ≡ (err (socks5 (auth_failed 7)), turned_away)
unfolding connect run_connect negotiate run_method authenticate script ◌>>=◌ refuse_if
    method_from_code is_too_long greeting auth_request
refused = refl

connect-IsRefusal_example :
    ((is_too_long site ≡ true) × (auth_failed 7 ≡ hostname_too_long) × (turned_away ≡ unwelcome))
    ⊎ ((is_too_long site ≡ false)
        × ((r : List ℕ) × IsRefusal (some user) r (auth_failed 7)
            × (turned_away.received ≡ [] ++ r)))
unfolding script_history
connect-IsRefusal_example =
    connect-IsRefusal script_history (some user) site unwelcome turned_away (auth_failed 7) refused

read_request-connect_request_example :
    read_request (connect_request site ++ (9 ∷ [])) ≡ some (site, 9 ∷ [])
read_request-connect_request_example = read_request-connect_request site (9 ∷ []) (omega arith) fits

abbrev plain_text : UrlText
plain_text = record {
  host_parse = λ name. ok (Host.domain name);
  percent_decode = λ value. some value;
}

abbrev proxy_url : Url
proxy_url = record {
  scheme = "socks5h";
  host = some (Host.domain (codes "proxy"));
  username = codes "me";
  password = some (codes "pw");
  port = none;
  known_port = none;
}

abbrev by_proxy : Proxy
by_proxy = record {
  host = Host.domain (codes "proxy");
  port = 1080;
  auth = some user;
  remote_dns = true;
}

parsed : proxy_socks5 plain_text proxy_url ≡ ok by_proxy
unfolding proxy_socks5 from_url proxy_host proxy_auth decode_userinfo auth_too_long
parsed = refl

read_credentials-proxy_socks5_example : read_credentials (auth_request user ++ []) ≡ some (user, [])
read_credentials-proxy_socks5_example =
    read_credentials-proxy_socks5 plain_text proxy_url by_proxy user [] parsed refl

abbrev home : SocketAddr
home = v4 (127 ∷ 0 ∷ 0 ∷ 1 ∷ []) 80

abbrev loopback : Network Script
loopback = record {
  lookup_host = λ name. ok (home ∷ []);
  tcp_connect = λ e. ok before;
  bind = λ a. ok tt;
  socket_connect = λ a remote. ok before;
}

-- It looks no name up.
abbrev nameless : Network Script
nameless = record loopback { lookup_host = λ name. err io_error }

abbrev site_url : Url
site_url = record {
  scheme = "wss";
  host = some (Host.domain (codes "a.io"));
  username = [];
  password = none;
  port = none;
  known_port = some 443;
}

abbrev site_opts : Opts
site_opts = record {
  url = site_url;
  tcp_address = none;
  local_address = none;
  proxy = some by_proxy;
}

abbrev sealed : Tls Script (List ℕ) Script
sealed = record { server_name = λ host. some []; connect = λ name s. ok s }

connect_stream-returns_example : connect_stream loopback script sealed site_opts ≢ none
connect_stream-returns_example =
    connect_stream-returns loopback script sealed site_opts
      (λ w. ((λ h. ground arith), (λ h. ground arith)))

connect_from-independent_example :
    connect_from loopback script by_proxy site_url none none
    ≡ connect_from nameless script by_proxy site_url none none
connect_from-independent_example =
    connect_from-independent loopback nameless script by_proxy site_url none (λ e. refl) refl
