-- ===== src/Socks/Wire.antt =====
-- The messages of src/native/socks5.rs as a proxy reads them (RFC 1928 section 4, RFC 1929).
use yawc.Shared.{
  ℕ, ◌+◌, ◌*◌, ◌<◌, ◌%◌, ◌/◌, ◌≡◌, refl, subst, inl, inr, Bool, true, false, ◌&&◌, ◌==◌, Option,
  none, some, List, [], ◌∷◌, ◌++◌, append_assoc, length, if◌then◌else◌, arith, split_exact,
  split_exact-length,
}
use yawc.Error.{ok, Result-cases}
use yawc.Frame.{be_bytes16}
use yawc.Network.{v4, v6, Url}
use yawc.Socks.{
  Auth, Target, named, addressed, auth_request, connect_request, address_code, is_too_long,
}
use yawc.Socks.Proxy.{Proxy, UrlText, auth_too_long, proxy_host, proxy_auth, from_url, proxy_socks5}

-- A value, and the bytes that follow it.
abbrev Parse : Type 0 → Type 0
Parse A = List ℕ → Option (A × List ℕ)

-- The bytes of an address, and the two bytes of a port.
abbrev read_port : (List ℕ → ℕ → Target) → ℕ → Parse Target
read_port build n bytes = elim (split_exact n bytes) [
  | none ↦ none
  | some (address, rest) ↦ elim rest [
    | high ∷ low ∷ others ↦ some (build address (high * 256 + low), others)
    | _ ↦ none
  ]
]

-- The target, by the type of its address.
abbrev read_target : ℕ → Parse Target
read_target kind bytes =
    if kind == 1
    then read_port (λ ip port. addressed (v4 ip port)) 4 bytes
    else if kind == 4
    then read_port (λ ip port. addressed (v6 ip port)) 16 bytes
    else if kind == 3
    then elim bytes [ n ∷ rest ↦ read_port named n rest | _ ↦ none ]
    else none

-- A `CONNECT` request: the version, the command, a reserved zero, then the target.
abbrev pub read_request : Parse Target
read_request (version ∷ command ∷ reserved ∷ kind ∷ rest) =
    if (version == 5) && ((command == 1) && (reserved == 0)) then read_target kind rest else none
read_request _ = none

-- A password request: the version, and two texts behind their lengths.
abbrev pub read_credentials : Parse Auth
read_credentials (version ∷ n ∷ rest) =
    if version == 1
    then elim (split_exact n rest) [
      | none ↦ none
      | some (username, others) ↦ elim others [
        | [] ↦ none
        | m ∷ more ↦ elim (split_exact m more) [
          | none ↦ none
          | some (password, last) ↦ some (record { username = username; password = password }, last)
        ]
      ]
    ]
    else none
read_credentials _ = none

-- The octets of an address are as many as its kind has, and a port has 16 bits.
abbrev pub IsTarget : Target → Type 0
IsTarget (named host port) = port < 65536
IsTarget (addressed (v4 ip port)) = (length ip ≡ 4) × (port < 65536)
IsTarget (addressed (v6 ip port)) = (length ip ≡ 16) × (port < 65536)

read_port-be_bytes16 :
    (build : List ℕ → ℕ → Target) (n port : ℕ) (address rest : List ℕ)
    → length address ≡ n
    → port < 65536
    → read_port build n ((address ++ be_bytes16 port) ++ rest) ≡ some (build address port, rest)
unfolding be_bytes16
read_port-be_bytes16 build n port address rest l h =
    let two : port / 256 % 256 * 256 + port % 256 ≡ port = omega arith in
    rw (append_assoc address (be_bytes16 port) rest)
      (rw (split_exact-length n address (be_bytes16 port ++ rest) l, read_port) (rw two refl))

-- A proxy reads back the very target of a request, and finds the bytes that follow it: a host name
-- that fits in its length byte, or an address, with a port of 16 bits.
pub read_request-connect_request :
    (t : Target) (rest : List ℕ)
    → IsTarget t
    → is_too_long t ≡ false
    → read_request (connect_request t ++ rest) ≡ some (t, rest)
unfolding connect_request is_too_long address_code
read_request-connect_request (named host port) rest h e =
    let n : length host % 256 ≡ length host = ground arith in
    rw n (read_port-be_bytes16 named (length host) port host rest refl h)
read_request-connect_request (addressed (v4 ip port)) rest h e =
    read_port-be_bytes16 (λ ip port. addressed (v4 ip port)) 4 port ip rest h.0 h.1
read_request-connect_request (addressed (v6 ip port)) rest h e =
    read_port-be_bytes16 (λ ip port. addressed (v6 ip port)) 16 port ip rest h.0 h.1

read_credentials-auth_request :
    (auth : Auth) (rest : List ℕ)
    → auth_too_long (some auth) ≡ false
    → read_credentials (auth_request auth ++ rest) ≡ some (auth, rest)
unfolding auth_too_long auth_request
read_credentials-auth_request auth rest h =
    let u : length auth.username % 256 ≡ length auth.username = ground arith in
    let p : length auth.password % 256 ≡ length auth.password = ground arith in
    let tail = (length auth.password ∷ auth.password) in
    rw (u, p)
      (rw (append_assoc auth.username tail rest) (
        rw (split_exact-length _ auth.username (tail ++ rest) refl)
          (rw (split_exact-length _ auth.password rest refl) refl)))

module _ (text : UrlText) where
  from_url-auth :
      (remote_dns : Bool) (url : Url) (proxy : Proxy)
      → from_url text remote_dns url ≡ ok proxy
      → auth_too_long proxy.auth ≡ false
  unfolding from_url
  from_url-auth remote_dns url proxy h = elim (Result-cases (proxy_host text url.host)) [
    | inr (e, c) ↦ absurd (ground (arith, c, h))
    | inl (host, c) ↦ elim (Result-cases (proxy_auth text url)) [
      | inr (e, d) ↦ absurd (ground (arith, c, d, h))
      | inl (auth, d) ↦ ground (arith, c, d, h)
    ]
  ]

  -- The credentials of every proxy that `Proxy::socks5` makes of a URL are sent whole: a proxy reads
  -- back the very user name and password of the request, and finds the bytes that follow it.
  pub read_credentials-proxy_socks5 :
      (url : Url) (proxy : Proxy) (auth : Auth) (rest : List ℕ)
      → proxy_socks5 text url ≡ ok proxy
      → proxy.auth ≡ some auth
      → read_credentials (auth_request auth ++ rest) ≡ some (auth, rest)
  unfolding proxy_socks5
  read_credentials-proxy_socks5 url proxy auth rest h e =
      let fits : auth_too_long proxy.auth ≡ false =
        ground (arith, from_url-auth false url proxy, from_url-auth true url proxy) in
      read_credentials-auth_request auth rest (subst (λ a. auth_too_long a ≡ false) e fits)
