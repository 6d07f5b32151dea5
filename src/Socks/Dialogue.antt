-- ===== src/Socks/Dialogue.antt =====
-- The SOCKS5 dialogue of src/native/socks5.rs, as RFC 1928 and RFC 1929 describe it: what the client
-- sends and what the proxy answers when a tunnel is opened.
use yawc.Shared.{
  ℕ, ◌+◌, ◌≡◌, refl, Bool, true, false, ◌==◌, not, Option, none, some, List, [], ◌∷◌, ◌++◌,
  append-nil, length, if◌then◌else◌, arith,
}
use yawc.Error.{WebSocketError, ok}
use yawc.Socks.Io.{Action, fail, Stream, History}
use yawc.Socks.{
  Auth, Target, Method, AddressType, no_authentication, user_pass, unacceptable, ipv4, ipv6, domain,
  greeting, auth_request, connect_request, method_from_code, address_from_code, authenticate,
  run_method, negotiate, send_request, address_len, read_reply, run_connect, is_too_long, connect,
}
use yawc.Socks.Traces.{
  Does, after_write, after_flush, after_read, after_pair, after_byte, after_quad, after_check,
  after, last_flush, last_check, weaken, returns, fails,
}

-- What the client sends and what the proxy answers between the greeting and the request: the proxy
-- chooses one of the methods that were offered, and accepts the credentials.
pub data Settles : Option Auth → List ℕ → List ℕ → Type 0 where
  without_auth : (auth : Option Auth) → Settles auth [] (5 ∷ 0 ∷ [])
  with_auth : (auth : Auth) → Settles (some auth) (auth_request auth) (5 ∷ 2 ∷ 1 ∷ 0 ∷ [])

-- A reply that grants the request: version, code 0, a reserved byte, the type of the bound address,
-- the address and a port of two bytes.
pub data IsGranted : List ℕ → Type 0 where
  bound_ipv4 :
      (reserved : ℕ) (bound : List ℕ) → length bound ≡ 6 → IsGranted (5 ∷ 0 ∷ reserved ∷ 1 ∷ bound)
  bound_ipv6 :
      (reserved : ℕ) (bound : List ℕ) → length bound ≡ 18 → IsGranted (5 ∷ 0 ∷ reserved ∷ 4 ∷ bound)
  bound_domain :
      (reserved n : ℕ) (bound : List ℕ)
      → length bound ≡ n + 2
      → IsGranted (5 ∷ 0 ∷ reserved ∷ 3 ∷ n ∷ bound)

pub is_equal : (a n : ℕ) → not (a == n) ≡ false → a ≡ n
is_equal a n h = ground arith

module _ {S : Type 0} {stream : Stream S} (history : History stream) where
  authenticate-Does :
      (auth : Auth)
      → Does history
          (authenticate stream auth)
          (λ _ w r. (w ≡ auth_request auth) × (r ≡ 1 ∷ 0 ∷ []))
  unfolding authenticate
  authenticate-Does auth = after_write history _ _ _ (
      after_flush history _ _ (
        after_pair history _ _ λ a b. after_check history _ _ _ _ λ ea.
          last_check history _ _ _
            λ eb. (append-nil (auth_request auth), cc (is_equal a 1 ea, is_equal b 0 eb))))

  run_method-Does :
      (code : ℕ) (auth : Option Auth) (m : Option Method)
      → method_from_code code ≡ m
      → Does history (run_method stream code m auth) (λ _ w r. Settles auth w (5 ∷ code ∷ r))
  unfolding run_method method_from_code
  run_method-Does code auth (some no_authentication) e =
      let zero_code : code ≡ 0 = ground arith in
      returns history tt _ (rw zero_code (without_auth auth))
  run_method-Does code (some auth) (some user_pass) e =
      let two : code ≡ 2 = ground arith in
      weaken history _ _ _ (authenticate-Does auth)
        λ _ w r h. rw two (rw h.0 (rw h.1 (with_auth auth)))
  run_method-Does code none (some user_pass) e = fails history _ _
  run_method-Does code auth (some unacceptable) e = fails history _ _
  run_method-Does code auth none e = fails history _ _

  pub negotiate-Does :
      (auth : Option Auth)
      → Does history
          (negotiate stream auth)
          (λ _ w r. (c : List ℕ) × (w ≡ greeting auth ++ c) × Settles auth c r)
  unfolding negotiate
  negotiate-Does auth = after_write history _ _ _ (
      after_flush history _ _ (
        after_pair history _ _ λ a b. after_check history _ _ _ _ λ ea.
          weaken history _ _ _ (run_method-Does b auth _ refl)
            λ _ w r h. (w, refl, rw (is_equal a 5 ea) h)))

  -- The bytes of the address that stand in the reply before its end, by the type of the address.
  abbrev Completes : ℕ → ℕ → List ℕ → Type 0
  Completes code n r =
      (reserved : ℕ) (bound : List ℕ)
      → length bound ≡ n + 2
      → IsGranted (5 ∷ 0 ∷ reserved ∷ code ∷ (r ++ bound))

  pub address_len-Does :
      (code : ℕ) (m : Option AddressType)
      → address_from_code code ≡ m
      → Does history (address_len stream code m) (λ n w r. (w ≡ []) × Completes code n r)
  unfolding address_len address_from_code
  address_len-Does code (some ipv4) e =
      let one : code ≡ 1 = ground arith in
      returns history 4 _ (refl, λ reserved bound l. rw one (bound_ipv4 reserved bound l))
  address_len-Does code (some ipv6) e =
      let four : code ≡ 4 = ground arith in
      returns history 16 _ (refl, λ reserved bound l. rw four (bound_ipv6 reserved bound l))
  address_len-Does code (some domain) e =
      let three : code ≡ 3 = ground arith in
      after_byte history _ _ λ n.
        returns history n _ (refl, λ reserved bound l. rw three (bound_domain reserved n bound l))
  address_len-Does code none e = fails history _ _

  read_reply-Does : Does history (read_reply stream) (λ _ w r. (w ≡ []) × IsGranted r)
  unfolding read_reply
  read_reply-Does = after_quad history _ _ λ a b c d. after_check history _ _ _ _ λ ea.
      after_check history _ _ _ _ λ eb. after history _ _ _ _ (address_len-Does d _ refl) λ n w r h.
        after_read history _ _ _ λ bound l. returns history tt _ (
          rw h.0 refl,
          rw (is_equal a 5 ea) (rw (is_equal b 0 eb) (rw (append-nil bound) (h.1 c bound l))),
        )

  pub send_request-Does :
      (target : Target)
      → Does history (send_request stream target) (λ _ w r. (w ≡ connect_request target) × (r ≡ []))
  unfolding send_request
  send_request-Does target = after_write history _ _ _ (last_flush history _ (append-nil _, refl))

  run_connect-Does :
      (auth : Option Auth) (target : Target)
      → Does history (run_connect stream auth target) (λ _ w r.
        (c x y : List ℕ) × Settles auth c x
        × IsGranted y
        × (w ≡ greeting auth ++ c ++ connect_request target)
        × (r ≡ x ++ y))
  unfolding run_connect
  run_connect-Does auth target = after history _ _ _ _ (negotiate-Does auth) λ _ w x h.
      after history _ _ _ _ (send_request-Does target) λ _ v q g.
        weaken history _ _ _ read_reply-Does
          λ _ z y k. (h.0, x, y, h.2, k.1, cc (h.1, g.0, k.0, append-nil v), cc g.1)

  guarded :
      (b : Bool) (reason : WebSocketError) (m : Action S Unit) (R : Unit → List ℕ → List ℕ → Type 0)
      → Does history m R
      → Does history (if b then fail reason else m) (λ a w r. (b ≡ false) × R a w r)
  unfolding Does
  guarded true reason m R d s t a h = absurd (ground (arith, h))
  guarded false reason m R d s t a h =
      let (w, r, p, es, er) = d s t a h in (w, r, (refl, p), es, er)

  -- Where `connect` succeeds, it sent the greeting, then the credentials if the proxy chose that
  -- method and nothing otherwise, then the request for a host name of at most 255 bytes or an
  -- address, and no other byte. The proxy chose a method that was offered, accepted the credentials
  -- if it asked for them, and granted the request, and exactly these answers have been read: the next
  -- byte of the stream is the first one of the tunnel.
  pub connect-Dialogue :
      (auth : Option Auth) (target : Target) (s t : S) (u : Unit)
      → connect stream auth target s ≡ (ok u, t)
      → (c x y : List ℕ) × Settles auth c x
        × IsGranted y
        × (is_too_long target ≡ false)
        × (history.sent t ≡ history.sent s ++ (greeting auth ++ c ++ connect_request target))
        × (history.received t ≡ history.received s ++ (x ++ y))
  unfolding connect Does
  connect-Dialogue auth target s t u h =
      let (w, r, (e, (c, x, y, hc, hy, hw, hr)), es, er) =
        guarded (is_too_long target) _ _ _ (run_connect-Does auth target) s t u h in
      (c, x, y, hc, hy, e, cc (es, hw), cc (er, hr))
