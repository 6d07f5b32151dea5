-- ===== src/Socks/Refusals.antt =====
-- The errors of the SOCKS5 dialogue of src/native/socks5.rs, and the answers of the proxy that they
-- report.
use yawc.Shared.{
  ℕ, ◌≡◌, ◌≢◌, refl, ◌⊎◌, inl, inr, Bool-cases, true, false, Option, none, some, List, [], ◌∷◌,
  ◌++◌, arith,
}
use yawc.Error.{socks5, err}
use yawc.Error.Socks5.{
  Socks5Error, hostname_too_long, unsupported_version, no_acceptable_auth, unsupported_method,
  auth_failed, rejected, invalid_address_type, reply_code,
}
use yawc.Socks.Io.{Stream, History}
use yawc.Socks.{
  Auth, Target, Method, AddressType, no_authentication, user_pass, unacceptable, ipv4, ipv6, domain,
  method_from_code, address_from_code, authenticate, run_method, negotiate, send_request,
  address_len, read_reply, run_connect, is_too_long, connect,
}
use yawc.Socks.Blames.{
  Blames, blame_write, blame_flush, blame_read, blame_pair, blame_quad, blame_after, blame_check,
  blame_fail, blame_pure, blame_last_check, blame_last_flush, is_other,
}
use yawc.Socks.Dialogue.{is_equal, address_len-Does, Settles, negotiate-Does, send_request-Does}

-- The last answer that has been read, and the error that it calls for.
pub data IsRefusal : Option Auth → List ℕ → Socks5Error → Type 0 where
  method_version :
      (auth : Option Auth) (v m : ℕ) → v ≢ 5 → IsRefusal auth (v ∷ m ∷ []) (unsupported_version v)
  none_acceptable : (auth : Option Auth) → IsRefusal auth (5 ∷ 255 ∷ []) no_acceptable_auth
  not_offered :
      (auth : Option Auth) (m : ℕ)
      → m ≢ 0
      → m ≢ 255
      → (m ≡ 2 → auth ≡ none)
      → IsRefusal auth (5 ∷ m ∷ []) (unsupported_method m)
  status_version :
      (auth : Auth) (v status : ℕ)
      → v ≢ 1
      → IsRefusal (some auth) (5 ∷ 2 ∷ v ∷ status ∷ []) (unsupported_version v)
  credentials_refused :
      (auth : Auth) (status : ℕ)
      → status ≢ 0
      → IsRefusal (some auth) (5 ∷ 2 ∷ 1 ∷ status ∷ []) (auth_failed status)
  reply_version :
      (auth : Option Auth) (c x : List ℕ) (v code reserved kind : ℕ)
      → Settles auth c x
      → v ≢ 5
      → IsRefusal auth (x ++ (v ∷ code ∷ reserved ∷ kind ∷ [])) (unsupported_version v)
  request_refused :
      (auth : Option Auth) (c x : List ℕ) (code reserved kind : ℕ)
      → Settles auth c x
      → code ≢ 0
      → IsRefusal auth (x ++ (5 ∷ code ∷ reserved ∷ kind ∷ [])) (rejected (reply_code code))
  unknown_address :
      (auth : Option Auth) (c x : List ℕ) (reserved kind : ℕ)
      → Settles auth c x
      → kind ≢ 1
      → kind ≢ 3
      → kind ≢ 4
      → IsRefusal auth (x ++ (5 ∷ 0 ∷ reserved ∷ kind ∷ [])) (invalid_address_type kind)

module _ {S : Type 0} {stream : Stream S} (history : History stream) where
  authenticate-Blames :
      (auth : Auth)
      → Blames history (authenticate stream auth) (λ r e. IsRefusal (some auth) (5 ∷ 2 ∷ r) e)
  unfolding authenticate
  authenticate-Blames auth = blame_write history _ _ _ (
      blame_flush history _ _ (
        blame_pair history _ _ λ a b.
          blame_check history _ _ _ _ (λ ea. status_version auth a b (is_other a 1 ea))
            λ ea.
              blame_last_check history _ _ _
                λ eb. rw (is_equal a 1 ea) (credentials_refused auth b (is_other b 0 eb))))

  run_method-Blames :
      (code : ℕ) (auth : Option Auth) (m : Option Method)
      → method_from_code code ≡ m
      → Blames history (run_method stream code m auth) (λ r e. IsRefusal auth (5 ∷ code ∷ r) e)
  unfolding run_method method_from_code
  run_method-Blames code auth (some no_authentication) e = blame_pure history tt _
  run_method-Blames code (some auth) (some user_pass) e =
      let two : code ≡ 2 = ground arith in rw two (authenticate-Blames auth)
  run_method-Blames code none (some user_pass) e =
      blame_fail history _ _ _
        (not_offered none code (λ h. ground arith) (λ h. ground arith) (λ h. refl))
  run_method-Blames code auth (some unacceptable) e =
      let full : code ≡ 255 = ground arith in
      blame_fail history _ _ _ (rw full (none_acceptable auth))
  run_method-Blames code auth none e =
      blame_fail history _ _ _
        (not_offered auth code (λ h. ground arith) (λ h. ground arith) (λ h. absurd (ground arith)))

  negotiate-Blames : (auth : Option Auth) → Blames history (negotiate stream auth) (IsRefusal auth)
  unfolding negotiate
  negotiate-Blames auth = blame_write history _ _ _ (
      blame_flush history _ _ (
        blame_pair history _ _ λ a b.
          blame_check history _ _ _ _ (λ ea. method_version auth a b (is_other a 5 ea))
            λ ea. rw (is_equal a 5 ea) (run_method-Blames b auth _ refl)))

  send_request-Blames :
      (target : Target) (E : List ℕ → Socks5Error → Type 0)
      → Blames history (send_request stream target) E
  unfolding send_request
  send_request-Blames target E = blame_write history _ _ _ (blame_last_flush history E)

  address_len-Blames :
      (auth : Option Auth) (c x : List ℕ) (reserved code : ℕ) (m : Option AddressType)
      → address_from_code code ≡ m
      → Settles auth c x
      → Blames history
          (address_len stream code m)
          (λ r e. IsRefusal auth (x ++ (5 ∷ 0 ∷ reserved ∷ code ∷ r)) e)
  unfolding address_len address_from_code
  address_len-Blames auth c x reserved code (some ipv4) e hx = blame_pure history 4 _
  address_len-Blames auth c x reserved code (some ipv6) e hx = blame_pure history 16 _
  address_len-Blames auth c x reserved code (some domain) e hx =
      blame_read history _ _ _ λ len l. blame_pure history _ _
  address_len-Blames auth c x reserved code none e hx = blame_fail history _ _ _ (
      unknown_address auth c x reserved code hx (λ h. ground arith) (λ h. ground arith)
        (λ h. ground arith))

  read_reply-Blames :
      (auth : Option Auth) (c x : List ℕ)
      → Settles auth c x
      → Blames history (read_reply stream) (λ r e. IsRefusal auth (x ++ r) e)
  unfolding read_reply
  read_reply-Blames auth c x hx = blame_quad history _ _ λ v code r k.
      blame_check history _ _ _ _ (λ ev. reply_version auth c x v code r k hx (is_other v 5 ev))
        λ ev.
          blame_check history _ _ _ _
            (λ ec. rw (is_equal v 5 ev) (request_refused auth c x code r k hx (is_other code 0 ec)))
            λ ec. rw (is_equal v 5 ev) (
              rw (is_equal code 0 ec) (
                blame_after history _ _ _ _ (address_len-Does history k _ refl)
                  (address_len-Blames auth c x r k _ refl hx)
                  λ n w q h. blame_read history _ _ _ λ bound l. blame_pure history tt _))

  run_connect-Blames :
      (auth : Option Auth) (target : Target)
      → Blames history (run_connect stream auth target) (IsRefusal auth)
  unfolding run_connect
  run_connect-Blames auth target =
      blame_after history _ _ _ _ (negotiate-Does history auth) (negotiate-Blames auth)
        λ _ w x (c, e, h).
          blame_after history _ _ _ _ (send_request-Does history target)
            (send_request-Blames target _) λ _ v q g. rw g.1 (read_reply-Blames auth c x h)

  -- An error of the dialogue that `connect` returns is either the refusal of a host name of more than
  -- 255 bytes, before anything is written or read, or it reports the last answer of the proxy that
  -- was read: a version, a method, a status, a reply code or an address type, as it stands there.
  pub connect-IsRefusal :
      (auth : Option Auth) (target : Target) (s t : S) (e : Socks5Error)
      → connect stream auth target s ≡ (err (socks5 e), t)
      → ((is_too_long target ≡ true) × (e ≡ hostname_too_long) × (t ≡ s))
        ⊎ ((is_too_long target ≡ false)
            × ((r : List ℕ) × IsRefusal auth r e × (history.received t ≡ history.received s ++ r)))
  unfolding connect Blames
  connect-IsRefusal auth target s t e h = elim (Bool-cases (is_too_long target)) [
    | inl c ↦ inl (c, ground (arith, c, h), ground (arith, c, h))
    | inr c ↦ inr (c, run_connect-Blames auth target s t e (ground (arith, c, h)))
  ]
