-- ===== src/Handshake/Checks.antt =====
-- What a client has checked of a response that it accepts.
use yawc.Shared.{
  ℕ, ◌≡◌, ◌⊎◌, inl, inr, by_test, Bool-cases, [], ◌∷◌, ◌++◌, ◌||◌, same_text, refl, ap, Bool, true,
  false, Option, none, some, List, ◌==◌, codes, same_text→≡, if◌then◌else◌, arith,
}
use yawc.Error.{WebSocketError, Result, ok, err, ◌>>=◌}
use yawc.Codec.{client}
use yawc.Negotiation.{Options, Negotiation, new_negotiation}
use yawc.Header.{Text}
use yawc.Handshake.Words.{Spells, IsLower, Names, eq_ignore_ascii_case-Spells, split-Names}
use yawc.Handshake.{
  HeaderMap, Response, get, get_all, eq_ignore_ascii_case, split, any_upgrade, lists_upgrade,
  from_headers, connection_lists_upgrade, verify_accept, is_websocket, verify_upgrade, verify,
}

websocket-IsLower : IsLower (codes "websocket")
websocket-IsLower = (refl, (refl, (refl, (refl, (refl, (refl, (refl, (refl, (refl, tt)))))))))

same_status : (status : ℕ) → (status == 101) ≡ true → status ≡ 101
same_status status h = ground (arith, h)

passed :
    {A : Type 0} (b : Bool) (x : Result A) (reason : WebSocketError) (a : A)
    → (if b then x else err reason) ≡ ok a
    → (b ≡ true) × (x ≡ ok a)
passed true x reason a h = (refl, h)
passed false x reason a h = absurd (ground (arith, h))

unbarred :
    {A : Type 0} (b : Bool) (reason : WebSocketError) (x : Result A) (a : A)
    → (if b then err reason else x) ≡ ok a
    → x ≡ ok a
unbarred true reason x a h = absurd (ground (arith, h))
unbarred false reason x a h = h

followed :
    {A : Type 0} (r : Result (Unit {0})) (x : Result A) (a : A)
    → (r >>= λ _. x) ≡ ok a
    → (r ≡ ok tt) × (x ≡ ok a)
followed (ok u) x a h = (refl, h)
followed (err e) x a h = absurd (ground (arith, h))

module _ (zlib : Bool) (sha1 : List ℕ → List ℕ) (base64 : List ℕ → Text)
    (to_str : List ℕ → Option Text) where
  -- The value is there and spells the word, capital letters or not.
  abbrev pub Says : Option (List ℕ) → Text → Type 0
  Says none word = ⊥
  Says (some value) word = (text : Text) × (to_str value ≡ some text) × Spells text word

  -- One of the lines has the name, and its value is a list that names the word.
  abbrev pub Lists : HeaderMap → Text → Text → Type 0
  Lists [] name word = ⊥
  Lists ((key, value) ∷ headers) name word =
      ((key ≡ name) × (text : Text) × (to_str value ≡ some text) × Names text word)
      ⊎ Lists headers name word

  -- The checks of RFC 6455, Section 4.1, on the response to a key.
  pub record IsAccepted (response : Response) (key : List ℕ) : Type 0 where
    pub switching : response.status ≡ 101
    pub upgraded : Says (get (codes "upgrade") response.headers) (codes "websocket")
    pub listed : Lists response.headers (codes "connection") (codes "upgrade")
    pub accept :
        get (codes "sec-websocket-accept") response.headers
        ≡ some (base64 (sha1 (key ++ codes "258EAFA5-E914-47DA-95CA-C5AB0DC85B11")))

  is_websocket-Says :
      (value : Option (List ℕ))
      → is_websocket zlib sha1 base64 to_str value ≡ true
      → Says value (codes "websocket")
  unfolding is_websocket
  is_websocket-Says none h = absurd (ground (arith, h))
  is_websocket-Says (some v) h = go (to_str v) refl h
    where
      go :
          (r : Option Text)
          → to_str v ≡ r
          → (elim r [ none ↦ false | some text ↦ eq_ignore_ascii_case text (codes "websocket") ])
            ≡ true
          → Says (some v) (codes "websocket")
      go none e h = absurd (ground (arith, h))
      go (some text) e h =
          (text, e, eq_ignore_ascii_case-Spells text (codes "websocket") websocket-IsLower h)

  -- What one line adds to the lines behind it.
  line-Lists :
      (key : Text) (value : List ℕ) (headers : HeaderMap)
      → key ≡ codes "connection"
      → (lists_upgrade zlib sha1 base64 to_str (get_all (codes "connection") headers) ≡ true
          → Lists headers (codes "connection") (codes "upgrade"))
      → lists_upgrade zlib sha1 base64 to_str (value ∷ get_all (codes "connection") headers) ≡ true
      → Lists ((key, value) ∷ headers) (codes "connection") (codes "upgrade")
  unfolding lists_upgrade
  line-Lists key value headers same later h = go (to_str value) refl h
    where
      go :
          (r : Option Text)
          → to_str value ≡ r
          → (elim r [
            | none ↦ lists_upgrade zlib sha1 base64 to_str (get_all (codes "connection") headers)
            | some text ↦
                any_upgrade (split text)
                || lists_upgrade zlib sha1 base64 to_str (get_all (codes "connection") headers)
          ])
            ≡ true
          → Lists ((key, value) ∷ headers) (codes "connection") (codes "upgrade")
      go none e h = inr (later h)
      go (some text) e h = elim (Bool-cases (any_upgrade (split text))) [
        | inl t ↦ inl (same, text, e, split-Names text t)
        | inr n ↦ inr (later (ground (arith, h, n)))
      ]

  connection-Lists :
      (headers : HeaderMap)
      → lists_upgrade zlib sha1 base64 to_str (get_all (codes "connection") headers) ≡ true
      → Lists headers (codes "connection") (codes "upgrade")
  unfolding lists_upgrade
  connection-Lists [] h = absurd (ground (arith, h))
  connection-Lists ((key, value) ∷ headers) h =
      by_test
        (λ values.
          lists_upgrade zlib sha1 base64 to_str values ≡ true
          → Lists ((key, value) ∷ headers) (codes "connection") (codes "upgrade"))
        (same_text key (codes "connection")) _ _
        (λ e. line-Lists key value headers (same_text→≡ key _ e) (connection-Lists headers))
        (λ n k. inr (connection-Lists headers k)) h

  verify_accept-get :
      (value : Option (List ℕ)) (key : List ℕ)
      → verify_accept zlib sha1 base64 to_str value key ≡ ok tt
      → value ≡ some (base64 (sha1 (key ++ codes "258EAFA5-E914-47DA-95CA-C5AB0DC85B11")))
  unfolding verify_accept
  verify_accept-get none key h = absurd (ground (arith, h))
  verify_accept-get (some v) key h = ap some (same_text→≡ v _ (passed _ _ _ _ h).0)

  -- A client has a connection only behind a response with status 101 whose `Upgrade` header is the
  -- word websocket, one of whose `Connection` headers has upgrade among the elements of its list
  -- between commas, spaces and tabs around it aside, and whose accept value is what RFC 6455
  -- makes of the client's key; capital letters count as small ones. What the client then settles are the
  -- extensions of that response.
  pub verify-IsAccepted :
      (response : Response) (key : List ℕ) (a : Options) (n : Negotiation)
      → verify zlib sha1 base64 to_str response key a ≡ ok n
      → IsAccepted response key
        × (new_negotiation (from_headers zlib sha1 base64 to_str response.headers) a client ≡ ok n)
  unfolding verify verify_upgrade
  verify-IsAccepted response key a n h =
      let (switch_status, h1) = passed (response.status == 101) _ _ n (unbarred _ _ _ n h) in
      let (upgraded, h2) = passed _ _ _ n h1 in
      let (listed, h3) = passed _ _ _ n h2 in
      let (accepted, settled) = followed _ _ n h3 in
      (
        record {
          switching = same_status response.status switch_status;
          upgraded = is_websocket-Says _ upgraded;
          listed = connection-Lists response.headers (unfold connection_lists_upgrade in listed);
          accept = verify_accept-get _ key accepted;
        },
        settled,
      )
