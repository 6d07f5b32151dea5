-- ===== src/Socks/Script.antt =====
-- The SOCKS5 client of src/native/socks5.rs against a proxy whose answers are given: a stream that
-- hands out a list of bytes and keeps what is written to it.
use yawc.Shared.{
  ℕ, ◌+◌, ◌≡◌, ap, ◌∙◌, false, Option, none, some, List, [], ◌∷◌, ◌++◌, append-nil, append_assoc,
  length, inl, inr, Option-cases, split_exact, split_exact-length, length-split_exact, arith,
}
use yawc.Error.{WebSocketError, io_error, Result, ok, err}
use yawc.Socks.Io.{◌>>=◌, pure, Stream, History}
use yawc.Socks.{
  Auth, Target, greeting, auth_request, connect_request, method_from_code, address_from_code,
  refuse_if, authenticate, run_method, negotiate, send_request, address_len, read_reply,
  run_connect, is_too_long, connect,
}
use yawc.Socks.Dialogue.{
  Settles, without_auth, with_auth, IsGranted, bound_ipv4, bound_ipv6, bound_domain,
}

pub record Script : Type 0 where
  pub incoming : List ℕ
  pub received : List ℕ
  pub sent : List ℕ

-- A script that ends too early is an end of file.
unfoldable pub script : Stream Script
script = record {
  write_all = λ bytes s. (ok tt, record s { sent = s.sent ++ bytes });
  flush = λ s. (ok tt, s);
  read_exact = λ n s. elim (split_exact n s.incoming) [
    | none ↦ (err io_error, s)
    | some (xs, rest) ↦ (ok xs, record s { incoming = rest; received = s.received ++ xs })
  ];
}

pub write_all_ok :
    (bytes : List ℕ) (s t : Script) (u : Unit)
    → script.write_all bytes s ≡ (ok u, t)
    → (t.sent ≡ s.sent ++ bytes) × (t.received ≡ s.received)
unfolding script
write_all_ok bytes s t u h = (ground arith, ground arith)

pub flush_ok :
    (s t : Script) (u : Unit)
    → script.flush s ≡ (ok u, t)
    → (t.sent ≡ s.sent) × (t.received ≡ s.received)
unfolding script
flush_ok s t u h = (ground arith, ground arith)

pub write_all_err :
    (bytes : List ℕ) (s t : Script) (e : WebSocketError)
    → script.write_all bytes s ≡ (err e, t)
    → e ≡ io_error
unfolding script
write_all_err bytes s t e h = absurd (ground arith)

pub flush_err : (s t : Script) (e : WebSocketError) → script.flush s ≡ (err e, t) → e ≡ io_error
unfolding script
flush_err s t e h = absurd (ground arith)

pub read_exact_ok :
    (n : ℕ) (s t : Script) (bytes : List ℕ)
    → script.read_exact n s ≡ (ok bytes, t)
    → (t.sent ≡ s.sent) × (t.received ≡ s.received ++ bytes) × (length bytes ≡ n)
unfolding script
read_exact_ok n s t bytes h = elim (Option-cases (split_exact n s.incoming)) [
  | inl e ↦ absurd (ground (arith, e))
  | inr ((xs, rest), e) ↦ ground (arith, e, length-split_exact n s.incoming (xs, rest) e)
]

pub read_exact_err :
    (n : ℕ) (s t : Script) (e : WebSocketError) → script.read_exact n s ≡ (err e, t) → e ≡ io_error
unfolding script
read_exact_err n s t e h = elim (Option-cases (split_exact n s.incoming)) [
  | inl c ↦ ground (arith, c)
  | inr (p, c) ↦ absurd (ground (arith, c))
]

unfoldable pub script_history : History script
script_history = record {
  sent = λ s. s.sent;
  received = λ s. s.received;
  write_all_ok = write_all_ok;
  flush_ok = flush_ok;
  read_exact_ok = read_exact_ok;
  write_all_err = write_all_err;
  flush_err = flush_err;
  read_exact_err = read_exact_err;
}

-- The answers of a proxy that lets the client in, and then the rest of its bytes.
negotiate-script :
    (auth : Option Auth) (c x rest p q : List ℕ)
    → Settles auth c x
    → negotiate script auth (record { incoming = x ++ rest; received = p; sent = q })
      ≡ (ok tt, record { incoming = rest; received = p ++ x; sent = q ++ (greeting auth ++ c) })
unfolding negotiate run_method authenticate script ◌>>=◌ refuse_if method_from_code
negotiate-script _ c x rest p q (without_auth auth) = cc (append-nil (greeting auth))
negotiate-script _ c x rest p q (with_auth auth) = cc (
  append_assoc p (5 ∷ 2 ∷ []) (1 ∷ 0 ∷ []),
  append_assoc q (greeting (some auth)) (auth_request auth),
)

abbrev now : List ℕ → List ℕ → List ℕ → Result (Unit {0}) × Script
now rest q r = (ok tt, record { incoming = rest; received = r; sent = q })

read_bound :
    (n : ℕ) (bound rest p q : List ℕ)
    → length bound ≡ n
    → (script.read_exact n >>= λ _. pure tt)
        (record { incoming = bound ++ rest; received = p; sent = q })
      ≡ now rest q (p ++ bound)
unfolding script ◌>>=◌
read_bound n bound rest p q l = ground (arith, split_exact-length n bound rest l)

read_reply-script :
    (y rest p q : List ℕ)
    → IsGranted y
    → read_reply script (record { incoming = y ++ rest; received = p; sent = q })
      ≡ (ok tt, record { incoming = rest; received = p ++ y; sent = q })
unfolding read_reply address_len script ◌>>=◌ refuse_if address_from_code
read_reply-script _ rest p q (bound_ipv4 reserved bound l) =
    read_bound 6 bound rest (p ++ (5 ∷ 0 ∷ reserved ∷ 1 ∷ [])) q l
    ∙ ap (now rest q) (append_assoc p (5 ∷ 0 ∷ reserved ∷ 1 ∷ []) bound)
read_reply-script _ rest p q (bound_ipv6 reserved bound l) =
    read_bound 18 bound rest (p ++ (5 ∷ 0 ∷ reserved ∷ 4 ∷ [])) q l
    ∙ ap (now rest q) (append_assoc p (5 ∷ 0 ∷ reserved ∷ 4 ∷ []) bound)
read_reply-script _ rest p q (bound_domain reserved n bound l) =
    read_bound (n + 2) bound rest ((p ++ (5 ∷ 0 ∷ reserved ∷ 3 ∷ [])) ++ (n ∷ [])) q l
    ∙ ap (now rest q) (
        append_assoc (p ++ (5 ∷ 0 ∷ reserved ∷ 3 ∷ [])) (n ∷ []) bound
        ∙ append_assoc p (5 ∷ 0 ∷ reserved ∷ 3 ∷ []) (n ∷ bound))

-- If the proxy chooses a method that was offered, accepts the credentials if it asks for them and
-- grants the request, then `connect` succeeds for every target whose host name fits, has sent the
-- greeting, the credentials where asked and the request, and leaves the bytes of the tunnel unread.
pub connect-opens :
    (auth : Option Auth) (target : Target) (c x y tunnel : List ℕ)
    → Settles auth c x
    → IsGranted y
    → is_too_long target ≡ false
    → connect script auth target
        (record { incoming = x ++ (y ++ tunnel); received = []; sent = [] })
      ≡ (
        ok tt,
        record {
          incoming = tunnel;
          received = x ++ y;
          sent = greeting auth ++ c ++ connect_request target;
        },
      )
unfolding connect run_connect send_request script ◌>>=◌
connect-opens auth target c x y tunnel hx hy e = ground (
  arith,
  e,
  negotiate-script auth c x (y ++ tunnel) [] [] hx,
  read_reply-script y tunnel x (greeting auth ++ c ++ connect_request target) hy,
)
