-- ===== src/Socks/Blames.antt =====
-- What a sequence of calls on the stream to the proxy has read when it fails with an error of the
-- dialogue, by one rule for each call that the client makes.
use yawc.Shared.{
  ℕ, ◌≡◌, ◌≢◌, refl, ap, subst, ◌⊎◌, inl, inr, Bool, true, false, ◌==◌, not, List, [], ◌∷◌, ◌++◌,
  append-nil, append_assoc, length, arith,
}
use yawc.Error.{WebSocketError, socks5, io_error, Result, ok, err}
use yawc.Error.Socks5.{Socks5Error}
use yawc.Socks.Io.{Action, ◌>>=◌, ◌>>◌, pure, fail, Stream, History}
use yawc.Socks.{refuse_if}
use yawc.Socks.Traces.{Does, Action-cases, on_pair, on_quad}

abbrev reason_or : {A : Type 0} → Socks5Error → Result A → Socks5Error
reason_or d (err (socks5 e)) = e
reason_or d _ = d

pub is_other : (a n : ℕ) → not (a == n) ≡ true → a ≢ n
is_other a n h e = ground arith

module _ {S : Type 0} {stream : Stream S} (history : History stream) where
  -- Where the sequence fails with an error of the dialogue, `E` holds of it and of what was read.
  unfoldable pub Blames : {A : Type 0} → Action S A → (List ℕ → Socks5Error → Type 0) → Type 0
  Blames m E =
      (s t : S) (e : Socks5Error)
      → m s ≡ (err (socks5 e), t)
      → (r : List ℕ) × E r e × (history.received t ≡ history.received s ++ r)

  >>=-err :
      {A B : Type 0} (m : Action S A) (f : A → Action S B) (s t : S) (e : WebSocketError)
      → (m >>= f) s ≡ (err e, t)
      → (m s ≡ (err e, t)) ⊎ ((a : A) × (u : S) × (m s ≡ (ok a, u)) × (f a u ≡ (err e, t)))
  unfolding ◌>>=◌
  >>=-err m f s t e h = elim (Action-cases (m s)) [
    | inl (a, u, c) ↦ inr (a, u, c, ground (arith, c, h))
    | inr (d, u, c) ↦ inl (ground (arith, c, h))
  ]

  io_not_socks : (e : Socks5Error) → ¬ (socks5 e ≡ io_error)
  io_not_socks e h = ground arith

  pub blame_write :
      {A : Type 0} (bytes : List ℕ) (k : Action S A) (E : List ℕ → Socks5Error → Type 0)
      → Blames k E
      → Blames (stream.write_all bytes >> k) E
  unfolding Blames
  blame_write bytes k E d s t e h =
      elim (>>=-err (stream.write_all bytes) (λ _. k) s t (socks5 e) h) [
        | inl c ↦ absurd (io_not_socks e (history.write_all_err bytes s t _ c))
        | inr (a, u, c, g) ↦
            let (r, p, er) = d u t e g in (r, p, cc (er, (history.write_all_ok bytes s u a c).1))
      ]

  pub blame_flush :
      {A : Type 0} (k : Action S A) (E : List ℕ → Socks5Error → Type 0)
      → Blames k E
      → Blames (stream.flush >> k) E
  unfolding Blames
  blame_flush k E d s t e h = elim (>>=-err stream.flush (λ _. k) s t (socks5 e) h) [
    | inl c ↦ absurd (io_not_socks e (history.flush_err s t _ c))
    | inr (a, u, c, g) ↦ let (r, p, er) = d u t e g in (r, p, cc (er, (history.flush_ok s u a c).1))
  ]

  pub blame_read :
      {A : Type 0} (n : ℕ) (f : List ℕ → Action S A) (E : List ℕ → Socks5Error → Type 0)
      → ((xs : List ℕ) → length xs ≡ n → Blames (f xs) (λ r e. E (xs ++ r) e))
      → Blames (stream.read_exact n >>= f) E
  unfolding Blames
  blame_read n f E d s t e h = elim (>>=-err (stream.read_exact n) f s t (socks5 e) h) [
    | inl c ↦ absurd (io_not_socks e (history.read_exact_err n s t _ c))
    | inr (xs, u, c, g) ↦
        let (_, er, l) = history.read_exact_ok n s u xs c in
        let (r, p, er') = d xs l u t e g in
        (xs ++ r, p, cc (er, er', append_assoc (history.received s) xs r))
  ]

  pub blame_after :
      {A B : Type 0} (m : Action S A) (f : A → Action S B) (Q : A → List ℕ → List ℕ → Type 0)
      (E : List ℕ → Socks5Error → Type 0)
      → Does history m Q
      → Blames m E
      → ((a : A) (w r : List ℕ) → Q a w r → Blames (f a) (λ q e. E (r ++ q) e))
      → Blames (m >>= f) E
  unfolding Blames Does
  blame_after m f Q E does d k s t e h = elim (>>=-err m f s t (socks5 e) h) [
    | inl c ↦ d s t e c
    | inr (a, u, c, g) ↦
        let (w, r, p, _, er) = does s u a c in
        let (q, p', er') = k a w r p u t e g in
        (r ++ q, p', cc (er, er', append_assoc (history.received s) r q))
  ]

  pub blame_fail :
      (A : Type 0) (e : Socks5Error) (E : List ℕ → Socks5Error → Type 0)
      → E [] e
      → Blames (fail {A = A} (socks5 e)) E
  unfolding Blames
  blame_fail A reason E p s t e h = (
    [],
    subst (E []) (ap (λ q. reason_or reason q.0) h) p,
    cc (append-nil (history.received s), ap (λ q. q.1) h),
  )

  pub blame_pure : {A : Type 0} (a : A) (E : List ℕ → Socks5Error → Type 0) → Blames (pure a) E
  unfolding Blames
  blame_pure a E s t e h = absurd (ground arith)

  pub blame_check :
      {A : Type 0} (c : Bool) (e : Socks5Error) (k : Action S A) (E : List ℕ → Socks5Error → Type 0)
      → (c ≡ true → E [] e)
      → (c ≡ false → Blames k E)
      → Blames (refuse_if stream c e >> k) E
  unfolding Blames refuse_if ◌>>=◌
  blame_check {A = A} true reason k E hc d s t e h = blame_fail A reason E (hc refl) s t e h
  blame_check false reason k E hc d s t e h = d refl s t e h

  pub blame_last_check :
      (c : Bool) (e : Socks5Error) (E : List ℕ → Socks5Error → Type 0)
      → (c ≡ true → E [] e)
      → Blames (refuse_if stream c e) E
  unfolding refuse_if
  blame_last_check true reason E hc = blame_fail Unit reason E (hc refl)
  blame_last_check false reason E hc = blame_pure tt E

  pub blame_last_flush : (E : List ℕ → Socks5Error → Type 0) → Blames stream.flush E
  unfolding Blames
  blame_last_flush E s t e h = absurd (io_not_socks e (history.flush_err s t _ h))

  -- Reads of two and four bytes, byte by byte.
  module _ {A : Type 0} (f : List ℕ → Action S A) (E : List ℕ → Socks5Error → Type 0) where
    pub blame_pair :
        ((a b : ℕ) → Blames (f (a ∷ b ∷ [])) (λ r e. E (a ∷ b ∷ r) e))
        → Blames (stream.read_exact 2 >>= f) E
    blame_pair k =
        blame_read 2 f E λ xs l. on_pair (λ xs. Blames (f xs) (λ r e. E (xs ++ r) e)) k xs l

    pub blame_quad :
        ((a b c d : ℕ) → Blames (f (a ∷ b ∷ c ∷ d ∷ [])) (λ r e. E (a ∷ b ∷ c ∷ d ∷ r) e))
        → Blames (stream.read_exact 4 >>= f) E
    blame_quad k =
        blame_read 4 f E λ xs l. on_quad (λ xs. Blames (f xs) (λ r e. E (xs ++ r) e)) k xs l
