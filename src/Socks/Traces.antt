-- ===== src/Socks/Traces.antt =====
-- What a successful sequence of calls on the stream to the proxy has written and read, by one rule
-- for each call that the client makes.
use yawc.Shared.{
  ℕ, ◌≡◌, refl, ap, subst, ◌⊎◌, inl, inr, Bool, true, false, List, [], ◌∷◌, ◌++◌, append-nil,
  append_assoc, length, arith, arith,
}
use yawc.Error.{WebSocketError, socks5, Result, ok, err}
use yawc.Error.Socks5.{Socks5Error}
use yawc.Socks.Io.{Action, pure, fail, ◌>>=◌, ◌>>◌, Stream, History}
use yawc.Socks.{refuse_if}

pub Action-cases :
    {S A : Type 0} (p : Result A × S)
    → ((a : A) × (u : S) × (p ≡ (ok a, u))) ⊎ ((e : WebSocketError) × (u : S) × (p ≡ (err e, u)))
Action-cases (ok a, u) = inl (a, u, refl)
Action-cases (err e, u) = inr (e, u, refl)

abbrev value_or : {A : Type 0} → A → Result A → A
value_or d (ok a) = a
value_or d (err e) = d

-- What holds of every list of one, two or four bytes, byte by byte.
module _ (P : List ℕ → Type 0) where
  on_byte : ((a : ℕ) → P (a ∷ [])) → (xs : List ℕ) → length xs ≡ 1 → P xs
  on_byte k [] l = absurd (omega arith)
  on_byte k (a ∷ []) l = k a
  on_byte k (a ∷ b ∷ xs) l = absurd (omega arith)

  pub on_pair : ((a b : ℕ) → P (a ∷ b ∷ [])) → (xs : List ℕ) → length xs ≡ 2 → P xs
  on_pair k [] l = absurd (omega arith)
  on_pair k (a ∷ []) l = absurd (omega arith)
  on_pair k (a ∷ b ∷ []) l = k a b
  on_pair k (a ∷ b ∷ c ∷ xs) l = absurd (omega arith)

  pub on_quad : ((a b c d : ℕ) → P (a ∷ b ∷ c ∷ d ∷ [])) → (xs : List ℕ) → length xs ≡ 4 → P xs
  on_quad k [] l = absurd (omega arith)
  on_quad k (a ∷ []) l = absurd (omega arith)
  on_quad k (a ∷ b ∷ []) l = absurd (omega arith)
  on_quad k (a ∷ b ∷ c ∷ []) l = absurd (omega arith)
  on_quad k (a ∷ b ∷ c ∷ d ∷ []) l = k a b c d
  on_quad k (a ∷ b ∷ c ∷ d ∷ e ∷ xs) l = absurd (omega arith)

module _ {S : Type 0} {stream : Stream S} (history : History stream) where
  -- Where the sequence succeeds, `R` holds of its value, of what it wrote and of what it read.
  unfoldable pub Does : {A : Type 0} → Action S A → (A → List ℕ → List ℕ → Type 0) → Type 0
  Does m R =
      (s t : S) (a : _)
      → m s ≡ (ok a, t)
      → (w r : List ℕ) × R a w r
        × (history.sent t ≡ history.sent s ++ w)
        × (history.received t ≡ history.received s ++ r)

  >>=-ok :
      {A B : Type 0} (m : Action S A) (f : A → Action S B) (s t : S) (b : B)
      → (m >>= f) s ≡ (ok b, t)
      → (a : A) × (u : S) × (m s ≡ (ok a, u)) × (f a u ≡ (ok b, t))
  unfolding ◌>>=◌
  >>=-ok m f s t b h = elim (Action-cases (m s)) [
    | inl (a, u, e) ↦ (a, u, e, ground (arith, e, h))
    | inr (c, u, e) ↦ absurd (ground (arith, e, h))
  ]

  pub after_write :
      {A : Type 0} (bytes : List ℕ) (k : Action S A) (R : A → List ℕ → List ℕ → Type 0)
      → Does k (λ a w r. R a (bytes ++ w) r)
      → Does (stream.write_all bytes >> k) R
  unfolding Does
  after_write bytes k R d s t a h =
      let (_, u, e, f) = >>=-ok (stream.write_all bytes) (λ _. k) s t a h in
      let (w, r, p, hs, hr) = d u t a f in
      let (es, er) = history.write_all_ok bytes s u _ e in
      (bytes ++ w, r, p, cc (hs, es, append_assoc (history.sent s) bytes w), cc (hr, er))

  pub after_flush :
      {A : Type 0} (k : Action S A) (R : A → List ℕ → List ℕ → Type 0)
      → Does k R
      → Does (stream.flush >> k) R
  unfolding Does
  after_flush k R d s t a h =
      let (_, u, e, f) = >>=-ok stream.flush (λ _. k) s t a h in
      let (w, r, p, hs, hr) = d u t a f in
      let (es, er) = history.flush_ok s u _ e in (w, r, p, cc (hs, es), cc (hr, er))

  pub after_read :
      {A : Type 0} (n : ℕ) (f : List ℕ → Action S A) (R : A → List ℕ → List ℕ → Type 0)
      → ((xs : List ℕ) → length xs ≡ n → Does (f xs) (λ a w r. R a w (xs ++ r)))
      → Does (stream.read_exact n >>= f) R
  unfolding Does
  after_read n f R d s t a h =
      let (xs, u, e, g) = >>=-ok (stream.read_exact n) f s t a h in
      let (es, er, l) = history.read_exact_ok n s u xs e in
      let (w, r, p, hs, hr) = d xs l u t a g in
      (w, xs ++ r, p, cc (hs, es), cc (hr, er, append_assoc (history.received s) xs r))

  pub after_check :
      {A : Type 0} (c : Bool) (e : Socks5Error) (k : Action S A) (R : A → List ℕ → List ℕ → Type 0)
      → (c ≡ false → Does k R)
      → Does (refuse_if stream c e >> k) R
  unfolding Does refuse_if ◌>>=◌
  after_check true e k R d s t a h = absurd (ground (arith, h))
  after_check false e k R d s t a h = d refl s t a h

  pub after :
      {A B : Type 0} (m : Action S A) (f : A → Action S B) (Q : A → List ℕ → List ℕ → Type 0)
      (R : B → List ℕ → List ℕ → Type 0)
      → Does m Q
      → ((a : A) (w r : List ℕ) → Q a w r → Does (f a) (λ b v q. R b (w ++ v) (r ++ q)))
      → Does (m >>= f) R
  unfolding Does
  after m f Q R d k s t b h =
      let (a, u, e, g) = >>=-ok m f s t b h in
      let (w, r, p, hs, hr) = d s u a e in
      let (v, q, p', hs', hr') = k a w r p u t b g in
      (
        w ++ v,
        r ++ q,
        p',
        cc (hs, hs', append_assoc (history.sent s) w v),
        cc (hr, hr', append_assoc (history.received s) r q),
      )

  pub returns :
      {A : Type 0} (a : A) (R : A → List ℕ → List ℕ → Type 0) → R a [] [] → Does (pure a) R
  unfolding Does
  returns a R p s t b h = (
    [],
    [],
    subst (λ c. R c [] []) (ap (λ q. value_or a q.0) h) p,
    cc (append-nil (history.sent s), ap (λ q. q.1) h),
    cc (append-nil (history.received s), ap (λ q. q.1) h),
  )

  pub fails : {A : Type 0} (e : WebSocketError) (R : A → List ℕ → List ℕ → Type 0) → Does (fail e) R
  unfolding Does
  fails e R s t b h = absurd (ground (arith, h))

  pub weaken :
      {A : Type 0} (m : Action S A) (Q R : A → List ℕ → List ℕ → Type 0)
      → Does m Q
      → ((a : A) (w r : List ℕ) → Q a w r → R a w r)
      → Does m R
  unfolding Does
  weaken m Q R d k s t a h = let (w, r, p, es, er) = d s t a h in (w, r, k a w r p, es, er)

  pub last_flush : (R : Unit → List ℕ → List ℕ → Type 0) → R tt [] [] → Does stream.flush R
  unfolding Does
  last_flush R p s t a h =
      let (es, er) = history.flush_ok s t a h in
      ([], [], p, cc (es, append-nil (history.sent s)), cc (er, append-nil (history.received s)))

  pub last_check :
      (c : Bool) (e : Socks5Error) (R : Unit → List ℕ → List ℕ → Type 0)
      → (c ≡ false → R tt [] [])
      → Does (refuse_if stream c e) R
  unfolding refuse_if
  last_check true e R p = fails (socks5 e) R
  last_check false e R p = returns tt R (p refl)

  -- Reads of one, two and four bytes, byte by byte.
  module _ {A : Type 0} (f : List ℕ → Action S A) (R : A → List ℕ → List ℕ → Type 0) where
    abbrev Continues : List ℕ → Type 0
    Continues xs = Does (f xs) (λ x w r. R x w (xs ++ r))

    pub after_byte : ((a : ℕ) → Continues (a ∷ [])) → Does (stream.read_exact 1 >>= f) R
    after_byte k = after_read 1 f R λ xs l. on_byte Continues k xs l

    pub after_pair : ((a b : ℕ) → Continues (a ∷ b ∷ [])) → Does (stream.read_exact 2 >>= f) R
    after_pair k = after_read 2 f R λ xs l. on_pair Continues k xs l

    pub after_quad :
        ((a b c d : ℕ) → Continues (a ∷ b ∷ c ∷ d ∷ [])) → Does (stream.read_exact 4 >>= f) R
    after_quad k = after_read 4 f R λ xs l. on_quad Continues k xs l
