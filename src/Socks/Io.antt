-- ===== src/Socks/Io.antt =====
-- The stream to the proxy that src/native/socks5.rs is generic over (`AsyncRead + AsyncWrite`), and
-- the sequence of awaited calls on it: a state, and a result that ends the sequence if it is an
-- error. What was written before an error stays written.
use yawc.Shared.{ℕ, ◌≡◌, List, ◌++◌, length}
use yawc.Error.{WebSocketError, io_error, Result, ok, err}

abbrev pub Action : Type 0 → Type 0 → Type 0
Action S A = S → Result A × S

module _ {S : Type 0} {A : Type 0} where
  abbrev pub pure : A → Action S A
  pure a s = (ok a, s)

  abbrev pub fail : WebSocketError → Action S A
  fail e s = (err e, s)

infixl 5 ◌>>=◌ ◌>>◌
unfoldable pub ◌>>=◌ : {S A B : Type 0} → Action S A → (A → Action S B) → Action S B
◌>>=◌ m f s = let (r, t) = m s in elim r [ ok a ↦ f a t | err e ↦ (err e, t) ]

abbrev pub ◌>>◌ : {S A B : Type 0} → Action S A → Action S B → Action S B
m >> k = m >>= λ _. k

-- The calls that the client makes of tokio's `AsyncReadExt` and `AsyncWriteExt`.
pub record Stream (S : Type 0) : Type 0 where
  pub write_all : List ℕ → Action S Unit
  pub flush : Action S Unit
  pub read_exact : ℕ → Action S (List ℕ)

-- What they do when they succeed, by the history of the connection: the bytes written to it and the
-- bytes read from it. Their errors are I/O errors, and nothing is said of what the peer sends.
pub record History {S : Type 0} (stream : Stream S) : Type 0 where
  pub sent : S → List ℕ
  pub received : S → List ℕ
  pub write_all_ok :
      (bytes : List ℕ) (s t : S) (u : Unit)
      → stream.write_all bytes s ≡ (ok u, t)
      → (sent t ≡ sent s ++ bytes) × (received t ≡ received s)
  pub flush_ok :
      (s t : S) (u : Unit)
      → stream.flush s ≡ (ok u, t)
      → (sent t ≡ sent s) × (received t ≡ received s)
  pub read_exact_ok :
      (n : ℕ) (s t : S) (bytes : List ℕ)
      → stream.read_exact n s ≡ (ok bytes, t)
      → (sent t ≡ sent s) × (received t ≡ received s ++ bytes) × (length bytes ≡ n)
  pub write_all_err :
      (bytes : List ℕ) (s t : S) (e : WebSocketError)
      → stream.write_all bytes s ≡ (err e, t)
      → e ≡ io_error
  pub flush_err : (s t : S) (e : WebSocketError) → stream.flush s ≡ (err e, t) → e ≡ io_error
  pub read_exact_err :
      (n : ℕ) (s t : S) (e : WebSocketError) → stream.read_exact n s ≡ (err e, t) → e ≡ io_error
