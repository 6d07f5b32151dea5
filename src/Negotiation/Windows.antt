-- ===== src/Negotiation/Windows.antt =====
-- The windows that src/compression.rs and src/native/options.rs settle.
use yawc.Shared.{
  ℕ, ◌≤◌, ◌≡◌, ◌≢◌, refl, subst, inl, inr, Bool-cases, Bool, true, false, Option, none, some, List,
  [], ◌∷◌, arith,
}
use yawc.Negotiation.{
  WebSocketExtensions, DeflateOptions, merge, merge_client, merge_server, answer_window, clamp,
  map_option, is_too_small, find_offer, agree,
}

-- An offer as the header parser gives it: windows of 8 to 15 bits.
abbrev pub IsWindow : Option (Option ℕ) → Type 0
IsWindow (some (some b)) = (8 ≤ b) × (b ≤ 15)
IsWindow _ = Unit

-- The answer on a window is within what the offer and RFC 7692 allow, and from `least` bits on.
abbrev pub Honours : ℕ → Option (Option ℕ) → Option (Option ℕ) → Type 0
Honours least offered none = (b : ℕ) → offered ≢ some (some b)
Honours least offered (some none) = ⊥
Honours least (some (some c)) (some (some b)) = (least ≤ b) × (b ≤ c)
Honours least _ (some (some b)) = (least ≤ b) × (b ≤ 15)

-- What the answer `r` of a server owes to the offer `x` of a client.
pub record IsAnswer (x r : WebSocketExtensions) : Type 0 where
  pub server_window : Honours 9 x.server_max_window_bits r.server_max_window_bits
  pub client_window :
      (x.client_max_window_bits ≡ none → r.client_max_window_bits ≡ none)
      × (x.client_max_window_bits ≢ none
          → Honours 8 x.client_max_window_bits r.client_max_window_bits)
  pub server_context : x.server_no_context_takeover ≡ true → r.server_no_context_takeover ≡ true
  pub client_context : x.client_no_context_takeover ≡ true → r.client_no_context_takeover ≡ true

merge_server-Honours :
    (offered : Option (Option ℕ)) (preference : Option ℕ)
    → IsWindow offered
    → ((b : ℕ) → offered ≡ some (some b) → 9 ≤ b)
    → Honours 9 offered (merge_server offered (map_option (clamp 9 15) preference))
unfolding merge_server answer_window clamp
merge_server-Honours none none w h = λ b e. ground (arith, e)
merge_server-Honours none (some s) w h = ground arith
merge_server-Honours (some none) none w h = ground arith
merge_server-Honours (some none) (some s) w h = ground arith
merge_server-Honours (some (some c)) none w h = ground (arith, h c refl)
merge_server-Honours (some (some c)) (some s) w h = ground (arith, h c refl)

merge_client-Honours :
    (offered : Option (Option ℕ)) (preference : Option ℕ)
    → IsWindow offered
    → offered ≢ none
    → Honours 8 offered (merge_client offered (map_option (clamp 8 15) preference))
unfolding merge_client answer_window clamp
merge_client-Honours none p w n = absurd (n refl)
merge_client-Honours (some none) none w n = ground arith
merge_client-Honours (some none) (some s) w n = ground arith
merge_client-Honours (some (some c)) none w n = ground arith
merge_client-Honours (some (some c)) (some s) w n = ground arith

abbrev pub AreWindows : List WebSocketExtensions → Type 0
AreWindows [] = Unit
AreWindows (x ∷ xs) =
    IsWindow x.server_max_window_bits × IsWindow x.client_max_window_bits × AreWindows xs

-- `x` is the first of the offers whose server window is not too small.
pub data IsFirst (zlib : Bool) (x : WebSocketExtensions) : List WebSocketExtensions → Type 0 where
  here : {xs : List WebSocketExtensions} → is_too_small zlib x ≡ false → IsFirst zlib x (x ∷ xs)
  there :
      {y : WebSocketExtensions} {xs : List WebSocketExtensions}
      → is_too_small zlib y ≡ true
      → IsFirst zlib x xs
      → IsFirst zlib x (y ∷ xs)

usable :
    (x : WebSocketExtensions)
    → is_too_small true x ≡ false
    → (b : ℕ) → x.server_max_window_bits ≡ some (some b)
    → 9 ≤ b
unfolding is_too_small
usable x h b e = ground (arith, h, e)

merge-IsAnswer :
    (o : DeflateOptions) (x : WebSocketExtensions)
    → IsWindow x.server_max_window_bits
    → IsWindow x.client_max_window_bits
    → is_too_small true x ≡ false
    → IsAnswer x (merge true o x)
unfolding merge
merge-IsAnswer o x ws wc h = record {
  server_window =
      merge_server-Honours x.server_max_window_bits o.server_max_window_bits ws (usable x h);
  client_window = (
    λ e. unfold merge_client in rw e,
    λ n. merge_client-Honours x.client_max_window_bits o.client_max_window_bits wc n,
  );
  server_context = λ e. ground (arith, e);
  client_context = λ e. ground (arith, e);
}

-- A server with zlib answers the first offer whose server window it can use, and its answer keeps
-- within that offer: no window is larger than offered or outside of 8 to 15 bits, the server's has
-- at least 9, a client that did not offer a window gets none back, and context takeover stays off
-- where the client asked for that. The offers have windows of 8 to 15 bits, which the header parser
-- checks.
pub agree-IsAnswer :
    (o : DeflateOptions) (offers : List WebSocketExtensions) (r : WebSocketExtensions)
    → AreWindows offers
    → agree true (some o) offers ≡ some r
    → (x : WebSocketExtensions) × IsFirst true x offers × IsAnswer x r
unfolding agree find_offer
agree-IsAnswer o [] r w e = absurd (ground (arith, e))
agree-IsAnswer o (x ∷ xs) r (ws, wc, rest) e = elim (Bool-cases (is_too_small true x)) [
  | inl small ↦
      let (y, first, answer) = agree-IsAnswer o xs r rest (ground (arith, small, e)) in
      (y, there small first, answer)
  | inr fits ↦
      let same : merge true o x ≡ r = ground (arith, fits, e) in
      (x, here fits, subst (λ a. IsAnswer x a) same (merge-IsAnswer o x ws wc fits))
]
