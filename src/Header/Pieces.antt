-- ===== src/Header/Pieces.antt =====
-- The parameters that the printer of src/compression.rs writes, and what may stand behind one.
use yawc.Shared.{
  ℕ, ◌≤◌, ◌≡◌, ◌≢◌, sym, subst, append_assoc, inl, inr, Bool-cases, ◌==◌, leb, ◌&&◌, Bool, true,
  false, Option, none, some, [], ◌∷◌, ◌++◌, codes, arith,
}
use yawc.Negotiation.{WebSocketExtensions}
use yawc.Header.{Text}
use yawc.Header.Print.{print_window, print_flag, print_params}

-- The end of a value, the next parameter, or the next extension.
pub data IsTail : Text → Type 0 where
  ends : IsTail []
  goes_on : (rest : Text) → IsTail (b';' ∷ rest)
  next_one : (rest : Text) → IsTail (b',' ∷ rest)

-- A window that the grammar of RFC 7692 lets a message name.
abbrev pub IsWindow : ℕ → Type 0
IsWindow b = (8 ≤ b) × (b ≤ 15)

either : (P : ℕ → Type 0) (b c : ℕ) → P c → (b ≢ c → P b) → P b
either P b c here there = elim (Bool-cases (b == c)) [
  | inl e ↦ (let same : c ≡ b = ground arith in subst P same here)
  | inr e ↦ there (λ h. ground arith)
]

pub window-cases :
    (P : ℕ → Type 0) (b : ℕ)
    → IsWindow b
    → P 8
    → P 9
    → P 10
    → P 11
    → P 12
    → P 13
    → P 14
    → P 15
    → P b
window-cases P b (lo, hi) p8 p9 p10 p11 p12 p13 p14 p15 = either P b 8 p8 λ n8.
    either P b 9 p9 λ n9. either P b 10 p10 λ n10. either P b 11 p11 λ n11. either P b 12 p12 λ n12.
      either P b 13 p13 λ n13.
        either P b 14 p14 λ n14.
          either P b 15 p15 λ n15. absurd (omega (arith, n8, n9, n10, n11, n12, n13, n14, n15))

-- A window parameter without a number, or with one that the grammar has.
abbrev pub IsPrinted : Option (Option ℕ) → Type 0
IsPrinted (some (some b)) = IsWindow b
IsPrinted _ = Unit

pub print_window-IsTail :
    (key : Text) (w : Option (Option ℕ)) (rest : Text)
    → IsTail rest
    → IsTail (print_window (b';' ∷ key) w ++ rest)
unfolding print_window
print_window-IsTail key none rest h = h
print_window-IsTail key (some none) rest h = goes_on (key ++ rest)
print_window-IsTail key (some (some b)) rest h = elim (Bool-cases (leb 8 b && leb b 15)) [
  | inl e ↦ rw e (goes_on _)
  | inr e ↦ rw e (goes_on _)
]

pub print_flag-IsTail :
    (key : Text) (flag : Bool) (rest : Text)
    → IsTail rest
    → IsTail (print_flag (b';' ∷ key) flag ++ rest)
unfolding print_flag
print_flag-IsTail key true rest h = goes_on (key ++ rest)
print_flag-IsTail key false rest h = h

pub four_appends :
    (a b c d more : Text) → (a ++ (b ++ (c ++ d))) ++ more ≡ a ++ (b ++ (c ++ (d ++ more)))
four_appends a b c d more =
    cc (append_assoc a (b ++ (c ++ d)) more, append_assoc b (c ++ d) more, append_assoc c d more)

pub print_params-IsTail :
    (e : WebSocketExtensions) (rest : Text) → IsTail rest → IsTail (print_params e ++ rest)
unfolding print_params
print_params-IsTail e rest t =
    let last =
      print_flag-IsTail (codes " client_no_context_takeover") e.client_no_context_takeover rest t in
    let flags =
      print_flag-IsTail (codes " server_no_context_takeover") e.server_no_context_takeover _ last in
    let windows =
      print_window-IsTail (codes " client_max_window_bits") e.client_max_window_bits _ flags in
    subst IsTail
      (sym (
        four_appends (print_window (codes "; server_max_window_bits") e.server_max_window_bits)
          (print_window (codes "; client_max_window_bits") e.client_max_window_bits)
          (print_flag (codes "; server_no_context_takeover") e.server_no_context_takeover)
          (print_flag (codes "; client_no_context_takeover") e.client_no_context_takeover) rest))
      (print_window-IsTail (codes " server_max_window_bits") e.server_max_window_bits _ windows)
