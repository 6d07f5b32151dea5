-- ===== src/Handshake/Visible.antt =====
-- The text of an answer is a header value that `to_str` reads.
use yawc.Shared.{
  ℕ, ◌≡◌, refl, Bool, true, ◌&&◌, ◌||◌, Option, none, some, [], ◌∷◌, ◌++◌, leb, ◌==◌, by_test,
  codes, decimal, arith,
}
use yawc.Negotiation.{WebSocketExtensions}
use yawc.Header.{Text, permessage_deflate}
use yawc.Header.Print.{print_window, print_flag, print_params, print}
use yawc.Header.Pieces.{window-cases, IsPrinted}
use yawc.Handshake.Windows.{HasWindows}

-- The bytes that `to_str` of a header value takes: visible ASCII, spaces and tabs.
abbrev pub is_visible : Text → Bool
is_visible [] = true
is_visible (c ∷ cs) = ((c == 9) || (leb 32 c && leb c 126)) && is_visible cs

-- A text whose bytes `to_str` takes.
abbrev pub IsVisible : Text → Type 0
IsVisible t = is_visible t ≡ true

append-IsVisible : (xs ys : Text) → IsVisible xs → IsVisible ys → IsVisible (xs ++ ys)
append-IsVisible [] ys h k = k
append-IsVisible (x ∷ xs) ys h k = ground (arith, append-IsVisible xs ys, h, k)

print_window-IsVisible :
    (key : Text) (w : Option (Option ℕ))
    → IsVisible key
    → IsPrinted w
    → IsVisible (print_window key w)
unfolding print_window
print_window-IsVisible key none k h = refl
print_window-IsVisible key (some none) k h = k
print_window-IsVisible key (some (some b)) k h =
    by_test IsVisible (leb 8 b && leb b 15) _ _
      (λ _.
        append-IsVisible (key ++ codes "=") (decimal b) (append-IsVisible key (codes "=") k refl)
          (window-cases (λ b. IsVisible (decimal b)) b h refl refl refl refl refl refl refl refl))
      (λ _. k)

print_flag-IsVisible : (key : Text) (flag : Bool) → IsVisible key → IsVisible (print_flag key flag)
unfolding print_flag
print_flag-IsVisible key flag k = by_test IsVisible flag _ _ (λ _. k) (λ _. refl)

pub print-IsVisible : (e : WebSocketExtensions) → HasWindows e → IsVisible (print e)
unfolding print print_params
print-IsVisible e h =
    let s = print_window (codes "; server_max_window_bits") e.server_max_window_bits in
    let c = print_window (codes "; client_max_window_bits") e.client_max_window_bits in
    let f = print_flag (codes "; server_no_context_takeover") e.server_no_context_takeover in
    let g = print_flag (codes "; client_no_context_takeover") e.client_no_context_takeover in
    append-IsVisible permessage_deflate (s ++ (c ++ (f ++ g))) refl (
      append-IsVisible s (c ++ (f ++ g))
        (print_window-IsVisible (codes "; server_max_window_bits") e.server_max_window_bits refl
          h.0)
        (append-IsVisible c (f ++ g)
          (print_window-IsVisible (codes "; client_max_window_bits") e.client_max_window_bits refl
            h.1)
          (append-IsVisible f g
            (print_flag-IsVisible (codes "; server_no_context_takeover")
              e.server_no_context_takeover refl)
            (print_flag-IsVisible (codes "; client_no_context_takeover")
              e.client_no_context_takeover refl))))
