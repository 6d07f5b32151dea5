-- ===== src/Header/Answers.antt =====
-- A client's reading of the extensions that src/compression.rs prints.
use yawc.Shared.{
  ℕ, zero, suc, ◌≤◌, ◌<◌, ◌≡◌, refl, ap, subst, Bool, true, false, Option, none, some, [], ◌∷◌,
  ◌++◌, length, length-append, append-nil, append_assoc, leb, ◌&&◌, if◌then◌else◌, codes, decimal,
  parse_u8, arith,
}
use yawc.Negotiation.{WebSocketExtensions}
use yawc.Header.{Text, eat, skip_whitespace}
use yawc.Header.Offers.{no_extensions}
use yawc.Header.Print.{
  print_window, print_flag, print_params, print, is_key, span, digits, answer_value,
  parse_extension, parse_bits, set_param, parse_extensions, from_str,
}
use yawc.Header.Pieces.{
  IsTail, ends, goes_on, next_one, IsWindow, window-cases, IsPrinted, print_window-IsTail,
}

-- The parser turns the settings `this` and the input into the result, on enough fuel.
Reads : WebSocketExtensions → Text → WebSocketExtensions → Type 0
Reads this input result =
    (fuel : ℕ) → length input < fuel → parse_extensions fuel this input ≡ some result

end-Reads : (this : WebSocketExtensions) → Reads this [] this
unfolding Reads parse_extensions
end-Reads this zero h = absurd (omega arith)
end-Reads this (suc fuel) h = refl

param-Reads :
    (this result : WebSocketExtensions) (c : ℕ) (input key rest : Text) (value : Option Text)
    → parse_extension (c ∷ input) ≡ some ((key, value), rest)
    → length rest ≤ length input
    → Reads (set_param this key value) rest result
    → Reads this (c ∷ input) result
unfolding Reads parse_extensions
param-Reads this result c input key rest value e l h zero m = absurd (omega arith)
param-Reads this result c input key rest value e l h (suc fuel) m =
    ground (arith, e, h fuel (omega arith))

digits-decimal :
    (b : ℕ) (rest : Text)
    → IsWindow b
    → IsTail rest
    → digits (skip_whitespace (decimal b ++ rest)) ≡ (some (decimal b), rest)
unfolding span digits skip_whitespace
digits-decimal b _ w ends =
    window-cases (λ b. digits (skip_whitespace (decimal b ++ [])) ≡ (some (decimal b), [])) b w refl
      refl refl refl refl refl refl refl
digits-decimal b _ w (goes_on rest) =
    window-cases
      (λ b. digits (skip_whitespace (decimal b ++ (b';' ∷ rest))) ≡ (some (decimal b), b';' ∷ rest))
      b w refl refl refl refl refl refl refl refl
digits-decimal b _ w (next_one rest) =
    window-cases
      (λ b. digits (skip_whitespace (decimal b ++ (b',' ∷ rest))) ≡ (some (decimal b), b',' ∷ rest))
      b w refl refl refl refl refl refl refl refl

-- A parameter without a value.
abbrev Bare : Text → Text → Type 0
Bare key rest = parse_extension (b';' ∷ (b' ' ∷ (key ++ rest))) ≡ some ((key, none), rest)

bare :
    (key : Text)
    → Bare key []
    → ((rest : Text) → Bare key (b';' ∷ rest))
    → ((rest : Text) → Bare key (b',' ∷ rest))
    → (rest : Text) → IsTail rest
    → Bare key rest
bare key h k l _ ends = h
bare key h k l _ (goes_on rest) = k rest
bare key h k l _ (next_one rest) = l rest

parse_u8-decimal : (b : ℕ) → IsWindow b → parse_u8 (decimal b) ≡ some b
parse_u8-decimal b w =
    window-cases (λ b. parse_u8 (decimal b) ≡ some b) b w refl refl refl refl refl refl refl refl

abbrev set_server : WebSocketExtensions → Option (Option ℕ) → WebSocketExtensions
set_server this none = this
set_server this (some w) = record this { server_max_window_bits = some w }

abbrev set_client : WebSocketExtensions → Option (Option ℕ) → WebSocketExtensions
set_client this none = this
set_client this (some w) = record this { client_max_window_bits = some w }

abbrev set_server_flag : WebSocketExtensions → Bool → WebSocketExtensions
set_server_flag this flag = if flag then record this { server_no_context_takeover = true } else this

abbrev set_client_flag : WebSocketExtensions → Bool → WebSocketExtensions
set_client_flag this flag = if flag then record this { client_no_context_takeover = true } else this

server-Reads :
    (this result : WebSocketExtensions) (w : Option (Option ℕ)) (rest : Text)
    → IsPrinted w
    → IsTail rest
    → Reads (set_server this w) rest result
    → Reads this (print_window (codes "; server_max_window_bits") w ++ rest) result
unfolding print_window parse_extension span answer_value is_key digits skip_whitespace eat set_param
    parse_bits
server-Reads this result none rest p t h = h
server-Reads this result (some none) rest p t h =
    let key = codes "server_max_window_bits" in
    param-Reads this result _ _ key rest none (bare key refl (λ r. refl) (λ r. refl) rest t)
      (omega (arith, length-append key rest)) h
server-Reads this result (some (some b)) rest p t h =
    let key = codes "server_max_window_bits" in
    let negotiable : (leb 8 b && leb b 15) ≡ true = ground arith in
    rw negotiable (
      rw (append_assoc (codes "; server_max_window_bits=") (decimal b) rest) (
        param-Reads this result _ _ key rest (some (decimal b))
          (ap (λ (q : Option Text × Text). some ((key, q.0), q.1)) (digits-decimal b rest p t))
          (omega (arith, length-append (decimal b) rest)) (rw (parse_u8-decimal b p) h)))

client-Reads :
    (this result : WebSocketExtensions) (w : Option (Option ℕ)) (rest : Text)
    → IsPrinted w
    → IsTail rest
    → Reads (set_client this w) rest result
    → Reads this (print_window (codes "; client_max_window_bits") w ++ rest) result
unfolding print_window parse_extension span answer_value is_key digits skip_whitespace eat set_param
    parse_bits
client-Reads this result none rest p t h = h
client-Reads this result (some none) rest p t h =
    let key = codes "client_max_window_bits" in
    param-Reads this result _ _ key rest none (bare key refl (λ r. refl) (λ r. refl) rest t)
      (omega (arith, length-append key rest)) h
client-Reads this result (some (some b)) rest p t h =
    let key = codes "client_max_window_bits" in
    let negotiable : (leb 8 b && leb b 15) ≡ true = ground arith in
    rw negotiable (
      rw (append_assoc (codes "; client_max_window_bits=") (decimal b) rest) (
        param-Reads this result _ _ key rest (some (decimal b))
          (ap (λ (q : Option Text × Text). some ((key, q.0), q.1)) (digits-decimal b rest p t))
          (omega (arith, length-append (decimal b) rest)) (rw (parse_u8-decimal b p) h)))

server_flag-Reads :
    (this result : WebSocketExtensions) (flag : Bool) (rest : Text)
    → IsTail rest
    → Reads (set_server_flag this flag) rest result
    → Reads this (print_flag (codes "; server_no_context_takeover") flag ++ rest) result
unfolding print_flag parse_extension span answer_value is_key digits skip_whitespace eat set_param
server_flag-Reads this result false rest t h = h
server_flag-Reads this result true rest t h =
    let key = codes "server_no_context_takeover" in
    param-Reads this result _ _ key rest none (bare key refl (λ r. refl) (λ r. refl) rest t)
      (omega (arith, length-append key rest)) h

client_flag-Reads :
    (this result : WebSocketExtensions) (flag : Bool) (rest : Text)
    → IsTail rest
    → Reads (set_client_flag this flag) rest result
    → Reads this (print_flag (codes "; client_no_context_takeover") flag ++ rest) result
unfolding print_flag parse_extension span answer_value is_key digits skip_whitespace eat set_param
client_flag-Reads this result false rest t h = h
client_flag-Reads this result true rest t h =
    let key = codes "client_no_context_takeover" in
    param-Reads this result _ _ key rest none (bare key refl (λ r. refl) (λ r. refl) rest t)
      (omega (arith, length-append key rest)) h

print_flag-IsTail_end :
    (client : Bool) → IsTail (print_flag (codes "; client_no_context_takeover") client)
unfolding print_flag
print_flag-IsTail_end true = goes_on _
print_flag-IsTail_end false = ends

IsTail-flags :
    (server client : Bool)
    → IsTail (
        print_flag (codes "; server_no_context_takeover") server
        ++ print_flag (codes "; client_no_context_takeover") client)
unfolding print_flag
IsTail-flags true client = goes_on _
IsTail-flags false true = goes_on _
IsTail-flags false false = ends

abbrev settle : WebSocketExtensions → WebSocketExtensions
settle e =
    let windows =
      set_client (set_server no_extensions e.server_max_window_bits) e.client_max_window_bits in
    set_client_flag (set_server_flag windows e.server_no_context_takeover)
      e.client_no_context_takeover

settle_lem : (e : WebSocketExtensions) → settle e ≡ e
settle_lem e = ground arith

params-Reads :
    (e : WebSocketExtensions)
    → IsPrinted e.server_max_window_bits
    → IsPrinted e.client_max_window_bits
    → Reads no_extensions (print_params e) e
unfolding print_params
params-Reads e hs hc =
    let flags = IsTail-flags e.server_no_context_takeover e.client_no_context_takeover in
    let windows =
      print_window-IsTail (codes " client_max_window_bits") e.client_max_window_bits _ flags in
    let base =
      set_server_flag
        (set_client (set_server no_extensions e.server_max_window_bits) e.client_max_window_bits)
        e.server_no_context_takeover in
    server-Reads no_extensions e e.server_max_window_bits _ hs windows (
      client-Reads _ e e.client_max_window_bits _ hc flags (
        server_flag-Reads _ e e.server_no_context_takeover _
          (print_flag-IsTail_end e.client_no_context_takeover)
          (subst (λ t. Reads base t e) (append-nil _)
            (client_flag-Reads _ e e.client_no_context_takeover [] ends
              (subst (λ r. Reads (settle e) [] r) (settle_lem e) (end-Reads (settle e)))))))

-- A client reads back the very extensions that `Display` prints, if their windows are numbers that
-- RFC 7692 has, or stand without a number.
pub from_str-print :
    (e : WebSocketExtensions)
    → IsPrinted e.server_max_window_bits
    → IsPrinted e.client_max_window_bits
    → from_str (print e) ≡ some e
unfolding from_str print Reads
from_str-print e hs hc = params-Reads e hs hc (suc (length (print_params e))) (omega arith)
