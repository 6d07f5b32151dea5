-- ===== src/Header/Offered.antt =====
-- A server's reading (src/compression/offer.rs) of the offers that src/compression.rs prints.
use yawc.Shared.{
  ℕ, zero, suc, ◌≤◌, ◌<◌, ◌≡◌, refl, sym, ap, subst, Bool, true, false, Option, none, some, List,
  [], ◌∷◌, ◌++◌, length, length-append, append_assoc, leb, ◌&&◌, if◌then◌else◌, codes, decimal,
  arith,
}
use yawc.Negotiation.{WebSocketExtensions}
use yawc.Header.{
  Text, Param, is_tchar, skip_whitespace, eat, span_token, token, value, with_value, param, params,
}
use yawc.Header.Print.{print_window, print_flag, print_params}
use yawc.Header.Pieces.{
  IsTail, ends, goes_on, next_one, IsWindow, window-cases, IsPrinted, four_appends,
  print_window-IsTail, print_flag-IsTail,
}

-- The parser finds the parameters in the input before `rest`, on enough fuel.
unfoldable pub Finds : Text → List Param → Text → Type 0
Finds input found rest = (fuel : ℕ) → length input < fuel → params fuel input ≡ some (found, rest)

-- The parameters that a window and a flag print.
abbrev pub window_params : Text → Option (Option ℕ) → List Param → List Param
window_params key none more = more
window_params key (some none) more = (key, none) ∷ more
window_params key (some (some b)) more = (key, some (decimal b)) ∷ more

abbrev pub flag_params : Text → Bool → List Param → List Param
flag_params key flag more = if flag then (key, none) ∷ more else more

pub end-Finds : (rest : Text) → Finds (b',' ∷ rest) [] (b',' ∷ rest)
unfolding Finds params skip_whitespace eat
end-Finds rest zero h = absurd (omega arith)
end-Finds rest (suc fuel) h = refl

pub nil-Finds : Finds [] [] []
unfolding Finds params skip_whitespace eat
nil-Finds zero h = absurd (omega arith)
nil-Finds (suc fuel) h = refl

param-Finds :
    (input more rest : Text) (first : Param) (found : List Param)
    → param input ≡ some (first, more)
    → length more ≤ length input
    → Finds more found rest
    → Finds (b';' ∷ input) (first ∷ found) rest
unfolding Finds params skip_whitespace eat
param-Finds input more rest first found e l h zero m = absurd (omega arith)
param-Finds input more rest first found e l h (suc fuel) m = ground (arith, e, h fuel (omega arith))

abbrev Bare : Text → Text → Type 0
Bare key rest = param (b' ' ∷ (key ++ rest)) ≡ some ((key, none), rest)

bare :
    (key : Text)
    → Bare key []
    → ((rest : Text) → Bare key (b';' ∷ rest))
    → ((rest : Text) → Bare key (b',' ∷ rest))
    → (rest : Text) → IsTail rest
    → Bare key rest
bare key h k l _ ends = h
bare key h k l _ (goes_on rest) = k rest
bare key h k l _ (next_one rest) = l rest

value-decimal :
    (b : ℕ) (rest : Text)
    → IsWindow b
    → IsTail rest
    → value (skip_whitespace (decimal b ++ rest)) ≡ some (decimal b, rest)
unfolding value token span_token skip_whitespace eat is_tchar
value-decimal b _ w ends =
    window-cases (λ b. value (skip_whitespace (decimal b ++ [])) ≡ some (decimal b, [])) b w refl
      refl refl refl refl refl refl refl
value-decimal b _ w (goes_on rest) =
    window-cases
      (λ b. value (skip_whitespace (decimal b ++ (b';' ∷ rest))) ≡ some (decimal b, b';' ∷ rest)) b
      w refl refl refl refl refl refl refl refl
value-decimal b _ w (next_one rest) =
    window-cases
      (λ b. value (skip_whitespace (decimal b ++ (b',' ∷ rest))) ≡ some (decimal b, b',' ∷ rest)) b
      w refl refl refl refl refl refl refl refl

server-Finds :
    (w : Option (Option ℕ)) (more rest : Text) (found : List Param)
    → IsPrinted w
    → IsTail more
    → Finds more found rest
    → Finds
        (print_window (codes "; server_max_window_bits") w ++ more)
        (window_params (codes "server_max_window_bits") w found)
        rest
unfolding print_window param token span_token is_tchar skip_whitespace eat with_value
server-Finds none more rest found p t h = h
server-Finds (some none) more rest found p t h =
    let key = codes "server_max_window_bits" in
    param-Finds _ more rest (key, none) found (bare key refl (λ r. refl) (λ r. refl) more t)
      (omega (arith, length-append key more)) h
server-Finds (some (some b)) more rest found p t h =
    let key = codes "server_max_window_bits" in
    let negotiable : (leb 8 b && leb b 15) ≡ true = ground arith in
    rw negotiable (
      rw (append_assoc (codes "; server_max_window_bits=") (decimal b) more) (
        param-Finds _ more rest (key, some (decimal b)) found
          (ap (with_value key) (value-decimal b more p t))
          (omega (arith, length-append (decimal b) more)) h))

client-Finds :
    (w : Option (Option ℕ)) (more rest : Text) (found : List Param)
    → IsPrinted w
    → IsTail more
    → Finds more found rest
    → Finds
        (print_window (codes "; client_max_window_bits") w ++ more)
        (window_params (codes "client_max_window_bits") w found)
        rest
unfolding print_window param token span_token is_tchar skip_whitespace eat with_value
client-Finds none more rest found p t h = h
client-Finds (some none) more rest found p t h =
    let key = codes "client_max_window_bits" in
    param-Finds _ more rest (key, none) found (bare key refl (λ r. refl) (λ r. refl) more t)
      (omega (arith, length-append key more)) h
client-Finds (some (some b)) more rest found p t h =
    let key = codes "client_max_window_bits" in
    let negotiable : (leb 8 b && leb b 15) ≡ true = ground arith in
    rw negotiable (
      rw (append_assoc (codes "; client_max_window_bits=") (decimal b) more) (
        param-Finds _ more rest (key, some (decimal b)) found
          (ap (with_value key) (value-decimal b more p t))
          (omega (arith, length-append (decimal b) more)) h))

server_flag-Finds :
    (flag : Bool) (more rest : Text) (found : List Param)
    → IsTail more
    → Finds more found rest
    → Finds
        (print_flag (codes "; server_no_context_takeover") flag ++ more)
        (flag_params (codes "server_no_context_takeover") flag found)
        rest
unfolding print_flag param token span_token is_tchar skip_whitespace eat
server_flag-Finds false more rest found t h = h
server_flag-Finds true more rest found t h =
    let key = codes "server_no_context_takeover" in
    param-Finds _ more rest (key, none) found (bare key refl (λ r. refl) (λ r. refl) more t)
      (omega (arith, length-append key more)) h

client_flag-Finds :
    (flag : Bool) (more rest : Text) (found : List Param)
    → IsTail more
    → Finds more found rest
    → Finds
        (print_flag (codes "; client_no_context_takeover") flag ++ more)
        (flag_params (codes "client_no_context_takeover") flag found)
        rest
unfolding print_flag param token span_token is_tchar skip_whitespace eat
client_flag-Finds false more rest found t h = h
client_flag-Finds true more rest found t h =
    let key = codes "client_no_context_takeover" in
    param-Finds _ more rest (key, none) found (bare key refl (λ r. refl) (λ r. refl) more t)
      (omega (arith, length-append key more)) h

-- The parameters that `Display` prints.
abbrev pub params_of : WebSocketExtensions → List Param
params_of e = window_params (codes "server_max_window_bits") e.server_max_window_bits (
    window_params (codes "client_max_window_bits") e.client_max_window_bits (
      flag_params (codes "server_no_context_takeover") e.server_no_context_takeover
        (flag_params (codes "client_no_context_takeover") e.client_no_context_takeover [])))

pub params-Finds :
    (e : WebSocketExtensions) (more : Text)
    → IsPrinted e.server_max_window_bits
    → IsPrinted e.client_max_window_bits
    → IsTail more
    → Finds more [] more
    → Finds (print_params e ++ more) (params_of e) more
unfolding print_params
params-Finds e more hs hc t h =
    let flag = print_flag (codes "; client_no_context_takeover") e.client_no_context_takeover in
    let last =
      print_flag-IsTail (codes " client_no_context_takeover") e.client_no_context_takeover more t in
    let flags =
      print_flag-IsTail (codes " server_no_context_takeover") e.server_no_context_takeover _ last in
    let windows =
      print_window-IsTail (codes " client_max_window_bits") e.client_max_window_bits _ flags in
    let found = server-Finds e.server_max_window_bits _ more _ hs windows (
      client-Finds e.client_max_window_bits _ more _ hc flags (
        server_flag-Finds e.server_no_context_takeover _ more _ last
          (client_flag-Finds e.client_no_context_takeover more more [] t h))) in
    subst (λ input. Finds input (params_of e) more)
      (sym (
        four_appends (print_window (codes "; server_max_window_bits") e.server_max_window_bits)
          (print_window (codes "; client_max_window_bits") e.client_max_window_bits)
          (print_flag (codes "; server_no_context_takeover") e.server_no_context_takeover) flag
          more))
      found
