-- ===== src/Header/Accepted.antt =====
-- The parameters that src/compression.rs prints make an offer that a server accepts
-- (src/compression/offer.rs).
use yawc.Shared.{
  ℕ, ◌≡◌, refl, ◌∙◌, Bool, true, false, Option, none, some, List, [], ◌∷◌, ◌++◌, codes, decimal,
  arith,
}
use yawc.Negotiation.{WebSocketExtensions}
use yawc.Header.{Text, Param}
use yawc.Header.Offers.{no_extensions, window_bits, apply_param, is_repeated, apply_params, offer}
use yawc.Header.Pieces.{IsWindow, window-cases, IsPrinted}
use yawc.Header.Offered.{flag_params, window_params, params_of}

abbrev pub IsServerWindow : Option (Option ℕ) → Type 0
IsServerWindow none = Unit
IsServerWindow (some none) = ⊥
IsServerWindow (some (some b)) = IsWindow b

-- An offer that RFC 7692 lets a server accept: the windows are from 8 to 15, and only the client's can
-- stand without a number.
abbrev pub IsAcceptable : WebSocketExtensions → Type 0
IsAcceptable e = IsServerWindow e.server_max_window_bits × IsPrinted e.client_max_window_bits

abbrev windows : Option (Option ℕ) → Option (Option ℕ) → WebSocketExtensions
windows s c = record no_extensions { server_max_window_bits = s; client_max_window_bits = c }

window_bits-decimal : (b : ℕ) → IsWindow b → window_bits (decimal b) ≡ some b
unfolding window_bits
window_bits-decimal b w =
    window-cases (λ b. window_bits (decimal b) ≡ some b) b w refl refl refl refl refl refl refl refl

-- One parameter that is not among the earlier ones.
apply_one :
    (earlier others : List Param) (before after : WebSocketExtensions) (name : Text)
    (v : Option Text)
    → is_repeated name earlier ≡ false
    → apply_param before name v ≡ some after
    → apply_params earlier before ((name, v) ∷ others)
      ≡ apply_params (earlier ++ ((name, v) ∷ [])) after others
unfolding apply_params
apply_one earlier others before after name v r h = ground (arith, r, h)

abbrev server_key : Text
server_key = codes "server_max_window_bits"

abbrev client_key : Text
client_key = codes "client_max_window_bits"

-- The flags behind earlier parameters that have set the windows.
abbrev IsFlagged : List Param → Option (Option ℕ) → Option (Option ℕ) → Bool → Bool → Type 0
IsFlagged earlier s c sf cf =
    apply_params earlier (windows s c) (
      flag_params (codes "server_no_context_takeover") sf
        (flag_params (codes "client_no_context_takeover") cf []))
    ≡ some
        (record (windows s c) { server_no_context_takeover = sf; client_no_context_takeover = cf })

by_flags :
    (P : Bool → Bool → Type 0)
    → P false false
    → P false true
    → P true false
    → P true true
    → (sf cf : Bool) → P sf cf
by_flags P ff ft tf tt' false false = ff
by_flags P ff ft tf tt' false true = ft
by_flags P ff ft tf tt' true false = tf
by_flags P ff ft tf tt' true true = tt'

apply_server :
    (b : ℕ)
    → IsWindow b
    → apply_param no_extensions server_key (some (decimal b)) ≡ some (windows (some (some b)) none)
unfolding apply_param
apply_server b w = rw (window_bits-decimal b w) refl

apply_client :
    (s : Option (Option ℕ)) (b : ℕ)
    → IsWindow b
    → apply_param (windows s none) client_key (some (decimal b)) ≡ some (windows s (some (some b)))
unfolding apply_param
apply_client s b w = rw (window_bits-decimal b w) refl

-- The client's window and the flags, behind the server's window.
apply_rest :
    (earlier : List Param) (s c : Option (Option ℕ)) (sf cf : Bool)
    → is_repeated client_key earlier ≡ false
    → IsPrinted c
    → IsFlagged earlier s none sf cf
    → IsFlagged (earlier ++ ((client_key, none) ∷ [])) s (some none) sf cf
    → ((b : ℕ)
        → IsFlagged (earlier ++ ((client_key, some (decimal b)) ∷ [])) s (some (some b)) sf cf)
    → apply_params earlier (windows s none) (
        window_params client_key c (
          flag_params
            (codes "server_no_context_takeover")
            sf
            (flag_params (codes "client_no_context_takeover") cf [])))
      ≡ some (record (windows s c) {
        server_no_context_takeover = sf;
        client_no_context_takeover = cf;
      })
unfolding apply_param
apply_rest earlier s none sf cf r p h k l = h
apply_rest earlier s (some none) sf cf r p h k l =
    apply_one earlier _ _ _ client_key none r refl ∙ k
apply_rest earlier s (some (some b)) sf cf r p h k l =
    apply_one earlier _ _ _ client_key (some (decimal b)) r (apply_client s b p) ∙ l b

offer-windows :
    (s c : Option (Option ℕ)) (sf cf : Bool)
    → IsServerWindow s
    → IsPrinted c
    → offer (
        window_params server_key s (
          window_params client_key c (
            flag_params
              (codes "server_no_context_takeover")
              sf
              (flag_params (codes "client_no_context_takeover") cf []))))
      ≡ some (record (windows s c) {
        server_no_context_takeover = sf;
        client_no_context_takeover = cf;
      })
unfolding offer apply_params apply_param is_repeated
offer-windows none c sf cf hs hc =
    apply_rest [] none c sf cf refl hc (by_flags (IsFlagged [] none none) refl refl refl refl sf cf)
      (by_flags (IsFlagged ((client_key, none) ∷ []) none (some none)) refl refl refl refl sf cf)
      (λ b.
        by_flags (IsFlagged ((client_key, some (decimal b)) ∷ []) none (some (some b))) refl refl
          refl refl sf cf)
offer-windows (some none) c sf cf hs hc = elim hs [ ]
offer-windows (some (some a)) c sf cf hs hc =
    let first : Param = (server_key, some (decimal a)) in
    let s : Option (Option ℕ) = some (some a) in
    let others = window_params client_key c (
      flag_params (codes "server_no_context_takeover") sf
        (flag_params (codes "client_no_context_takeover") cf [])) in
    apply_one [] others no_extensions _ server_key (some (decimal a)) refl (apply_server a hs)
    ∙ apply_rest (first ∷ []) s c sf cf refl hc
        (by_flags (IsFlagged (first ∷ []) s none) refl refl refl refl sf cf)
        (by_flags (IsFlagged (first ∷ (client_key, none) ∷ []) s (some none)) refl refl refl refl sf
          cf)
        (λ b.
          by_flags (IsFlagged (first ∷ (client_key, some (decimal b)) ∷ []) s (some (some b))) refl
            refl refl refl sf cf)

pub offer-params_of : (e : WebSocketExtensions) → IsAcceptable e → offer (params_of e) ≡ some e
offer-params_of e h =
    offer-windows e.server_max_window_bits e.client_max_window_bits e.server_no_context_takeover
      e.client_no_context_takeover h.0 h.1

pub IsServerWindow-IsPrinted : (w : Option (Option ℕ)) → IsServerWindow w → IsPrinted w
IsServerWindow-IsPrinted none h = tt
IsServerWindow-IsPrinted (some none) h = elim h [ ]
IsServerWindow-IsPrinted (some (some b)) h = h
