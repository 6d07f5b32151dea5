-- ===== src/Layer/RoundTrip.antt =====
-- `FragmentLayer` in src/native/mod.rs: what one side's `fragment_outgoing` splits, the other
-- side's `assemble_incoming` puts together.
use yawc.Shared.{
  ℕ, ◌<◌, ◌≡◌, ◌⊎◌, sym, ap, subst, ◌∙◌, true, false, Option, none, some, List, [], ◌∷◌, ◌++◌,
  length, append-nil, length-append, arith,
}
use yawc.Error.{ok}
use yawc.Frame.{Frame, MaskKey, text, binary, into_fragments}
use yawc.Frame.Fragments.{payloads, IsRest, IsFragmented, into_fragments-IsFragmented}
use yawc.Layer.{FragmentLayer, assemble_incoming, begin_message, timed_out}
use yawc.Layer.Messages.{
  assemble_all, Rest, last, middle, assembled, begun_by, assemble_all-message,
}

Frame-eq :
    (f g : Frame)
    → f.fin ≡ g.fin
    → f.opcode ≡ g.opcode
    → f.is_compressed ≡ g.is_compressed
    → f.mask ≡ g.mask
    → f.payload ≡ g.payload
    → f ≡ g
Frame-eq f g a b c d e = ground (arith, a, b, c, d, e)

-- The fragments behind the first are the rest of a message; the last has the frame's key.
IsRest-Rest :
    (n : ℕ) (mask : Option MaskKey) (fs : List Frame)
    → IsRest n mask fs
    → (g : Frame) × Rest fs g (payloads fs) [] × (g.fin ≡ true) × (g.mask ≡ mask)
IsRest-Rest n mask [] h = absurd h
IsRest-Rest n mask (g ∷ []) (e, o, m, b) =
    (g, subst (λ p. Rest (g ∷ []) g p []) (sym (append-nil g.payload)) (last o e), e, m)
IsRest-Rest n mask (g ∷ h ∷ fs) ((e, o, m, b), rest) =
    let (last_one, more, fin, key) = IsRest-Rest n mask (h ∷ fs) rest in
    (last_one, middle o e more, fin, key)

-- A final frame that comes whole passes through an idle layer.
whole-assembled :
    (clock : ℕ → ℕ) (l : FragmentLayer) (f : Frame)
    → (f.opcode ≡ text) ⊎ (f.opcode ≡ binary)
    → f.fin ≡ true
    → l.incoming_fragment ≡ none
    → (assemble_all clock 0 l (f ∷ [])).0 ≡ ok (f ∷ [])
unfolding assemble_all assemble_incoming begin_message
whole-assembled clock l f op e idle = ground (arith, op, e, idle)

-- Splitting a final text or binary frame that is not marked as compressed into fragments of at most
-- `partition` bytes and assembling them in an idle layer gives back that frame and nothing else, for
-- every partition but 0, while the payload is below the limit of the layer and no fragment is late.
pub assemble_all-into_fragments :
    (partition : ℕ) (clock : ℕ → ℕ) (l : FragmentLayer) (f : Frame)
    → 0 < partition
    → (f.opcode ≡ text) ⊎ (f.opcode ≡ binary)
    → f.fin ≡ true
    → f.is_compressed ≡ false
    → l.incoming_fragment ≡ none
    → length f.payload < l.max_read_buffer
    → ((j : ℕ) → timed_out l.fragment_timeout (clock 0) (clock j) ≡ false)
    → (fs : List Frame) × (into_fragments f partition ≡ some fs)
      × ((assemble_all clock 0 l fs).0 ≡ ok (f ∷ []))
assemble_all-into_fragments partition clock l f pos op e plain idle fits time =
    let (fs, split, parts, same) = into_fragments-IsFragmented partition f pos in
    (fs, split, go fs parts same)
  where
    go :
        (fs : List Frame)
        → IsFragmented partition f fs
        → payloads fs ≡ f.payload
        → (assemble_all clock 0 l fs).0 ≡ ok (f ∷ [])
    go [] h same = absurd h
    go (g ∷ []) (h, small) same = rw h (whole-assembled clock l f op e idle)
    go (g ∷ h ∷ fs) ((ge, go', gm, gb), gc, rest) same =
        let (z, more, fin, key) = IsRest-Rest partition f.mask (h ∷ fs) rest in
        let whole =
          assemble_all-message clock l g (rw go' op) ge more idle
            (omega (arith, length-append g.payload (payloads (h ∷ fs)), ap length same, fits))
            time in
        whole.0
        ∙ ap (λ (x : Frame). ok (x ∷ []))
            (Frame-eq (assembled (begun_by (clock 0) g) z (g.payload ++ payloads (h ∷ fs))) f
              (fin ∙ sym e) go' (gc ∙ sym plain) key same)
