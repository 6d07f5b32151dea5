-- ===== src/Tests/Frames.antt =====
-- src/frame.rs at concrete inputs.
use yawc.Shared.{◌≡◌, refl, false, none, some, List, [], ◌∷◌, arith}
use yawc.Frame.{
  next, next_of, Frame, text_frame, into_fragments, collect, with_fin, continuation_frame,
}
use yawc.Frame.Fragments.{IsFragmented, payloads, into_fragments-IsFragmented, collect_endless}
use yawc.Tests.Masks.{hello}

hello_in_two :
    into_fragments (text_frame hello) 3
    ≡ some (
        with_fin (text_frame (0x48 ∷ 0x65 ∷ 0x6c ∷ [])) false
        ∷ continuation_frame (0x6c ∷ 0x6f ∷ [])
        ∷ [])
unfolding into_fragments collect next next_of
hello_in_two = refl

into_fragments-IsFragmented_example :
    (fs : List Frame) × (into_fragments (text_frame hello) 3 ≡ some fs)
    × IsFragmented 3 (text_frame hello) fs
    × (payloads fs ≡ hello)
into_fragments-IsFragmented_example = into_fragments-IsFragmented 3 (text_frame hello) (omega arith)

collect_endless_example :
    collect 100 (record { index = 0; max_size = 0; held = some (text_frame hello) }) ≡ none
collect_endless_example = collect_endless 100 0 (text_frame hello) (omega arith)
