-- ===== src/Mask/Vectors.antt =====
-- `xor_avx2` of src/mask.rs masks like the byte loop.
use yawc.Shared.{
  ℕ, zero, suc, ◌+◌, ◌*◌, ◌%◌, ◌≤◌, ◌≡◌, refl, ap, ap₂, sym, ◌∙◌, List, [], ◌++◌, length, take,
  drop, All, arith, append_assoc, take-append-drop, take-add, All-take, All-drop, length-take,
  length-drop, leb, Bool-cases, inl, inr,
}
use yawc.Shared.Bits.{IsByte}
use yawc.Frame.{MaskKey}
use yawc.Mask.{masked, xor_vectors, avx2_loop, Progress, xor_avx2}
use yawc.Mask.Words.{IsKey}
use yawc.Mask.Laws.{fallback_from-masked, apply_mask_fast32-masked}
use yawc.Mask.Keys.{shift_key-mod, masked-append_whole}

-- `n` vectors mask the first `n * 32` bytes.
xor_vectors-masked :
    (n : ℕ) (key : MaskKey) (buf : List ℕ)
    → IsKey key
    → All IsByte buf
    → n * 32 ≤ length buf
    → xor_vectors n key buf ≡ masked key (take (n * 32) buf)
unfolding xor_vectors masked
xor_vectors-masked zero key buf hk hb h = refl
xor_vectors-masked (suc n) key buf hk hb h =
    rw (round, take-add 32 (n * 32) buf)
      (ap₂ ◌++◌ (apply_mask_fast32-masked key (take 32 buf) hk (All-take IsByte 32 buf hb)) (
          xor_vectors-masked n key (drop 32 buf) hk (All-drop IsByte 32 buf hb)
            (omega (arith, length-drop 32 buf)))
        ∙ sym (
            masked-append_whole key (take 32 buf) (take (n * 32) (drop 32 buf))
              (omega (arith, length-take 32 buf))))
  where
    round : suc n * 32 ≡ 32 + n * 32
    round = omega arith

-- What both loops keep: what is written, followed by the mask of what is left.
abbrev Keeps : MaskKey → Progress → Progress → Type 0
Keeps key s t =
    (t.written ++ masked key t.left ≡ s.written ++ masked key s.left)
    × All IsByte t.left
    × (t.offset % 4 ≡ 0)

one_round :
    (v : ℕ) (key : MaskKey) (s : Progress)
    → IsKey key
    → All IsByte s.left
    → v * 32 ≤ length s.left
    → (s.written ++ xor_vectors v key s.left) ++ masked key (drop (v * 32) s.left)
      ≡ s.written ++ masked key s.left
one_round v key s hk hb h =
    append_assoc s.written (xor_vectors v key s.left) (masked key (drop (v * 32) s.left))
    ∙ ap (λ l. s.written ++ l)
        (ap (λ l. l ++ masked key (drop (v * 32) s.left)) (xor_vectors-masked v key s.left hk hb h)
          ∙ sym (
              masked-append_whole key (take (v * 32) s.left) (drop (v * 32) s.left)
                (omega (arith, length-take (v * 32) s.left)))
          ∙ ap (masked key) (take-append-drop (v * 32) s.left))

avx2_loop-Keeps :
    (fuel v : ℕ) (key : MaskKey) (s : Progress)
    → IsKey key
    → All IsByte s.left
    → s.offset % 4 ≡ 0
    → Keeps key s (avx2_loop fuel v key s)
unfolding avx2_loop
avx2_loop-Keeps zero v key s hk hb ho = (refl, hb, ho)
avx2_loop-Keeps (suc fuel) v key s hk hb ho = elim (Bool-cases (leb (v * 32) (length s.left))) [
  | inl more ↦
      let step : Progress = record {
        written = s.written ++ xor_vectors v key s.left;
        offset = s.offset + v * 32;
        left = drop (v * 32) s.left;
      } in
      let (same, bytes, offset) =
        avx2_loop-Keeps fuel v key step hk (All-drop IsByte (v * 32) s.left hb) (omega arith) in
      rw more (same ∙ one_round v key s hk hb (ground arith), bytes, offset)
  | inr done ↦ rw done (refl, hb, ho)
]

-- The vector routine masks every byte string as the byte loop does.
pub xor_avx2-masked :
    (key : MaskKey) (src : List ℕ) → IsKey key → All IsByte src → xor_avx2 key src ≡ masked key src
unfolding xor_avx2
xor_avx2-masked key src hk hb =
    let start : Progress = record { written = []; offset = 0; left = src } in
    let big = avx2_loop (length src) 4 key start in
    let small = avx2_loop (length src) 1 key big in
    let (same, bytes, offset) = avx2_loop-Keeps (length src) 4 key start hk hb (omega arith) in
    let (same', bytes', offset') = avx2_loop-Keeps (length src) 1 key big hk bytes offset in
    ap (λ l. small.written ++ l)
      (fallback_from-masked small.offset key small.left
        ∙ ap (λ k. masked k small.left) (shift_key-mod key small.offset 0 offset'))
    ∙ same'
    ∙ same
