-- ===== src/Frame/Fragments.antt =====
-- `into_fragments` of src/frame.rs: the fragments form one message with the frame's payload.
use yawc.Shared.{
  ℕ, zero, suc, ◌+◌, ◌≤◌, ◌<◌, ◌≡◌, refl, ap, ◌∙◌, Bool, true, false, Option, none, some, List, [],
  ◌∷◌, ◌++◌, length, take, drop, take-append-drop, length-take, length-drop, append-nil, leb, ◌==◌,
  if◌then◌else◌, Bool-cases, inl, inr, arith,
}
use yawc.Frame.{OpCode, MaskKey, continuation, Frame, new, next_of, next, collect, into_fragments}

abbrev pub payloads : List Frame → List ℕ
payloads [] = []
payloads (f ∷ fs) = f.payload ++ payloads fs

-- A fragment with this key, FIN bit and opcode, of at most `p` bytes.
abbrev pub IsPart : ℕ → Option MaskKey → Bool → OpCode → Frame → Type 0
IsPart p mask fin opcode g =
    (g.fin ≡ fin) × (g.opcode ≡ opcode) × (g.mask ≡ mask) × (length g.payload ≤ p)

-- The fragments behind the first: continuations, of which the last and no other is final.
abbrev pub IsRest : ℕ → Option MaskKey → List Frame → Type 0
IsRest p mask [] = ⊥
IsRest p mask (g ∷ []) = IsPart p mask true continuation g
IsRest p mask (g ∷ h ∷ fs) = IsPart p mask false continuation g × IsRest p mask (h ∷ fs)

-- The fragments of `f`: `f` itself, or a first one with its opcode and the rest.
abbrev pub IsFragmented : ℕ → Frame → List Frame → Type 0
IsFragmented p f [] = ⊥
IsFragmented p f (g ∷ []) = (g ≡ f) × (length f.payload ≤ p)
IsFragmented p f (g ∷ h ∷ fs) =
    IsPart p f.mask false f.opcode g × (g.is_compressed ≡ false) × IsRest p f.mask (h ∷ fs)

abbrev pub remainder : ℕ → Frame → Frame
remainder p f = record f { payload = drop p f.payload }

module _ (p : ℕ) (pos : 0 < p) where
  pub next_of-small :
      (index : ℕ) (f : Frame)
      → leb (length f.payload) p ≡ true
      → next_of index p f ≡ (
        if index == 0 then f else record f { fin = true; opcode = continuation },
        record { index = index; max_size = p; held = none },
      )
  unfolding next_of
  next_of-small index f small = rw (small, next_of)

  next_of-big :
      (index : ℕ) (f : Frame)
      → leb (length f.payload) p ≡ false
      → next_of index p f ≡ (
        new false (if index == 0 then f.opcode else continuation) f.mask (take p f.payload),
        record { index = index + 1; max_size = p; held = some (remainder p f) },
      )
  unfolding next_of
  next_of-big index f big = rw (big, next_of)

  -- Collected on a frame that fits, and on one that does not.
  collect-last :
      (fuel index : ℕ) (f : Frame)
      → leb (length f.payload) p ≡ true
      → collect (suc (suc fuel)) (record { index = index; max_size = p; held = some f })
        ≡ some ((if index == 0 then f else record f { fin = true; opcode = continuation }) ∷ [])
  unfolding collect next
  collect-last fuel index f small = ground (arith, next_of-small index f small)

  collect-more :
      (fuel index : ℕ) (f : Frame) (fs : List Frame)
      → leb (length f.payload) p ≡ false
      → collect fuel (record { index = index + 1; max_size = p; held = some (remainder p f) })
        ≡ some fs
      → collect (suc fuel) (record { index = index; max_size = p; held = some f })
        ≡ some (
            new false (if index == 0 then f.opcode else continuation) f.mask (take p f.payload)
            ∷ fs)
  unfolding collect next
  collect-more fuel index f fs big rest = ground (arith, next_of-big index f big)

  IsRest-more :
      (f : Frame) (mask : Option MaskKey) (fs : List Frame)
      → IsRest p mask fs
      → IsRest p mask (new false continuation mask (take p f.payload) ∷ fs)
  IsRest-more f mask [] h = absurd h
  IsRest-more f mask (g ∷ fs) h = ((refl, refl, refl, omega (arith, length-take p f.payload)), h)

  -- The iterator behind its first item.
  collect-IsRest :
      (fuel index : ℕ) (f : Frame)
      → length f.payload + 2 ≤ fuel
      → 0 < index
      → (fs : List Frame) × (collect fuel (record { index = index; max_size = p; held = some f })
          ≡ some fs)
        × IsRest p f.mask fs
        × (payloads fs ≡ f.payload)
  collect-IsRest zero index f enough behind = absurd (omega arith)
  collect-IsRest (suc zero) index f enough behind = absurd (omega arith)
  collect-IsRest (suc (suc fuel)) index f enough behind =
      let not_first : (index == 0) ≡ false = ground arith in
      elim (Bool-cases (leb (length f.payload) p)) [
        | inl small ↦ (
          record f { fin = true; opcode = continuation } ∷ [],
          rw (collect-last fuel index f small, not_first),
          (refl, refl, refl, ground arith),
          append-nil f.payload,
        )
        | inr big ↦
            let (fs, rest, parts, same) =
              collect-IsRest (suc fuel) (index + 1) (remainder p f)
                (ground (arith, length-drop p f.payload)) (omega arith) in
            (
              new false continuation f.mask (take p f.payload) ∷ fs,
              rw (collect-more (suc fuel) index f fs big rest, not_first),
              IsRest-more f f.mask fs parts,
              ap (λ l. take p f.payload ++ l) same ∙ take-append-drop p f.payload,
            )
      ]

-- With a partition of at least one byte the iterator ends, and its items are the fragments of the
-- frame: the frame itself if it fits, and else a first one with the frame's opcode and then
-- continuations, each of at most `partition` bytes, with the frame's key and only the last of them
-- final, and the first of several not marked as compressed. Their payloads make up the frame's payload.
pub into_fragments-IsFragmented :
    (partition : ℕ) (f : Frame)
    → 0 < partition
    → (fs : List Frame) × (into_fragments f partition ≡ some fs)
      × IsFragmented partition f fs
      × (payloads fs ≡ f.payload)
unfolding into_fragments
into_fragments-IsFragmented partition f pos = elim (Bool-cases (leb (length f.payload) partition)) [
  | inl small ↦ (
    f ∷ [],
    rw fuel (collect-last partition pos (length f.payload) 0 f small),
    (refl, ground arith),
    append-nil f.payload,
  )
  | inr big ↦
      let (fs, rest, parts, same) =
        collect-IsRest partition pos (suc (length f.payload)) 1 (remainder partition f)
          (ground (arith, length-drop partition f.payload)) (omega arith) in
      (
        new false f.opcode f.mask (take partition f.payload) ∷ fs,
        rw fuel (collect-more partition pos (suc (length f.payload)) 0 f fs big rest),
        first fs parts,
        ap (λ l. take partition f.payload ++ l) same ∙ take-append-drop partition f.payload,
      )
]
  where
    fuel : length f.payload + 2 ≡ suc (suc (length f.payload))
    fuel = omega arith

    first :
        (fs : List Frame)
        → IsRest partition f.mask fs
        → IsFragmented partition f (new false f.opcode f.mask (take partition f.payload) ∷ fs)
    first [] h = absurd h
    first (g ∷ fs) h = ((refl, refl, refl, omega (arith, length-take partition f.payload)), refl, h)

-- With a partition of 0 the iterator of a frame with a payload never ends: no number of calls
-- exhausts it, since every call splits off an empty fragment.
pub collect_endless :
    (fuel index : ℕ) (f : Frame)
    → 0 < length f.payload
    → collect fuel (record { index = index; max_size = 0; held = some f }) ≡ none
unfolding collect next next_of
collect_endless zero index f some_bytes = refl
collect_endless (suc fuel) index f some_bytes =
    ground (arith, collect_endless fuel (index + 1) f some_bytes)
