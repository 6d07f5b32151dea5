-- ===== src/Handshake/Words.antt =====
-- The words that a client looks for in the headers of a response: `eq_ignore_ascii_case`, and the
-- elements of a list between commas (`connection_lists_upgrade` in src/native/mod.rs).
use yawc.Shared.{
  ℕ, ◌+◌, ◌≤◌, ◌≡◌, refl, ap, ◌∙◌, subst, ◌⊎◌, inl, inr, by_test, Bool-cases, true, ◌&&◌, List, [],
  ◌∷◌, ◌++◌, leb, ◌==◌, codes, arith,
}
use yawc.Header.{Text}
use yawc.Handshake.{
  lower, eq_ignore_ascii_case, cut, cuts, split, is_blank, trim_start, put_front, trim_end, trim,
  any_upgrade,
}

-- The text is the word, or has capital letters in its place.
abbrev pub Spells : Text → Text → Type 0
Spells [] [] = Unit
Spells (c ∷ cs) (d ∷ ds) = ((c ≡ d) ⊎ ((b'A' ≤ c) × (c ≤ b'Z') × (c + 32 ≡ d))) × Spells cs ds
Spells _ _ = ⊥

-- A word without capital letters.
abbrev pub IsLower : Text → Type 0
IsLower [] = Unit
IsLower (d ∷ ds) = (lower d ≡ d) × IsLower ds

same_letter :
    (c d : ℕ) → lower d ≡ d → lower c ≡ lower d → (c ≡ d) ⊎ ((b'A' ≤ c) × (c ≤ b'Z') × (c + 32 ≡ d))
same_letter c d l e = elim (Bool-cases (leb b'A' c && leb c b'Z')) [
  | inl h ↦ inr (ground (arith, h), ground (arith, h), ground (arith, h, l, e))
  | inr h ↦ inl (ground (arith, h, l, e))
]

pub eq_ignore_ascii_case-Spells :
    (text word : Text) → IsLower word → eq_ignore_ascii_case text word ≡ true → Spells text word
unfolding eq_ignore_ascii_case
eq_ignore_ascii_case-Spells [] [] l h = tt
eq_ignore_ascii_case-Spells [] (d ∷ ds) l h = absurd (ground (arith, h))
eq_ignore_ascii_case-Spells (c ∷ cs) [] l h = absurd (ground (arith, h))
eq_ignore_ascii_case-Spells (c ∷ cs) (d ∷ ds) l h = (
  same_letter c d l.0 (ground (arith, h)),
  eq_ignore_ascii_case-Spells cs ds l.1 (ground (arith, h)),
)

-- The end of the text or a comma.
abbrev IsEnd : Text → Type 0
IsEnd back = (back ≡ []) ⊎ ((rest : Text) × (back ≡ b',' ∷ rest))

-- The piece stands at the start of the text, up to its end or a comma.
abbrev IsFirst : Text → Text → Type 0
IsFirst text piece = (back : Text) × (text ≡ piece ++ back) × IsEnd back

-- The piece stands behind a comma, up to the end of the text or another comma.
abbrev IsLater : Text → Text → Type 0
IsLater text piece = (front back : Text) × (text ≡ front ++ (b',' ∷ (piece ++ back))) × IsEnd back

-- An element of a list with commas.
abbrev pub IsElement : Text → Text → Type 0
IsElement text piece = IsFirst text piece ⊎ IsLater text piece

abbrev AllLater : Text → List Text → Type 0
AllLater text [] = Unit
AllLater text (piece ∷ pieces) = IsLater text piece × AllLater text pieces

AllLater-cons :
    (c : ℕ) (text : Text) (pieces : List Text) → AllLater text pieces → AllLater (c ∷ text) pieces
AllLater-cons c text [] h = tt
AllLater-cons c text (piece ∷ pieces) ((front, back, e, end), h) =
    ((c ∷ front, back, ap (λ t. c ∷ t) e, end), AllLater-cons c text pieces h)

-- What `split` has found of a text.
abbrev IsCut : Text → Text × List Text → Type 0
IsCut text r = IsFirst text r.0 × AllLater text r.1

cut-IsCut : (c : ℕ) (cs : Text) (r : Text × List Text) → IsCut cs r → IsCut (c ∷ cs) (cut c r)
cut-IsCut c cs (piece, pieces) ((back, e, end), later) =
    by_test (IsCut (c ∷ cs)) (c == b',') _ _
      (λ h.
        let comma : c ≡ b',' = ground (arith, h) in
        (
          (c ∷ cs, refl, inr (cs, ap (λ d. d ∷ cs) comma)),
          (
            ([], back, ap (λ d. d ∷ cs) comma ∙ ap (λ t. b',' ∷ t) e, end),
            AllLater-cons c cs pieces later,
          ),
        ))
      (λ h. ((back, ap (λ t. c ∷ t) e, end), AllLater-cons c cs pieces later))

cuts-IsCut : (text : Text) → IsCut text (cuts text)
cuts-IsCut [] = (([], refl, inl refl), tt)
cuts-IsCut (c ∷ cs) = cut-IsCut c cs (cuts cs) (cuts-IsCut cs)

-- Spaces and tabs.
abbrev AreBlank : Text → Type 0
AreBlank [] = Unit
AreBlank (c ∷ cs) = ((c ≡ b' ') ⊎ (c ≡ 9)) × AreBlank cs

is_blank-cases : (c : ℕ) → is_blank c ≡ true → (c ≡ b' ') ⊎ (c ≡ 9)
is_blank-cases c h = elim (Bool-cases (c == b' ')) [
  | inl e ↦ inl (ground (arith, e))
  | inr n ↦ inr (ground (arith, h, n))
]

trim_start-AreBlank :
    (text : Text) → (left : Text) × (text ≡ left ++ trim_start text) × AreBlank left
trim_start-AreBlank [] = ([], refl, tt)
trim_start-AreBlank (c ∷ cs) =
    let (left, e, blank) = trim_start-AreBlank cs in
    by_test (λ t. (left : Text) × (c ∷ cs ≡ left ++ t) × AreBlank left) (is_blank c) _ _
      (λ h. (c ∷ left, ap (λ t. c ∷ t) e, (is_blank-cases c h, blank))) (λ h. ([], refl, tt))

put_front-AreBlank :
    (c : ℕ) (cs front right : Text)
    → cs ≡ front ++ right
    → AreBlank right
    → (right : Text) × (c ∷ cs ≡ put_front c front ++ right) × AreBlank right
put_front-AreBlank c cs [] right e blank =
    by_test (λ t. (right : Text) × (c ∷ cs ≡ t ++ right) × AreBlank right) (is_blank c) _ _
      (λ h. (c ∷ right, ap (λ t. c ∷ t) e, (is_blank-cases c h, blank)))
      (λ h. (right, ap (λ t. c ∷ t) e, blank))
put_front-AreBlank c cs (d ∷ ds) right e blank = (right, ap (λ t. c ∷ t) e, blank)

trim_end-AreBlank :
    (text : Text) → (right : Text) × (text ≡ trim_end text ++ right) × AreBlank right
trim_end-AreBlank [] = ([], refl, tt)
trim_end-AreBlank (c ∷ cs) =
    let (right, e, blank) = trim_end-AreBlank cs in
    put_front-AreBlank c cs (trim_end cs) right e blank

-- A text names a word if an element of its list, without the spaces and tabs around it, spells it.
pub record Names (text word : Text) : Type 0 where
  pub left : Text
  pub name : Text
  pub right : Text
  pub element : IsElement text (left ++ (name ++ right))
  pub blank_left : AreBlank left
  pub blank_right : AreBlank right
  pub spelled : Spells name word

abbrev upgrade_word : Text
upgrade_word = codes "upgrade"

option-Names :
    (text option : Text)
    → IsElement text option
    → eq_ignore_ascii_case (trim option) upgrade_word ≡ true
    → Names text upgrade_word
option-Names text option element h =
    let (left, e, blank_left) = trim_start-AreBlank option in
    let (right, f, blank_right) = trim_end-AreBlank (trim_start option) in
    let whole : option ≡ left ++ (trim option ++ right) = e ∙ ap (λ t. left ++ t) f in
    record {
      left = left;
      name = trim option;
      right = right;
      element = subst (λ t. IsElement text t) whole element;
      blank_left = blank_left;
      blank_right = blank_right;
      spelled =
          eq_ignore_ascii_case-Spells (trim option) upgrade_word
            (refl, (refl, (refl, (refl, (refl, (refl, (refl, tt))))))) h;
    }

later-Names :
    (text : Text) (options : List Text)
    → AllLater text options
    → any_upgrade options ≡ true
    → Names text upgrade_word
later-Names text [] later h = absurd (ground (arith, h))
later-Names text (option ∷ options) later h =
    elim (Bool-cases (eq_ignore_ascii_case (trim option) upgrade_word)) [
      | inl e ↦ option-Names text option (inr later.0) e
      | inr n ↦ later-Names text options later.1 (ground (arith, h, n))
    ]

pub split-Names : (text : Text) → any_upgrade (split text) ≡ true → Names text upgrade_word
split-Names text h =
    let (first, later) = cuts-IsCut text in
    elim (Bool-cases (eq_ignore_ascii_case (trim (cuts text).0) upgrade_word)) [
      | inl e ↦ option-Names text (cuts text).0 (inl first) e
      | inr n ↦ later-Names text (cuts text).1 later (ground (arith, h, n))
    ]
