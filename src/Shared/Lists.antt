-- ===== src/Shared/Lists.antt =====
-- Lists measured and cut by native numbers, under the library's names.
use Prim.Native.Nat.{ℕ, zero, suc, ◌+◌, ◌-◌, ◌≤◌, min}
use mathlib.Core.Path.{◌≡◌, refl, ap}
use mathlib.Core.Logic.{inl, inr}
use mathlib.Core.Option.{Option, none, some}
use mathlib.Core.List.{List, [], ◌∷◌, ◌++◌}
use yawc.Shared.Tests.{Option-cases}
use native.Mathlib.Omega.{arith}

module _ {ℓ} {A : Type ℓ} where
  abbrev pub length : List A → ℕ
  length [] = 0
  length (x ∷ xs) = suc (length xs)

  abbrev pub take : ℕ → List A → List A
  take zero xs = []
  take (suc n) [] = []
  take (suc n) (x ∷ xs) = x ∷ take n xs

  abbrev pub drop : ℕ → List A → List A
  drop zero xs = xs
  drop (suc n) [] = []
  drop (suc n) (x ∷ xs) = drop n xs

  abbrev pub get_or : List A → ℕ → A → A
  get_or [] i d = d
  get_or (x ∷ xs) zero d = x
  get_or (x ∷ xs) (suc i) d = get_or xs i d

  -- The first `n` elements and the others, if there are so many.
  abbrev pub split_exact : ℕ → List A → Option (List A × List A)
  split_exact zero xs = some ([], xs)
  split_exact (suc n) [] = none
  split_exact (suc n) (x ∷ xs) = elim (split_exact n xs) [
    | none ↦ none
    | some p ↦ some (x ∷ p.0, p.1)
  ]

  abbrev pub All {κ} : (A → Type κ) → List A → Type κ
  All P [] = Unit {κ}
  All P (x ∷ xs) = P x × All P xs

module _ {ℓ} {A : Type ℓ} where
  pub length-append : (xs ys : List A) → length (xs ++ ys) ≡ length xs + length ys
  length-append [] ys = omega arith
  length-append (x ∷ xs) ys = omega (arith, length-append xs ys)

  pub take-append-drop : (n : ℕ) (xs : List A) → take n xs ++ drop n xs ≡ xs
  take-append-drop zero xs = refl
  take-append-drop (suc n) [] = refl
  take-append-drop (suc n) (x ∷ xs) = ap (λ l. x ∷ l) (take-append-drop n xs)

  pub length-take : (n : ℕ) (xs : List A) → length (take n xs) ≡ min n (length xs)
  length-take zero xs = omega arith
  length-take (suc n) [] = omega arith
  length-take (suc n) (x ∷ xs) = omega (arith, length-take n xs)

  pub length-drop : (n : ℕ) (xs : List A) → length (drop n xs) ≡ length xs - n
  length-drop zero xs = omega arith
  length-drop (suc n) [] = omega arith
  length-drop (suc n) (x ∷ xs) = omega (arith, length-drop n xs)

  -- A cut that lies within the front list does not see what follows it.
  pub take-append : (n : ℕ) (xs ys : List A) → n ≤ length xs → take n (xs ++ ys) ≡ take n xs
  take-append zero xs ys h = refl
  take-append (suc n) [] ys h = absurd (omega arith)
  take-append (suc n) (x ∷ xs) ys h = ap (λ l. x ∷ l) (take-append n xs ys (omega arith))

  pub drop-append : (n : ℕ) (xs ys : List A) → n ≤ length xs → drop n (xs ++ ys) ≡ drop n xs ++ ys
  drop-append zero xs ys h = refl
  drop-append (suc n) [] ys h = absurd (omega arith)
  drop-append (suc n) (x ∷ xs) ys h = drop-append n xs ys (omega arith)

  -- A cut at the end of the front list.
  pub take-length_append : (n : ℕ) (xs ys : List A) → length xs ≡ n → take n (xs ++ ys) ≡ xs
  take-length_append zero [] ys h = refl
  take-length_append zero (x ∷ xs) ys h = absurd (omega arith)
  take-length_append (suc n) [] ys h = absurd (omega arith)
  take-length_append (suc n) (x ∷ xs) ys h =
      ap (λ l. x ∷ l) (take-length_append n xs ys (omega arith))

  pub drop-length_append : (n : ℕ) (xs ys : List A) → length xs ≡ n → drop n (xs ++ ys) ≡ ys
  drop-length_append zero [] ys h = refl
  drop-length_append zero (x ∷ xs) ys h = absurd (omega arith)
  drop-length_append (suc n) [] ys h = absurd (omega arith)
  drop-length_append (suc n) (x ∷ xs) ys h = drop-length_append n xs ys (omega arith)

  pub All-append {κ} : (P : A → Type κ) (xs ys : List A) → All P xs → All P ys → All P (xs ++ ys)
  All-append P [] ys hx hy = hy
  All-append P (x ∷ xs) ys hx hy = (hx.0, All-append P xs ys hx.1 hy)

  pub All-take {κ} : (P : A → Type κ) (n : ℕ) (xs : List A) → All P xs → All P (take n xs)
  All-take P zero xs h = tt
  All-take P (suc n) [] h = tt
  All-take P (suc n) (x ∷ xs) h = (h.0, All-take P n xs h.1)

  pub All-drop {κ} : (P : A → Type κ) (n : ℕ) (xs : List A) → All P xs → All P (drop n xs)
  All-drop P zero xs h = h
  All-drop P (suc n) [] h = tt
  All-drop P (suc n) (x ∷ xs) h = All-drop P n xs h.1

  pub take-add : (m n : ℕ) (xs : List A) → take (m + n) xs ≡ take m xs ++ take n (drop m xs)
  take-add zero n xs = let e : 0 + n ≡ n = omega arith in rw e
  take-add (suc m) zero [] = let e : suc m + 0 ≡ suc m = omega arith in rw e
  take-add (suc m) (suc n) [] = let e : suc m + suc n ≡ suc (m + suc n) = omega arith in rw e
  take-add (suc m) n (x ∷ xs) =
      let e : suc m + n ≡ suc (m + n) = omega arith in rw e (ap (λ l. x ∷ l) (take-add m n xs))

  pub drop-add : (m n : ℕ) (xs : List A) → drop (m + n) xs ≡ drop n (drop m xs)
  drop-add zero n xs = let e : 0 + n ≡ n = omega arith in rw e
  drop-add (suc m) zero [] = let e : suc m + 0 ≡ suc m = omega arith in rw e
  drop-add (suc m) (suc n) [] = let e : suc m + suc n ≡ suc (m + suc n) = omega arith in rw e
  drop-add (suc m) n (x ∷ xs) =
      let e : suc m + n ≡ suc (m + n) = omega arith in rw e (drop-add m n xs)

  pub split_exact-length :
      (n : ℕ) (xs ys : List A) → length xs ≡ n → split_exact n (xs ++ ys) ≡ some (xs, ys)
  split_exact-length zero [] ys h = refl
  split_exact-length zero (x ∷ xs) ys h = absurd (omega arith)
  split_exact-length (suc n) [] ys h = absurd (omega arith)
  split_exact-length (suc n) (x ∷ xs) ys h =
      ground (arith, split_exact-length n xs ys (omega arith))

  pub length-split_exact :
      (n : ℕ) (xs : List A) (p : List A × List A) → split_exact n xs ≡ some p → length p.0 ≡ n
  length-split_exact zero xs p h = ground arith
  length-split_exact (suc n) [] p h = absurd (ground arith)
  length-split_exact (suc n) (x ∷ xs) p h = elim (Option-cases (split_exact n xs)) [
    | inl e ↦ absurd (ground (arith, e))
    | inr (q, e) ↦ ground (arith, e, length-split_exact n xs q e)
  ]
