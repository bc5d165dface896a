-- ===== src/Prelude/Trimming.antt =====
-- Trimming a text twice is trimming it once.
use pulse_keeper.Prelude.{
  Bool, Bool-cases, Text, [], ap, arith, false, inl, inr, is_space, not, refl, trim, trim_start,
  true, ℕ, ◌++◌, ◌∙◌, ◌∷◌, ◌≡◌,
}
use mathlib.Core.List.{reverse, reverse-cons, reverse-reverse, reverse-append}

-- A text that does not begin with white space.
abbrev begins_solid : Text → Bool
begins_solid [] = true
begins_solid (c ∷ s) = not (is_space c)

trim_start-solid : (s : Text) → begins_solid (trim_start s) ≡ true
unfolding trim_start
trim_start-solid [] = refl
trim_start-solid (c ∷ s) = elim (Bool-cases (is_space c)) [
  | inl e ↦ rw e (trim_start-solid s)
  | inr e ↦ rw (e, e) refl
]

solid-same : (s : Text) → begins_solid s ≡ true → trim_start s ≡ s
unfolding trim_start
solid-same [] h = refl
solid-same (c ∷ s) h = let solid : is_space c ≡ false = ground (arith, h) in rw solid refl

trim_start-last :
    (c : ℕ) (s : Text) → is_space c ≡ false → trim_start (s ++ c ∷ []) ≡ trim_start s ++ c ∷ []
unfolding trim_start
trim_start-last c [] h = rw h refl
trim_start-last c (d ∷ s) h = elim (Bool-cases (is_space d)) [
  | inl e ↦ rw e (trim_start-last c s h)
  | inr e ↦ rw e refl
]

abbrev trim_end : Text → Text
trim_end s = reverse (trim_start (reverse s))

trim_end-solid : (s : Text) → begins_solid s ≡ true → begins_solid (trim_end s) ≡ true
unfolding trim_start
trim_end-solid [] h = refl
trim_end-solid (c ∷ s) h =
    let solid : is_space c ≡ false = ground (arith, h) in
    let kept : trim_end (c ∷ s) ≡ c ∷ trim_end s =
      ap (λ t. reverse (trim_start t)) (reverse-cons c s)
      ∙ ap reverse (trim_start-last c (reverse s) solid)
      ∙ reverse-append (trim_start (reverse s)) (c ∷ []) in
    ap begins_solid kept ∙ h

pub trim-trim : (s : Text) → trim (trim s) ≡ trim s
unfolding trim
trim-trim s =
    let front = trim_start s in
    ap trim_end (solid-same (trim_end front) (trim_end-solid front (trim_start-solid s)))
    ∙ ap (λ t. reverse (trim_start t)) (reverse-reverse (trim_start (reverse front)))
    ∙ ap reverse (solid-same (trim_start (reverse front)) (trim_start-solid (reverse front)))
