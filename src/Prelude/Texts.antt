-- ===== src/Prelude/Texts.antt =====
-- Texts as lists of UTF-16 code units, and what the source uses of JavaScript's strings.
use Prim.Native.Char.{code}
use Prim.Native.String.{String}
use Prim.Native.Nat.{ℕ, zero, suc, ◌+◌, ◌/◌, ◌%◌}
use mathlib.Core.Path.{◌≡◌, refl, ◌∙◌}
use mathlib.Core.List.{List, [], ◌∷◌, ◌++◌, map, reverse, reverse-cons, reverse-reverse}
use mathlib.Core.Bool.{Bool, true, false, ◌&&◌, ◌||◌}
use native.Mathlib.Omega.{arith}
use pulse_keeper.Prelude.Tests.{if◌then◌else◌, leb, ◌==◌}
use pulse_keeper.Prelude.Lists.{any, any-append}

abbrev pub Text : Type 0
Text = List ℕ

-- A literal of the source; each of its characters is one code unit.
abbrev pub codes : String → Text
codes String.[] = []
codes (String.◌∷◌ c s) = code c ∷ codes s

abbrev pub text_eq : Text → Text → Bool
text_eq [] [] = true
text_eq (a ∷ s) (b ∷ t) = a == b && text_eq s t
text_eq _ _ = false

-- `set.has(s)`
abbrev pub has_text : List Text → Text → Bool
has_text [] s = false
has_text (t ∷ ts) s = text_eq t s || has_text ts s

abbrev pub is_empty : Text → Bool
is_empty [] = true
is_empty (c ∷ s) = false

-- The white space that `trim` removes.
unfoldable pub is_space : ℕ → Bool
is_space c =
    leb 9 c && leb c 13
    || c == 32
    || c == 160
    || c == 0x1680
    || leb 0x2000 c && leb c 0x200a
    || c == 0x2028
    || c == 0x2029
    || c == 0x202f
    || c == 0x205f
    || c == 0x3000
    || c == 0xfeff

unfoldable pub trim_start : Text → Text
trim_start [] = []
trim_start (c ∷ s) = if is_space c then trim_start s else c ∷ s

-- `s.trim()`
unfoldable pub trim : Text → Text
unfolding trim_start is_space
trim s = reverse (trim_start (reverse (trim_start s)))

-- `s.toLowerCase()` on ASCII, all that a host name of a parsed URL holds.
unfoldable pub lower : Text → Text
lower = map (λ c. if leb b'A' c && leb c b'Z' then c + 32 else c)

-- `s.startsWith(t)`
unfoldable pub starts_with : Text → Text → Bool
starts_with s [] = true
starts_with [] (b ∷ t) = false
starts_with (a ∷ s) (b ∷ t) = a == b && starts_with s t

-- `s.endsWith(t)`
unfoldable pub ends_with : Text → Text → Bool
unfolding starts_with
ends_with s t = starts_with (reverse s) (reverse t)

digits_from : ℕ → ℕ → Text → Text
digits_from zero n acc = acc
digits_from (suc fuel) n acc =
    let rest = digits_from fuel (n / 10) ((b'0' + n % 10) ∷ acc) in if n == 0 then acc else rest

-- A number in decimal, as a template literal prints it.
unfoldable pub show : ℕ → Text
unfolding digits_from
show n = if n == 0 then codes "0" else digits_from n n []

pub text_eq_sound : (s t : Text) → text_eq s t ≡ true → s ≡ t
text_eq_sound [] [] h = refl
text_eq_sound [] (b ∷ t) h = ground arith
text_eq_sound (a ∷ s) [] h = ground arith
text_eq_sound (a ∷ s) (b ∷ t) h = ground (arith, text_eq_sound s t)

pub text_eq_refl : (s : Text) → text_eq s s ≡ true
text_eq_refl [] = refl
text_eq_refl (a ∷ s) = ground (arith, text_eq_refl s)

-- `s.includes(t)`
unfoldable pub contains : Text → Text → Bool
unfolding starts_with
contains [] t = is_empty t
contains (c ∷ s) t = starts_with (c ∷ s) t || contains s t

-- What a replacement of runs of white space leaves; the flag tells that the run has begun.
squeeze_from : Bool → Text → Text
squeeze_from in_space [] = []
squeeze_from in_space (c ∷ s) =
    if is_space c
    then (if in_space then squeeze_from true s else 32 ∷ squeeze_from true s)
    else c ∷ squeeze_from false s

-- `s.replace(/\s+/g, ' ')`
unfoldable pub squeeze : Text → Text
unfolding squeeze_from is_space
squeeze = squeeze_from false

-- `s.replace(/c/g, t)`
unfoldable pub replace_each : ℕ → Text → Text → Text
replace_each c t [] = []
replace_each c t (d ∷ s) = if d == c then t ++ replace_each c t s else d ∷ replace_each c t s

any-reverse : (p : ℕ → Bool) (s : Text) → any p (reverse s) ≡ any p s
any-reverse p [] = refl
any-reverse p (c ∷ s) =
    rw (reverse-cons c s, any-append p (reverse s) (c ∷ []), any-reverse p s) (ground arith)

trim_start-same : (s : Text) → any is_space s ≡ false → trim_start s ≡ s
unfolding trim_start
trim_start-same [] h = refl
trim_start-same (c ∷ s) h = let solid : is_space c ≡ false = ground (arith, h) in rw solid refl

-- A text without white space is not trimmed.
pub trim-same : (s : Text) → any is_space s ≡ false → trim s ≡ s
unfolding trim
trim-same s h =
    let reversed : any is_space (reverse s) ≡ false = any-reverse is_space s ∙ h in
    rw (trim_start-same s h, trim_start-same (reverse s) reversed) (reverse-reverse s)
