-- ===== src/Adapters/Mails.antt =====
-- What of a message can reach the markup of a mail.
use pulse_keeper.Prelude.{
  All, Bool, Bool-cases, Text, [], any, arith, codes, false, if◌then◌else◌, inl, inr, refl,
  replace_each, suc, true, zero, ℕ, ◌%◌, ◌++◌, ◌+◌, ◌/◌, ◌==◌, ◌∷◌, ◌≡◌,
}
use pulse_keeper.Prelude.Time.{calendar_day, iso_string, padded}
use pulse_keeper.Store.{ChannelMessage}
use pulse_keeper.Adapters.{escape_html, link_of, mail_of}

-- The character is not in the text.
abbrev pub Lacks : ℕ → Text → Type 0
Lacks c s = any (λ x. x == c) s ≡ false

-- None of the characters that end a text or an attribute in double quotes: <, > and ".
abbrev pub IsPlain : Text → Type 0
IsPlain s = Lacks 60 s × Lacks 62 s × Lacks 34 s

append-Lacks : (c : ℕ) (s t : Text) → Lacks c s → Lacks c t → Lacks c (s ++ t)
append-Lacks c [] t h k = k
append-Lacks c (x ∷ s) t h k = ground (arith, append-Lacks c s t)

replace_each-removed : (c : ℕ) (t s : Text) → Lacks c t → Lacks c (replace_each c t s)
unfolding replace_each
replace_each-removed c t [] h = refl
replace_each-removed c t (d ∷ s) h = elim (Bool-cases (d == c)) [
  | inl same ↦ rw same (append-Lacks c t _ h (replace_each-removed c t s h))
  | inr other ↦ rw (other, other) (replace_each-removed c t s h)
]

replace_each-Lacks : (c b : ℕ) (t s : Text) → Lacks c t → Lacks c s → Lacks c (replace_each b t s)
unfolding replace_each
replace_each-Lacks c b t [] h k = refl
replace_each-Lacks c b t (d ∷ s) h k =
    let tail : Lacks c s = ground (arith, k) in
    let head : (d == c) ≡ false = ground (arith, k) in
    elim (Bool-cases (d == b)) [
      | inl same ↦ rw same (append-Lacks c t _ h (replace_each-Lacks c b t s h tail))
      | inr other ↦ rw (other, head) (replace_each-Lacks c b t s h tail)
    ]

escape_html-IsPlain : (s : Text) → IsPlain (escape_html s)
unfolding escape_html
escape_html-IsPlain s =
    let once = replace_each 38 (codes "&amp;") s in
    let twice = replace_each 60 (codes "&lt;") once in
    let thrice = replace_each 62 (codes "&gt;") twice in
    (
      replace_each-Lacks 60 34 (codes "&quot;") thrice refl (
          replace_each-Lacks 60 62 (codes "&gt;") twice refl
            (replace_each-removed 60 (codes "&lt;") once refl)),
      replace_each-Lacks 62 34 (codes "&quot;") thrice refl
          (replace_each-removed 62 (codes "&gt;") twice refl),
      replace_each-removed 34 (codes "&quot;") thrice refl,
    )

-- No digit is this character.
abbrev IsNoDigit : ℕ → Type 0
IsNoDigit c = (n : ℕ) → (b'0' + n % 10 == c) ≡ false

padded-Lacks : (c width n : ℕ) → IsNoDigit c → Lacks c (padded width n)
unfolding padded
padded-Lacks c zero n h = refl
padded-Lacks c (suc width) n h =
    append-Lacks c (padded width (n / 10)) _ (padded-Lacks c width (n / 10) h) (rw (h n) refl)

-- Digits, a sign, and what follows.
signed :
    (c d width n : ℕ) (rest : Text)
    → IsNoDigit c
    → (d == c) ≡ false
    → Lacks c rest
    → Lacks c (padded width n ++ d ∷ rest)
signed c d width n rest h other k =
    append-Lacks c (padded width n) (d ∷ rest) (padded-Lacks c width n h) (rw other k)

iso_string-Lacks : (c ms : ℕ) → IsNoDigit c → Lacks c (codes "-:.TZ") → Lacks c (iso_string ms)
unfolding iso_string
iso_string-Lacks c ms h k =
    let date = calendar_day (ms / 86400000) in
    let millis = padded 3 (ms % 1000) ++ 90 ∷ [] in
    let seconds = padded 2 (ms / 1000 % 60) ++ 46 ∷ millis in
    let minutes = padded 2 (ms / 60000 % 60) ++ 58 ∷ seconds in
    let hours = padded 2 (ms / 3600000 % 24) ++ 58 ∷ minutes in
    let days = padded 2 date.day ++ 84 ∷ hours in
    let months = padded 2 date.month ++ 45 ∷ days in
    signed c 45 4 date.year months h (ground (arith, k)) (
      signed c 45 2 date.month days h (ground (arith, k)) (
        signed c 84 2 date.day hours h (ground (arith, k)) (
          signed c 58 2 (ms / 3600000 % 24) minutes h (ground (arith, k)) (
            signed c 58 2 (ms / 60000 % 60) seconds h (ground (arith, k)) (
              signed c 46 2 (ms / 1000 % 60) millis h (ground (arith, k))
                (signed c 90 3 (ms % 1000) [] h (ground (arith, k)) refl))))))

iso_string-IsPlain : (ms : ℕ) → IsPlain (iso_string ms)
iso_string-IsPlain ms = (
  iso_string-Lacks 60 ms (λ n. ground arith) refl,
  iso_string-Lacks 62 ms (λ n. ground arith) refl,
  iso_string-Lacks 34 ms (λ n. ground arith) refl,
)

-- Of the texts that a mail puts into its markup none has a <, a > or a ", whatever the message
-- says: they end neither a text nor an attribute.
pub mail_of-IsPlain :
    (sender target : Text) (message : ChannelMessage)
    → All IsPlain (mail_of sender target message).html_texts
unfolding mail_of
mail_of-IsPlain sender target message = (
  colours message.is_recovery,
  (
    escape_html-IsPlain message.title,
    (
      escape_html-IsPlain message.body,
      (
        escape_html-IsPlain message.site_name,
        (
          escape_html-IsPlain message.site_url,
          (iso_string-IsPlain message.occurred_at, (escape_html-IsPlain (link_of message), tt)),
        ),
      ),
    ),
  ),
)
  where
    colours : (b : Bool) → IsPlain (if b then codes "#16a34a" else codes "#dc2626")
    colours true = (refl, refl, refl)
    colours false = (refl, refl, refl)
