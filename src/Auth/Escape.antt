-- ===== src/Auth/Escape.antt =====
-- `html_attribute` of crates/cli/src/auth.rs: five replacements one after the other, which are the
-- escaping of each character on its own.
use syslog_dtls_agent.Prelude.{
  ℕ, ◌≡◌, ◌≢◌, refl, sym, ap, ap₂, subst, ◌∙◌, inl, inr, true, false, [], ◌∷◌, ◌++◌, ◌==◌,
  if◌then◌else◌, All, All-append, Text, codes, Bool-cases, arith,
}
use syslog_dtls_agent.Auth.Strings.{replace}

unfoldable pub html_attribute : Text → Text
html_attribute value = replace 0x27 (codes "&#39;") (
    replace 0x22 (codes "&quot;") (
      replace b'>' (codes "&gt;")
        (replace b'<' (codes "&lt;") (replace b'&' (codes "&amp;") value))))

-- The character reference of one character.
abbrev pub escape : ℕ → Text
escape b =
    if b == b'&'
    then codes "&amp;"
    else if b == b'<'
    then codes "&lt;"
    else if b == b'>'
    then codes "&gt;"
    else if b == 0x22
    then codes "&quot;"
    else if b == 0x27
    then codes "&#39;"
    else b ∷ []

unfoldable pub escaped : Text → Text
escaped [] = []
escaped (b ∷ s) = escape b ++ escaped s

-- A byte that ends neither an attribute nor a tag.
abbrev pub IsInert : ℕ → Type 0
IsInert b = (b ≢ b'<') × (b ≢ b'>') × (b ≢ 0x22) × (b ≢ 0x27)

module _ (s : Text) (rest : html_attribute s ≡ escaped s) where
  -- A character that is replaced, whose reference stays as it is.
  special :
      (b c : ℕ) (reference : Text)
      → (b == c) ≡ true
      → html_attribute (c ∷ s) ≡ reference ++ html_attribute s
      → escape c ≡ reference
      → html_attribute (b ∷ s) ≡ escape b ++ escaped s
  special b c reference h step e =
      let same : b ≡ c = ground (arith, h) in
      ap (λ x. html_attribute (x ∷ s)) same
      ∙ step
      ∙ ap₂ (λ x y. x ++ y) (sym e) rest
      ∙ ap (λ x. escape x ++ escaped s) (sym same)

  plain :
      (b : ℕ)
      → (b == b'&') ≡ false
      → (b == b'<') ≡ false
      → (b == b'>') ≡ false
      → (b == 0x22) ≡ false
      → (b == 0x27) ≡ false
      → html_attribute (b ∷ s) ≡ escape b ++ escaped s
  unfolding html_attribute replace
  plain b h1 h2 h3 h4 h5 = rw (h1, h2, h3, h4, h5) (ap (λ t. b ∷ t) rest)

  one_step : (b : ℕ) → html_attribute (b ∷ s) ≡ escape b ++ escaped s
  unfolding html_attribute replace
  one_step b = elim (Bool-cases (b == b'&')) [
    | inl e ↦ special b b'&' (codes "&amp;") e refl refl
    | inr h1 ↦ elim (Bool-cases (b == b'<')) [
      | inl e ↦ special b b'<' (codes "&lt;") e refl refl
      | inr h2 ↦ elim (Bool-cases (b == b'>')) [
        | inl e ↦ special b b'>' (codes "&gt;") e refl refl
        | inr h3 ↦ elim (Bool-cases (b == 0x22)) [
          | inl e ↦ special b 0x22 (codes "&quot;") e refl refl
          | inr h4 ↦ elim (Bool-cases (b == 0x27)) [
            | inl e ↦ special b 0x27 (codes "&#39;") e refl refl
            | inr h5 ↦ plain b h1 h2 h3 h4 h5
          ]
        ]
      ]
    ]
  ]

one_pass : (s : Text) → html_attribute s ≡ escaped s
unfolding html_attribute replace escaped
one_pass [] = refl
one_pass (b ∷ s) = one_step s (one_pass s) b

references-IsInert :
    All IsInert (codes "&amp;")
    × All IsInert (codes "&lt;")
    × All IsInert (codes "&gt;")
    × All IsInert (codes "&quot;")
    × All IsInert (codes "&#39;")
references-IsInert = ground arith

escape-IsInert : (b : ℕ) → All IsInert (escape b)
escape-IsInert b = ground (arith, references-IsInert)

escaped-IsInert : (s : Text) → All IsInert (escaped s)
unfolding escaped
escaped-IsInert [] = tt
escaped-IsInert (b ∷ s) =
    All-append IsInert (escape b) (escaped s) (escape-IsInert b) (escaped-IsInert s)

-- The five replacements, one after the other, are the replacement of each character by its reference,
-- and what they return holds no `<`, no `>` and no quote.
pub html_attribute-eq :
    (value : Text) → (html_attribute value ≡ escaped value) × All IsInert (html_attribute value)
html_attribute-eq value =
    (one_pass value, subst (All IsInert) (sym (one_pass value)) (escaped-IsInert value))
