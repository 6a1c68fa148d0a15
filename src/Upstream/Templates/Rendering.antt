-- ===== src/Upstream/Templates/Rendering.antt =====
-- What renderTemplate of src/upstream/messages.go makes of a placeholder.
use air_gap.Common.{
  Bytes, ℕ, List, [], ◌∷◌, ◌++◌, ◌≡◌, refl, ap, ◌∙◌, true, false, All, none, some, ◌==◌, map,
  append_assoc, append-nil, Bool-cases, inl, inr, sym, length, arith,
}
use air_gap.Common.Maps.{lookup, bytes_eq, bytes_beq}
use air_gap.Common.Text.{contains_text, has_prefix}
use air_gap.Upstream.Templates.{
  or_placeholder, normalize_placeholder, normalized, is_name_byte, closed, replaced, expand,
  render_template, contains_text,
}

module _ (values : List (Bytes × Bytes)) where
  expand-plain :
      (before rest : Bytes)
      → All (λ b. (b == b'{') ≡ false) before
      → expand values none (before ++ rest) ≡ before ++ expand values none rest
  unfolding expand
  expand-plain [] rest h = refl
  expand-plain (b ∷ before) rest h = rw h.0 (ap (λ t. b ∷ t) (expand-plain before rest h.1))

  expand-name :
      (name taken rest : Bytes)
      → All (λ b. is_name_byte b ≡ true) name
      → expand values (some taken) (name ++ (b'}' ∷ rest))
        ≡ closed values (taken ++ name) (expand values none rest)
  unfolding expand
  expand-name [] taken rest h = rw (append-nil taken) refl
  expand-name (b ∷ name) taken rest h = rw h.0 (
      expand-name name (taken ++ (b ∷ [])) rest h.1
      ∙ ap (λ n. closed values n (expand values none rest)) (append_assoc taken (b ∷ []) name))

  -- A placeholder behind a text without braces: it is replaced, and the rest is expanded.
  pub expand-placeholder :
      (before : Bytes) (c : ℕ) (name rest : Bytes)
      → All (λ b. (b == b'{') ≡ false) before
      → All (λ b. is_name_byte b ≡ true) (c ∷ name)
      → expand values none (before ++ (b'{' ∷ ((c ∷ name) ++ (b'}' ∷ rest))))
        ≡ before ++ (replaced values (c ∷ name) ++ expand values none rest)
  unfolding expand
  expand-placeholder before c name rest h n =
      expand-plain before (b'{' ∷ ((c ∷ name) ++ (b'}' ∷ rest))) h
      ∙ ap (λ t. before ++ t) (expand-name (c ∷ name) [] rest n)

no_brace :
    (text : Bytes) → contains_text text (b'{' ∷ []) ≡ false → All (λ b. (b == b'{') ≡ false) text
unfolding contains_text has_prefix
no_brace [] h = tt
no_brace (b ∷ text) h = elim (Bool-cases (b == b'{')) [
  | inl brace ↦ absurd (ground arith)
  | inr plain ↦ (plain, no_brace text (ground arith))
]

lookup-context :
    (name : Bytes) (context settings : List (Bytes × Bytes)) (value : Bytes)
    → lookup name (map normalized context) ≡ some value
    → lookup name (map normalized (context ++ settings)) ≡ some value
unfolding lookup
lookup-context name [] settings value h = absurd (cc h)
lookup-context name ((k, v) ∷ context) settings value h =
    elim (Bool-cases (bytes_beq (normalize_placeholder k) name)) [
      | inl here ↦ rw here (rw here at h)
      | inr there ↦ rw there (lookup-context name context settings value (rw there at h))
    ]

module _ (settings context : List (Bytes × Bytes)) where
  abbrev pub values : List (Bytes × Bytes)
  values = map normalized (context ++ settings)

  expand-no_brace :
      (template : Bytes)
      → contains_text template (b'{' ∷ []) ≡ false
      → expand values none template ≡ template
  unfolding expand
  expand-no_brace template h =
      let plain = expand-plain values template [] (no_brace template h) in
      ap (λ t. expand values none t) (sym (append-nil template)) ∙ plain ∙ append-nil template

  render_template-expand :
      (template : Bytes) → render_template settings template context ≡ expand values none template
  unfolding render_template expand
  render_template-expand [] = refl
  render_template-expand (b ∷ text) =
      let nonempty : (length (b ∷ text) == 0) ≡ false = ground arith in
      elim (Bool-cases (contains_text (b ∷ text) (b'{' ∷ []))) [
        | inl braces ↦ rw (nonempty, braces)
        | inr plain ↦ rw (nonempty, plain) (sym (expand-no_brace (b ∷ text) plain))
      ]

  -- renderTemplate puts the value that the event gives a name, in any notation and whatever the
  -- settings say, in the place of the first placeholder of that name, and goes on behind it. The
  -- text before it has no brace, and the name is of letters, digits, underscores and dots.
  pub render_template-placeholder :
      (before : Bytes) (c : ℕ) (name rest value : Bytes)
      → All (λ b. (b == b'{') ≡ false) before
      → All (λ b. is_name_byte b ≡ true) (c ∷ name)
      → lookup (normalize_placeholder (c ∷ name)) (map normalized context) ≡ some value
      → render_template settings (before ++ (b'{' ∷ ((c ∷ name) ++ (b'}' ∷ rest)))) context
        ≡ before ++ (value ++ render_template settings rest context)
  render_template-placeholder before c name rest value h n known =
      rw
        (
          render_template-expand (before ++ (b'{' ∷ ((c ∷ name) ++ (b'}' ∷ rest)))),
          render_template-expand rest,
        )
        (expand-placeholder values before c name rest h n
          ∙ ap (λ v. before ++ (or_placeholder (c ∷ name) v ++ expand values none rest))
              (lookup-context (normalize_placeholder (c ∷ name)) context settings value known))
