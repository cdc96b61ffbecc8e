-- ===== src/Query/Predicate/Like.antt =====
-- src/modules/query/log-predicate-builder.ts: what the pattern of a search text matches.
use log_stream.Base.{
  ℕ, ◌≡◌, refl, ap, ◌∙◌, Bool, true, false, ◌&&◌, ◌||◌, [], ◌∷◌, ◌++◌, is_empty, arith, Bool-cases,
  inl, inr,
}
use log_stream.Base.Text.{Text}
use log_stream.Query.Predicate.{is_special, escape_like_literal, like_pattern}

-- The test at the text or at one of its ends.
abbrev pub any_end : (Text → Bool) → Text → Bool
any_end test [] = test []
any_end test (x ∷ t) = test (x ∷ t) || any_end test t

abbrev pub one_unit : (ℕ → Bool) → (Text → Bool) → Text → Bool
one_unit unit test [] = false
one_unit unit test (x ∷ t) = unit x && test t

escape-special :
    (c : ℕ) (q : Text)
    → is_special c ≡ true
    → escape_like_literal (c ∷ q) ≡ 92 ∷ c ∷ escape_like_literal q
unfolding escape_like_literal
escape-special c q h = ground arith

escape-plain :
    (c : ℕ) (q : Text)
    → is_special c ≡ false
    → escape_like_literal (c ∷ q) ≡ c ∷ escape_like_literal q
unfolding escape_like_literal
escape-plain c q h = ground arith

-- What the documentation of PostgreSQL says of a pattern with the escape `\`, where `same` is how units
-- compare (`ILIKE` folds their case): `%` stands for any text, a unit behind `\` for itself, and so does
-- a unit that is not special.
pub record IsLike (same : ℕ → ℕ → Bool) (like : Text → Text → Bool) : Type 0 where
  pub at_end : (t : Text) → like [] t ≡ is_empty t
  pub any_text : (ps t : Text) → like (b'%' ∷ ps) t ≡ any_end (like ps) t
  pub quoted : (c : ℕ) (ps t : Text) → like (92 ∷ c ∷ ps) t ≡ one_unit (same c) (like ps) t
  pub plain :
      (c : ℕ) (ps t : Text) → is_special c ≡ false → like (c ∷ ps) t ≡ one_unit (same c) (like ps) t

module _ (same : ℕ → ℕ → Bool) where
  -- A text that starts with another, and one that contains it, by the same comparison.
  unfoldable pub starts_same : Text → Text → Bool
  starts_same [] t = true
  starts_same (c ∷ q) t = one_unit (same c) (starts_same q) t

  unfoldable pub contains : Text → Text → Bool
  contains q t = any_end (starts_same q) t

  any_end-is_empty : (t : Text) → any_end is_empty t ≡ true
  any_end-is_empty [] = refl
  any_end-is_empty (x ∷ t) = any_end-is_empty t

  any_end-ext :
      (f g : Text → Bool) (t : Text) → ((s : Text) → f s ≡ g s) → any_end f t ≡ any_end g t
  any_end-ext f g [] h = h []
  any_end-ext f g (x ∷ t) h = cc (h (x ∷ t), any_end-ext f g t h)

  one_unit-ext :
      (u : ℕ → Bool) (f g : Text → Bool) (t : Text)
      → ((s : Text) → f s ≡ g s)
      → one_unit u f t ≡ one_unit u g t
  one_unit-ext u f g [] h = refl
  one_unit-ext u f g (x ∷ t) h = cc (h t)

  module _ (like : Text → Text → Bool) (l : IsLike same like) where
    like-escape : (q t : Text) → like (escape_like_literal q ++ (b'%' ∷ [])) t ≡ starts_same q t
    unfolding starts_same escape_like_literal
    like-escape [] t =
        l.any_text [] t ∙ (any_end-ext (like []) is_empty t l.at_end ∙ any_end-is_empty t)
    like-escape (c ∷ q) t =
        let rest = escape_like_literal q ++ (b'%' ∷ []) in
        let step : one_unit (same c) (like rest) t ≡ starts_same (c ∷ q) t =
          one_unit-ext (same c) (like rest) (starts_same q) t (like-escape q) in
        elim (Bool-cases (is_special c)) [
          | inl s ↦
              ap (λ p. like (p ++ (b'%' ∷ [])) t) (escape-special c q s)
              ∙ (l.quoted c rest t ∙ step)
          | inr s ↦
              ap (λ p. like (p ++ (b'%' ∷ [])) t) (escape-plain c q s) ∙ (l.plain c rest t s ∙ step)
        ]

  -- With any matcher that follows the documentation, the pattern of a search text matches exactly the messages that contain the search text, unit by unit, with the characters that are special in a pattern taken as they are.
  pub like_pattern-IsLike :
      (like : Text → Text → Bool)
      → IsLike same like
      → (q t : Text) → like (like_pattern q) t ≡ contains q t
  unfolding like_pattern contains
  like_pattern-IsLike like l q t =
      l.any_text (escape_like_literal q ++ (b'%' ∷ [])) t
      ∙ any_end-ext (like (escape_like_literal q ++ (b'%' ∷ []))) (starts_same q) t
          (like-escape like l q)
