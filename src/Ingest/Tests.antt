-- ===== src/Ingest/Tests.antt =====
-- Runs of the redaction model, and each theorem at a concrete input.
mod Writes
use crashcart.Base.{◌≤◌, ◌≡◌, refl, [], ◌∷◌, ◌++◌, arith, length}
use crashcart.Base.Text.{Bytes, codes, str_eq}
use crashcart.Ingest.Redact.{
  replace_bounded, replace_from, is_bounded, digit_at, redact_user_id, redact_tags, is_sensitive,
  mask,
}

-- A match inside a longer run of digits stays.
bounded_only :
    (replace_bounded (λ s. (3, 7) ∷ []) (codes "no 1234.") ≡ codes "no [REDACTED].")
    × (replace_bounded (λ s. (3, 7) ∷ []) (codes "no 12345") ≡ codes "no 12345")
unfolding replace_bounded replace_from is_bounded digit_at
bounded_only = (refl, refl)

tags_redacted :
    redact_tags (λ s. codes "x") ((codes "email", codes "a@b.c") ∷ (codes "os", codes "ios") ∷ [])
    ≡ (codes "email", mask) ∷ (codes "os", codes "x") ∷ []
unfolding redact_tags is_sensitive str_eq
tags_redacted = refl
