-- ===== src/Redact/Tests.antt =====
-- Redaction of a small configuration.
use lakta.Prelude.{ℕ, ◌≡◌, refl, true, false, List, [], ◌∷◌, ◌++◌}
use lakta.Redact.{
  Fields, field, end, text, scalar, array, nil, cons, object, when_authorized, Redactor,
  redact_mask, key_matches, default_key, is_passthrough_key, walk, redact, masking, password,
  redact_value, deep_copy_value, redact_fields,
}
use lakta.Redact.Covered.{
  key, index, map_leaf, shown, is_covered, leaf_at, leaf_at-redact, text_leaf,
}
use lakta.Redact.Words.{redact-hides}

redact_program : Unit {0}
unfolding redact walk key_matches default_key is_passthrough_key masking redact_value redact_fields
    deep_copy_value
redact_program = tt

abbrev redactor : Redactor
redactor = record {
  additive = λ k. false;
  show_values = when_authorized;
  uri_userinfo = λ s. s;
  dsn_param = λ s. s;
}

-- DB_Password
abbrev db_password : List ℕ
db_password = b'D' ∷ b'B' ∷ b'_' ∷ b'P' ∷ b'a' ∷ b's' ∷ b's' ∷ b'w' ∷ b'o' ∷ b'r' ∷ b'd' ∷ []

abbrev port : List ℕ
port = b'p' ∷ b'o' ∷ b'r' ∷ b't' ∷ []

abbrev sample : Fields
sample = field port (scalar 80) (field db_password (array (cons (text (b'x' ∷ [])) nil)) end)

redact-sample :
    redact redactor sample false
    ≡ field port (scalar 80) (field db_password (array (cons (text redact_mask) nil)) end)
unfolding redact_program
redact-sample = refl

masked : masking redactor false ≡ true
unfolding redact_program
masked = refl

leaf_at-redact_example :
    leaf_at (key port ∷ []) (object (redact redactor sample false))
    ≡ map_leaf
        (shown redactor (is_covered redactor (key port ∷ [])))
        (leaf_at (key port ∷ []) (object sample))
leaf_at-redact_example = leaf_at-redact redactor sample false (key port ∷ []) masked

redact-hides_example :
    leaf_at ([] ++ key db_password ∷ index 0 ∷ []) (object (redact redactor sample false))
    ≡ map_leaf
        (λ l. text_leaf redact_mask)
        (leaf_at ([] ++ key db_password ∷ index 0 ∷ []) (object sample))
redact-hides_example =
    redact-hides redactor sample false [] (index 0 ∷ []) db_password password
      (b'd' ∷ b'b' ∷ b'_' ∷ []) [] masked refl refl
