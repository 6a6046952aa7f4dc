-- ===== src/Tests/Schema.antt =====
-- Tests of the schema's statements.
use a.Prelude.{ℕ, ◌+◌, ◌≡◌, refl, false, ltb}
use a.Golang.Text.{text}
use a.Storage.Schema.{init_schema}

-- A database that counts what it executes, and refuses the second statement.
second_fails : init_schema (λ query (n : ℕ). (n + 1, ltb n 1)) (text "apm") 0 ≡ (2, false)
unfolding init_schema
second_fails = refl
