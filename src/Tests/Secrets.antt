-- ===== src/Tests/Secrets.antt =====
-- Redaction at concrete inputs.
use anne_de_breuil.Prelude.{◌≤◌, ◌<◌, ◌≡◌, refl, inl, inr, Option, some, List, [], ◌∷◌, arith}
use anne_de_breuil.Bytes.{Bytes}
use anne_de_breuil.Text.{Text, codes}
use anne_de_breuil.Redaction.{
  FindIter, Span, SecretCategory, aws_key_id, bearer_token, claims, compile_all, secret_patterns,
  redact,
}
use anne_de_breuil.Redaction.TakenOut.{TakenOut, redact-TakenOut}
use anne_de_breuil.Redaction.Output.{rewritten, redact-rewritten}

-- A library in which every pattern matches the second word.
abbrev second_word : Span
second_word = record { start = 4; end = 8 }

abbrev find_second : FindIter
find_second input = second_word ∷ []

abbrev compile_second : Text → Option FindIter
compile_second pattern = some find_second

abbrev line : Bytes
line = codes "key AKIA end"

abbrev patterns : List (FindIter × SecretCategory)
patterns = (find_second, aws_key_id) ∷ (find_second, bearer_token) ∷ []

redact-rewritten_example :
    (redact compile_second line).0 ≡ rewritten (claims (secret_patterns compile_second) line) 0 line
unfolding secret_patterns compile_all
redact-rewritten_example =
    let one : (4 < 8) × (8 ≤ 12) = (omega arith, omega arith) in
    redact-rewritten compile_second line
      ((one, tt), ((one, tt), ((one, tt), ((one, tt), ((one, tt), ((one, tt), ((one, tt), tt)))))))

redact-TakenOut_example : TakenOut compile_second line second_word
unfolding secret_patterns compile_all
redact-TakenOut_example =
    let one : (4 < 8) × (8 ≤ 12) = (omega arith, omega arith) in
    redact-TakenOut compile_second line (find_second, bearer_token) second_word
      ((one, tt), ((one, tt), ((one, tt), ((one, tt), ((one, tt), ((one, tt), ((one, tt), tt)))))))
      (inr (inr (inl refl))) (inl refl)
