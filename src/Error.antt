-- ===== src/Error.antt =====
-- crates/anne-de-breuil/src/domain/error.rs: the domain's errors, and the results that carry them.
use anne_de_breuil.Prelude.{ℕ, ◌≡◌, refl, List, [], ◌∷◌}
use anne_de_breuil.Text.{Text}

-- `InvalidUuid` keeps its field's name and drops the parser's own error value.
pub data DomainError : Type 0 where
  invalid_port invalid_process_id : ℕ → DomainError
  malformed_port_spec invalid_bind_address invalid_protocol : Text → DomainError
  empty_field invalid_uuid unknown_policy_store : Text → DomainError
  invalid_direction invalid_rule_action invalid_firewall_profile_kind : Text → DomainError
  missing_evidence overconfident_from_port_alone : DomainError
  invalid_host_address : Text → DomainError

-- `Result<A, DomainError>`.
pub data Result {ℓ} (A : Type ℓ) : Type ℓ where
  err : DomainError → Result A
  ok : A → Result A

module _ {ℓ κ} {A : Type ℓ} {B : Type κ} where
  -- `?`, and `and_then`.
  infixl 5 ◌>>=◌
  abbrev pub ◌>>=◌ : Result A → (A → Result B) → Result B
  err failure >>= next = err failure
  ok value >>= next = next value

  -- What came out of a chain came out of both its links.
  pub >>=-eq-ok :
      (first : Result A) (next : A → Result B) {out : B}
      → (first >>= next) ≡ ok out
      → (value : A) × (first ≡ ok value) × (next value ≡ ok out)
  >>=-eq-ok (err failure) next same = cc
  >>=-eq-ok (ok value) next same = (value, refl, same)

-- `collect::<Result<Vec<_>, _>>()` after `map`: the first error ends it.
abbrev pub collect {ℓ κ} : {A : Type ℓ} {B : Type κ} → (A → Result B) → List A → Result (List B)
collect f [] = ok []
collect f (a ∷ l) = do b ← f a; bs ← collect f l; ok (b ∷ bs)
