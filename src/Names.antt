-- ===== src/Names.antt =====
-- Newtypes over text and numbers: crates/anne-de-breuil/src/domain/process.rs, service.rs,
-- publisher.rs, host_address.rs and `ProcessId` of ids.rs.
use anne_de_breuil.Prelude.{
  ℕ, Bool, false, not, ◌&&◌, ◌||◌, [], ◌∷◌, leb, ◌==◌, if◌then◌else◌, is_empty, all, Eq, ℕ_discrete,
}
use anne_de_breuil.Error.{
  empty_field, invalid_process_id, invalid_host_address, Result, ok, err, ◌>>=◌,
}
use anne_de_breuil.Text.{Text, codes, trim, split, utf8_len}

-- A trimmed text that is not empty.
pub record ProcessPath : Type 0 where
  pub as_str : Text

pub record ServiceName : Type 0 where
  pub as_str : Text

pub record PublisherName : Type 0 where
  pub as_str : Text

-- The shape that `ProcessPath`, `ServiceName` and `PublisherName` share.
trimmed : Text → Text → Result Text
trimmed field value = let s = trim value in if is_empty s then err (empty_field field) else ok s

-- `impl TryFrom<String> for ProcessPath`; `FromStr` is the same.
unfoldable pub process_path_try_from : Text → Result ProcessPath
unfolding trimmed
process_path_try_from value = do s ← trimmed (codes "ProcessPath") value; ok (record { as_str = s })

unfoldable pub service_name_try_from : Text → Result ServiceName
unfolding trimmed
service_name_try_from value = do s ← trimmed (codes "ServiceName") value; ok (record { as_str = s })

unfoldable pub publisher_name_try_from : Text → Result PublisherName
unfolding trimmed
publisher_name_try_from value = do
  s ← trimmed (codes "PublisherName") value
  ok (record { as_str = s })

pub data SignatureStatus : Type 0 where
  signed : PublisherName → SignatureStatus
  unsigned unknown not_applicable : SignatureStatus

-- A `u32` that is not zero.
pub record ProcessId : Type 0 where
  pub get : ℕ

unfoldable pub process_id_try_from : ℕ → Result ProcessId
process_id_try_from value =
    if value == 0 then err (invalid_process_id value) else ok (record { get = value })

abbrev is_alphanumeric : ℕ → Bool
is_alphanumeric c =
    (leb b'0' c && leb c b'9') || (leb b'a' c && leb c b'z') || (leb b'A' c && leb c b'Z')

abbrev starts_with_dash : Text → Bool
starts_with_dash [] = false
starts_with_dash (c ∷ s) = c == b'-'

abbrev ends_with_dash : Text → Bool
ends_with_dash [] = false
ends_with_dash (c ∷ []) = c == b'-'
ends_with_dash (c ∷ d ∷ s) = ends_with_dash (d ∷ s)

-- `len` counts bytes; every character that the last test lets through is one byte.
unfoldable pub is_valid_hostname_label : Text → Bool
is_valid_hostname_label label =
    not (is_empty label)
    && leb (utf8_len label) 63
    && not (starts_with_dash label)
    && not (ends_with_dash label)
    && all (λ c. is_alphanumeric c || c == b'-' || c == b'_') label

unfoldable pub is_valid_hostname : Text → Bool
unfolding is_valid_hostname_label
is_valid_hostname candidate =
    leb (utf8_len candidate) 253 && all is_valid_hostname_label (split b'.' candidate)

pub record HostAddress : Type 0 where
  pub as_str : Text

-- `impl TryFrom<String> for HostAddress`, over the standard parser of IP addresses.
unfoldable pub host_address_try_from : (Text → Bool) → Text → Result HostAddress
unfolding is_valid_hostname
host_address_try_from is_ip value =
    let s = trim value in
    if is_empty s
    then err (invalid_host_address value)
    else if is_ip s || is_valid_hostname s
    then ok (record { as_str = s })
    else err (invalid_host_address value)

unfoldable pub ProcessPath-discrete : Discrete ProcessPath
ProcessPath-discrete = hlevel ℕ_discrete

instance abbrev pub ProcessPath-eq : Eq ProcessPath
ProcessPath-eq = record { eq_dec = ProcessPath-discrete }

unfoldable pub ServiceName-discrete : Discrete ServiceName
ServiceName-discrete = hlevel ℕ_discrete

instance abbrev pub ServiceName-eq : Eq ServiceName
ServiceName-eq = record { eq_dec = ServiceName-discrete }

unfoldable pub SignatureStatus-discrete : Discrete SignatureStatus
SignatureStatus-discrete = hlevel ℕ_discrete

instance abbrev pub SignatureStatus-eq : Eq SignatureStatus
SignatureStatus-eq = record { eq_dec = SignatureStatus-discrete }
