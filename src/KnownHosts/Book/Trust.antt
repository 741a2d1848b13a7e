-- ===== src/KnownHosts/Book/Trust.antt =====
-- Whom `verify_host_key` of crates/anne-de-breuil/src/adapters/ssh_transport/known_hosts.rs trusts.
use anne_de_breuil.Prelude.{
  In-append, In-append_right, ◌≡◌, refl, ap, ◌≢◌, ◌↔◌, ◌⊎◌, inl, inr, Bool, true, Option, [], ◌∷◌,
  arith, Eq,
}
use anne_de_breuil.Bytes.{Bytes}
use anne_de_breuil.Text.{Text}
use anne_de_breuil.KnownHosts.Book.{
  KnownHosts, Pin, host_key_changed, verified, refused, record_key, verify_host_key,
}
use anne_de_breuil.KnownHosts.Book.Lookup.{
  Records, HasEntry, records_key_iff, has_entry_iff, lookup_any,
}

module _ {Key : Type 0} ⦃key_eq : Eq Key⦄ (hmac : Bytes → Bytes → Option Bytes) where
  -- `verify_host_key` verifies a key exactly if the book records it for the host, or new keys are
  -- accepted and the book has no key at all for the host.
  pub verified_iff :
      (fingerprint : Key → Text) (book : KnownHosts Key) (host : Bytes) (key : Key)
      (accept_new : Bool)
      → ((verify_host_key hmac fingerprint book host key accept_new).1 ≡ verified)
        ↔ (Records hmac book host key ⊎ ((accept_new ≡ true) × ¬ HasEntry hmac book host))
  unfolding verify_host_key
  verified_iff fingerprint book host key accept_new =
      let seen = records_key_iff hmac book host key in
      let some_key = has_entry_iff hmac book host in
      ground (arith, lookup_any hmac book host key, seen, some_key)

  -- The book behind a call that verified the key.
  verified-book :
      (fingerprint : Key → Text) (book : KnownHosts Key) (host : Bytes) (key : Key)
      (accept_new : Bool)
      → (verify_host_key hmac fingerprint book host key accept_new).1 ≡ verified
      → ((verify_host_key hmac fingerprint book host key accept_new).0 ≡ book
          × Records hmac book host key)
        ⊎ ((verify_host_key hmac fingerprint book host key accept_new).0
            ≡ record_key hmac book host key)
  unfolding verify_host_key
  verified-book fingerprint book host key accept_new v =
      ground (arith, lookup_any hmac book host key, records_key_iff hmac book host key)

  changed_lem :
      (fingerprint : Key → Text) (book : KnownHosts Key) (host : Bytes) (key other : Key)
      (again : Bool)
      → Records hmac book host key
      → ¬ Records hmac book host other
      → (verify_host_key hmac fingerprint book host other again).1 ≡ refused host_key_changed
  unfolding verify_host_key
  changed_lem fingerprint book host key other again r n =
      let entry : HasEntry hmac book host = elim r [
        | inl (e, m, k, _) ↦ inl (e, m, k)
        | inr m ↦ inr (key, m)
      ] in
      ground (
        arith,
        lookup_any hmac book host other,
        records_key_iff hmac book host other,
        (has_entry_iff hmac book host).1 entry,
      )

  recorded :
      (book : KnownHosts Key) (host : Bytes) (key : Key)
      → Records hmac (record_key hmac book host key) host key
  recorded book host key = inr (
      In-append_right (record { host = host; key = key }) book.accepted
        (record { host = host; key = key } ∷ []) (inl refl))

  recorded_before :
      (book : KnownHosts Key) (host : Bytes) (key other : Key)
      → other ≢ key
      → Records hmac (record_key hmac book host key) host other
      → Records hmac book host other
  recorded_before book host key other ne (inl r) = inl r
  recorded_before book host key other ne (inr m) =
      elim (In-append (record { host = host; key = other }) book.accepted
        (record { host = host; key = key } ∷ []) m) [
          | inl n ↦ inr n
          | inr (inl e) ↦ absurd (ne (ap (λ (p : Pin Key). p.key) e))
          | inr (inr n) ↦ absurd n
        ]

  -- Once `verify_host_key` has verified a key for a host, any other key that the book did not
  -- record for the host before is refused as changed, whether new keys are accepted or not.
  pub verify_host_key_pins :
      (fingerprint : Key → Text) (book : KnownHosts Key) (host : Bytes) (key other : Key)
      (accept_new again : Bool)
      → (verify_host_key hmac fingerprint book host key accept_new).1 ≡ verified
      → other ≢ key
      → ¬ Records hmac book host other
      → (verify_host_key hmac fingerprint
          (verify_host_key hmac fingerprint book host key accept_new).0
          host
          other
          again).1
        ≡ refused host_key_changed
  unfolding verify_host_key
  verify_host_key_pins fingerprint book host key other accept_new again v ne nr =
      elim (verified-book fingerprint book host key accept_new v) [
        | inl (same, r) ↦ rw same (changed_lem fingerprint book host key other again r nr)
        | inr grown ↦ rw grown (
            changed_lem fingerprint (record_key hmac book host key) host key other again
              (recorded book host key) (λ r. nr (recorded_before book host key other ne r)))
      ]
