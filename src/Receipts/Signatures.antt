-- ===== src/Receipts/Signatures.antt =====
-- What the verifications of a receipt accept and refuse.
use ciss.Prelude.{
  refl, ap, ◌∙◌, Option, str_eq, String, ◌≡◌, ◌≢◌, true, false, none, some, [], arith, eq_iff,
  str_eq_refl,
}
use ciss.Prelude.Map
use ciss.Prelude.Map.{Map, get-insert}
use ciss.Crypto.{
  Primitives, Keypair, sign_message, verifying_key, verify_message, verify_message-sign_message,
}
use ciss.Receipts.{
  ReceiptCore, Receipt, Canonical, is_bilateral, both_verify, Keyring, content_hash_of,
  core_matches, is_acknowledged, is_co_attested, verify_bilateral, verify_unilateral,
  make_bilateral_receipt, make_unilateral_receipt,
}

module _ ⦃p : Primitives⦄ ⦃c : Canonical ReceiptCore⦄ where
  -- A receipt that the receiver and the sender sign verifies as bilateral under any keyring that
  -- pins the public keys of the two, where they are two parties.
  pub verify_bilateral-make :
      (core : ReceiptCore) (receiver sender : Keypair) (keyring : Keyring)
      → core.receiver_id ≢ core.sender_id
      → Map.get core.receiver_id keyring ≡ some (verifying_key receiver)
      → Map.get core.sender_id keyring ≡ some (verifying_key sender)
      → verify_bilateral keyring (make_bilateral_receipt core (some receiver) sender) ≡ true
  unfolding verify_bilateral make_bilateral_receipt core_matches
  verify_bilateral-make core receiver sender keyring ne hr hs =
      let hash = content_hash_of core in
      ground (
        arith,
        hr,
        hs,
        eq_iff core.sender_id core.receiver_id,
        str_eq_refl hash,
        str_eq_refl core.sender_id,
        str_eq_refl core.receiver_id,
        get-insert core.sender_id core.receiver_id (sign_message sender hash)
            (Map.insert core.receiver_id (sign_message receiver hash) []),
        get-insert core.sender_id core.sender_id (sign_message sender hash)
            (Map.insert core.receiver_id (sign_message receiver hash) []),
        get-insert core.receiver_id core.receiver_id (sign_message receiver hash) [],
        verify_message-sign_message receiver hash,
        verify_message-sign_message sender hash,
      )

  -- The party signed the core of this receipt, with the key that the keyring pins for it.
  abbrev pub SignedBy : Keyring → Receipt → String → Type 0
  SignedBy keyring r id =
      (key : p.VerifyingKey) × (sig : String) × (Map.get id keyring ≡ some key)
      × (Map.get id r.sigs ≡ some sig)
      × (verify_message key (content_hash_of r.core) sig ≡ true)

  both_verify-true :
      (hash : String) (rs ss : Option String) (rk sk : Option p.VerifyingKey)
      → both_verify hash rs ss rk sk ≡ true
      → (key : p.VerifyingKey) × (sig : String) × (key' : p.VerifyingKey) × (sig' : String) × (rk
          ≡ some key)
        × (rs ≡ some sig)
        × (verify_message key hash sig ≡ true)
        × (sk ≡ some key')
        × (ss ≡ some sig')
        × (verify_message key' hash sig' ≡ true)
  unfolding both_verify
  both_verify-true hash (some rs) (some ss) (some rk) (some sk) h =
      (rk, rs, sk, ss, refl, refl, ground arith, refl, refl, ground arith)
  both_verify-true hash none _ _ _ h = absurd (ground (arith, h))
  both_verify-true hash (some _) none _ _ h = absurd (ground (arith, h))
  both_verify-true hash (some _) (some _) none _ h = absurd (ground (arith, h))
  both_verify-true hash (some _) (some _) (some _) none h = absurd (ground (arith, h))

  -- A receipt that verifies as bilateral is signed by its receiver and by its sender, each over the
  -- hash of the core that it shows and under the key that the keyring pins for that party; it counts as
  -- acknowledged and as co-attested and never verifies as unilateral. With its core exchanged for one of
  -- another hash it verifies in neither way.
  pub verify_bilateral_sound :
      (keyring : Keyring) (r : Receipt) (other : ReceiptCore)
      → content_hash_of other ≢ content_hash_of r.core
      → verify_bilateral keyring r ≡ true
      → SignedBy keyring r r.core.receiver_id
        × SignedBy keyring r r.core.sender_id
        × (is_acknowledged r ≡ true)
        × (is_co_attested r ≡ true)
        × (verify_unilateral keyring r ≡ false)
        × (verify_bilateral keyring (record r { core = other }) ≡ false)
        × (verify_unilateral keyring (record r { core = other }) ≡ false)
  unfolding verify_bilateral verify_unilateral core_matches is_acknowledged is_co_attested
      Map.contains_key
  verify_bilateral_sound keyring r other differs h =
      let hash : content_hash_of r.core ≡ r.content_hash =
        ground (arith, h, eq_iff (content_hash_of r.core) r.content_hash) in
      let both : both_verify r.content_hash (Map.get r.core.receiver_id r.sigs)
            (Map.get r.core.sender_id r.sigs) (Map.get r.core.receiver_id keyring)
            (Map.get r.core.sender_id keyring)
          ≡ true =
        ground (arith, h) in
      let (rk, rs, sk, ss, pins_r, has_r, good_r, pins_s, has_s, good_s) =
        both_verify-true r.content_hash (Map.get r.core.receiver_id r.sigs)
          (Map.get r.core.sender_id r.sigs) (Map.get r.core.receiver_id keyring)
          (Map.get r.core.sender_id keyring) both in
      let is_two : is_bilateral r.mode ≡ true = ground (arith, h) in
      let torn : str_eq (content_hash_of other) r.content_hash ≡ false =
        ground (arith, eq_iff (content_hash_of other) r.content_hash, differs, hash) in
      (
        (rk, rs, pins_r, has_r, ap (λ k. verify_message rk k rs) hash ∙ good_r),
        (sk, ss, pins_s, has_s, ap (λ k. verify_message sk k ss) hash ∙ good_s),
        ground (arith, has_r, has_s),
        ground (arith, is_two, has_r, has_s),
        ground (arith, is_two),
        ground (arith, torn),
        ground (arith, torn, is_two),
      )

  -- The provider's own measurement verifies as unilateral, is never co-attested, and never passes
  -- for a bilateral receipt.
  pub verify_unilateral-make :
      (core : ReceiptCore) (id : String) (key : Keypair) (keyring : Keyring)
      → Map.get id keyring ≡ some (verifying_key key)
      → (verify_unilateral keyring (make_unilateral_receipt core id key) ≡ true)
        × (is_co_attested (make_unilateral_receipt core id key) ≡ false)
        × (verify_bilateral keyring (make_unilateral_receipt core id key) ≡ false)
  unfolding verify_unilateral verify_bilateral is_co_attested make_unilateral_receipt core_matches
      Map.insert
  verify_unilateral-make core id key keyring h = ground (
    arith,
    h,
    str_eq_refl (content_hash_of core),
    verify_message-sign_message key (content_hash_of core),
  )
