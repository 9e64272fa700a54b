-- ===== src/Sync/Heads.antt =====
-- crates/ciss-sync/src/device_head.rs: the signed commit record of one device. The CBOR crate is the
-- parameter `HeadFormat`.
use ciss.Prelude.{
  ℕ, String, ◌≡◌, refl, true, not, Option, none, some, [], ◌∷◌, str_eq, arith, Option-cases,
  Bool-cases, inl, inr, subst, str_eq→eq, Result, ok, ◌>>=◌, refuse_if, ok_or,
}
use ciss.Prelude.Text.{concat, decimal}
use ciss.Crypto.{
  Primitives, Bytes, Keypair, sign_message, verify_message, verifying_key,
  verify_message-sign_message,
}
use ciss.Sync.{SyncError, decode, encode}

abbrev pub device_head_kind : String
device_head_kind = "croft.device-head/v1"

abbrev pub head_sig_domain : String
head_sig_domain = "croft.device-head/v1"

pub record DeviceHead : Type 0 where
  pub kind : String
  pub device_id : String
  pub counter : ℕ
  pub fs_root : String
  pub parent : Option String
  pub base : Option String
  pub signature : String

-- `serde_ipld_dagcbor` at a head. What is written reads back.
pub record HeadFormat : Type 0 where
  pub head_to_vec : DeviceHead → Option Bytes
  pub head_from_slice : Bytes → Option DeviceHead
  pub head_from_slice-to_vec :
      (h : DeviceHead) (bytes : Bytes) → head_to_vec h ≡ some bytes → head_from_slice bytes ≡ some h

-- `unwrap_or("-")`.
abbrev or_dash : Option String → String
or_dash none = "-"
or_dash (some s) = s

unfoldable pub head_preimage : String → ℕ → String → Option String → Option String → String
head_preimage device_id counter fs_root parent base = concat (
    head_sig_domain
    ∷ ":"
    ∷ device_id
    ∷ ":"
    ∷ decimal counter
    ∷ ":"
    ∷ fs_root
    ∷ ":"
    ∷ or_dash parent
    ∷ ":"
    ∷ or_dash base
    ∷ [])

module _ ⦃p : Primitives⦄ where
  unfoldable pub new_signed :
      String → ℕ → String → Option String → Option String → Keypair → DeviceHead
  new_signed device_id counter fs_root parent base keypair = record {
    kind = device_head_kind;
    device_id = device_id;
    counter = counter;
    fs_root = fs_root;
    parent = parent;
    base = base;
    signature = sign_message keypair (head_preimage device_id counter fs_root parent base);
  }

module _ ⦃format : HeadFormat⦄ where
  unfoldable pub encode_head : DeviceHead → Result SyncError Bytes
  encode_head head = ok_or (format.head_to_vec head) (encode "device head")

module _ ⦃p : Primitives⦄ ⦃format : HeadFormat⦄ where
  unfoldable pub decode_verified : Bytes → p.VerifyingKey → Result SyncError DeviceHead
  decode_verified bytes verifier =
      ok_or (format.head_from_slice bytes) (decode "device head") >>= λ head.
      refuse_if (not (str_eq head.kind device_head_kind)) (decode "not a device head") >>= λ _.
      refuse_if
        (not (
          verify_message verifier
            (head_preimage head.device_id head.counter head.fs_root head.parent head.base)
            head.signature))
        (decode "signature invalid")
      >>= λ _. ok head

  -- A head that a device signs and encodes is decoded and verified as itself under the account's key.
  pub decode_verified-new_signed :
      (device_id : String) (counter : ℕ) (fs_root : String) (parent base : Option String)
      (keypair : Keypair) (bytes : Bytes)
      → encode_head (new_signed device_id counter fs_root parent base keypair) ≡ ok bytes
      → decode_verified bytes (verifying_key keypair)
        ≡ ok (new_signed device_id counter fs_root parent base keypair)
  unfolding decode_verified encode_head new_signed
  decode_verified-new_signed device_id counter fs_root parent base keypair bytes encoded =
      let head = new_signed device_id counter fs_root parent base keypair in
      elim (Option-cases (format.head_to_vec head)) [
        | inl failed ↦ ground arith
        | inr (written, is_written) ↦
            let same : written ≡ bytes = ground arith in
            rw
              (
                subst (λ b. format.head_from_slice b ≡ some head) same
                    (format.head_from_slice-to_vec head written is_written),
                verify_message-sign_message keypair
                    (head_preimage device_id counter fs_root parent base),
              )
              refl
      ]

  -- Bytes that decode and verify are a head of the right kind whose signature is one of the verifier
  -- over the device, its counter, the tree, the parent and the base.
  pub decode_verified_sound :
      (bytes : Bytes) (verifier : p.VerifyingKey) (head : DeviceHead)
      → decode_verified bytes verifier ≡ ok head
      → (format.head_from_slice bytes ≡ some head)
        × (head.kind ≡ device_head_kind)
        × (verify_message verifier
              (head_preimage head.device_id head.counter head.fs_root head.parent head.base)
              head.signature
            ≡ true)
  unfolding decode_verified
  decode_verified_sound bytes verifier head verified =
      elim (Option-cases (format.head_from_slice bytes)) [
        | inl failed ↦ ground arith
        | inr (read, is_read) ↦ elim (Bool-cases (str_eq read.kind device_head_kind)) [
          | inr other ↦ ground arith
          | inl right ↦
              let signed =
                verify_message verifier
                  (head_preimage read.device_id read.counter read.fs_root read.parent read.base)
                  read.signature in
              elim (Bool-cases signed) [
                | inr forged ↦ ground arith
                | inl valid ↦
                    let same : read ≡ head = ground arith in
                    subst
                      (λ h.
                        (format.head_from_slice bytes ≡ some h)
                        × (h.kind ≡ device_head_kind)
                        × (verify_message verifier
                              (head_preimage h.device_id h.counter h.fs_root h.parent h.base)
                              h.signature
                            ≡ true))
                      same (is_read, str_eq→eq read.kind device_head_kind right, valid)
              ]
        ]
      ]
