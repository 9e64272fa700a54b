-- ===== src/Examples/Settings.antt =====
-- Signed records as tokens, and the bodies that their tokens decode to.
use ciss.Prelude.{
  ℕ, ◌≡◌, refl, ap, ◌∙◌, String, Bool, true, false, Option, none, some, List, [], ◌∷◌, ◌==◌,
  if◌then◌else◌, length,
}
use ciss.Prelude.Int.{ℤ, pos, negsuc}
use ciss.Crypto.{Bytes}
use ciss.Policy.{world, grantees, owner, PolicyBody}
use ciss.Dials.{
  CeilingDialBody, active, drawdown, AccountModeBody, ReceiptModeChoice, ReceiptModeBody, FlagBody,
}
use ciss.Chain.{ChainStep, step, checkpoint}
use ciss.Receipts.{ReceiptCore, Canonical}
use ciss.Assertion.{
  SignedAssertion, Ack, Authorization, owner_signed, provider_attested, RecordText,
}
use ciss.Serde.{Serde}
use ciss.Prelude.Text.{as_bytes}
use ciss.Examples.Records.{receipt_tokens, token_receipt, token_receipt-receipt_tokens}
use ciss.Examples.Manifests.{manifest_tokens, token_manifest, token_manifest-manifest_tokens}
use ciss.Examples.Codec.{Token, num, str, write, read, read-write}

abbrev pub opt_tokens : Option String → List Token → List Token
opt_tokens none rest = num 0 ∷ str "" ∷ rest
opt_tokens (some s) rest = num 1 ∷ str s ∷ rest

abbrev pub auth_tokens : Authorization → List Token → List Token
auth_tokens (owner_signed o) rest = num 0 ∷ str o.signer ∷ str o.sig ∷ str "" ∷ rest
auth_tokens (provider_attested t) rest =
    num 1 ∷ str t.owner_did ∷ str t.authorizing_jti ∷ str t.provider_sig ∷ rest

-- The bodies are lists of tokens.
abbrev pub Value : Type 0
Value = List Token

abbrev pub record_tokens : SignedAssertion Value → List Token
record_tokens a =
    str a.did ∷ str a.kind ∷ num a.seq ∷ opt_tokens a.subkey (auth_tokens a.authorization a.body)

abbrev pub to_auth : ℕ → String → String → String → Authorization
to_auth n x y z =
    if n == 0
    then owner_signed (record { signer = x; sig = y })
    else provider_attested (record { owner_did = x; authorizing_jti = y; provider_sig = z })

abbrev pub token_record : List Token → Option (SignedAssertion Value)
token_record
      (str did ∷ str kind ∷ num seq ∷ num o ∷ str sk ∷ num n ∷ str x ∷ str y ∷ str z ∷ body) =
    some (record {
      did = did;
      kind = kind;
      subkey = if o == 0 then none else some sk;
      seq = seq;
      body = body;
      authorization = to_auth n x y z;
    })
token_record _ = none

pub token_record-parts :
    (a : SignedAssertion Value) (sk : Option String) (auth : Authorization)
    → token_record (str a.did ∷ str a.kind ∷ num a.seq ∷ opt_tokens sk (auth_tokens auth a.body))
      ≡ some (record a { subkey = sk; authorization = auth })
token_record-parts a none (owner_signed o) = refl
token_record-parts a none (provider_attested t) = refl
token_record-parts a (some s) (owner_signed o) = refl
token_record-parts a (some s) (provider_attested t) = refl

pub token_record-record_tokens :
    (a : SignedAssertion Value) → token_record (record_tokens a) ≡ some a
token_record-record_tokens a = token_record-parts a a.subkey a.authorization

abbrev pub readers_of : List Token → List String
readers_of (str r ∷ ts) = r ∷ readers_of ts
readers_of _ = []

abbrev pub to_policy : Value → Option PolicyBody
to_policy (num n ∷ ts) = some (record {
  read_class = if n == 0 then world else if n == 1 then grantees else owner;
  readers = readers_of ts;
})
to_policy _ = none

abbrev pub optional : ℕ → ℕ → Option ℕ
optional present n = if present == 0 then none else some n

abbrev pub to_ceiling : Value → Option CeilingDialBody
to_ceiling (num a ∷ num at_rest ∷ num b ∷ num spend ∷ []) =
    some (record { at_rest_bytes = optional a at_rest; spend_cents = optional b spend })
to_ceiling _ = none

abbrev pub to_account_body : Value → Option AccountModeBody
to_account_body (num n ∷ []) = some (record { mode = if n == 0 then active else drawdown })
to_account_body _ = none

abbrev pub to_receipt_body : Value → Option ReceiptModeBody
to_receipt_body (num n ∷ []) =
    some (record {
      mode = if n == 0 then ReceiptModeChoice.unilateral else ReceiptModeChoice.bilateral;
    })
to_receipt_body _ = none

abbrev pub to_flag : Value → Option FlagBody
to_flag (num n ∷ []) = some (record { set = n == 1 })
to_flag _ = none

abbrev pub signed : ℕ → ℕ → ℤ
signed sign n = if sign == 0 then pos n else negsuc n

abbrev pub to_step : Value → Option ChainStep
to_step (num sign ∷ num n ∷ num total ∷ str prev ∷ []) =
    some (step (record { delta = signed sign n; total = total; prev_entry_hash = prev }))
to_step (str head ∷ num total ∷ str prev ∷ []) =
    some (
      checkpoint (record { closing_total = total; chain_head_hash = head; prev_checkpoint = prev }))
to_step _ = none

abbrev pub is_nil : Value → Bool
is_nil [] = true
is_nil (_ ∷ _) = false

abbrev pub ack_tokens : Ack → List Token
ack_tokens a = str a.signer ∷ str a.sig ∷ []

abbrev pub token_ack : List Token → Option Ack
token_ack (str signer ∷ str sig ∷ []) = some (record { signer = signer; sig = sig })
token_ack _ = none

pub token_ack-ack_tokens : (a : Ack) → token_ack (ack_tokens a) ≡ some a
token_ack-ack_tokens a = refl

abbrev pub read_as {ℓ} : {A : Type ℓ} → (List Token → Option A) → String → Option A
read_as decode text = decode (read text)

pub read_as-write {ℓ} :
    {A : Type ℓ} (encode : A → List Token) (decode : List Token → Option A)
    → ((a : A) → decode (encode a) ≡ some a)
    → (a : A) → read_as decode (write (encode a)) ≡ some a
read_as-write encode decode law a = ap decode (read-write (encode a)) ∙ law a

abbrev pub record_wire : RecordText Value
record_wire = record {
  to_string = λ a. write (record_tokens a);
  from_str = read_as token_record;
  from_str-to_string = read_as-write record_tokens token_record token_record-record_tokens;
  ack_to_string = λ a. write (ack_tokens a);
  ack_from_str = read_as token_ack;
  ack_from_str-to_string = read_as-write ack_tokens token_ack token_ack-ack_tokens;
}

abbrev pub core_bytes : ReceiptCore → Bytes
core_bytes core = core.running_total ∷ core.bytes ∷ core.day ∷ as_bytes core.cid

abbrev pub toy_core : Canonical ReceiptCore
toy_core = record { to_canonical_bytes = core_bytes }

abbrev pub toy_serde : Serde
toy_serde = record {
  Value = Value;
  record_text = record_wire;
  receipt_text = record {
    to_text = λ r. write (receipt_tokens r);
    from_text = read_as token_receipt;
    from_text-to_text = read_as-write receipt_tokens token_receipt token_receipt-receipt_tokens;
  };
  manifest_text = record {
    to_text = λ m. write (manifest_tokens m);
    from_text = read_as token_manifest;
    from_text-to_text = read_as-write manifest_tokens token_manifest token_manifest-manifest_tokens;
  };
  policy_body = to_policy;
  ceiling_dial_body = to_ceiling;
  account_mode_body = to_account_body;
  receipt_mode_body = to_receipt_body;
  flag_body = to_flag;
  chain_step = to_step;
  is_empty_object = is_nil;
  byte_len = length;
  manifest_from_slice = λ bytes. none;
  record_from_slice = λ bytes. none;
  intent_from_slice = λ bytes. some (length bytes, num 0 ∷ []);
  countersign_from_str = λ s. none;
}
