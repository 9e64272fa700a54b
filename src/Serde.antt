-- ===== src/Serde.antt =====
-- The serde crates as the code uses them: the texts of the stored records, and the typed reading of
-- JSON bodies that the derived decoders give. What is written reads back; nothing else is assumed.
use ciss.Prelude.{ℕ, String, ◌≡◌, Bool, Option, some}
use ciss.Crypto.{Bytes}
use ciss.Policy.{PolicyBody}
use ciss.Dials.{CeilingDialBody, AccountModeBody, ReceiptModeBody, FlagBody}
use ciss.Chain.{ChainStep}
use ciss.Receipts.{Receipt}
use ciss.Manifest.{SignedManifest}
use ciss.Assertion.{SignedAssertion, RecordText}

pub record TextOf (A : Type 0) : Type 0 where
  pub to_text : A → String
  pub from_text : String → Option A
  pub from_text-to_text : (a : A) → from_text (to_text a) ≡ some a

pub record Serde : Type 1 where
  pub Value : Type 0
  pub record_text : RecordText Value
  pub receipt_text : TextOf Receipt
  pub manifest_text : TextOf SignedManifest
  -- `serde_json::from_value` at each body type
  pub policy_body : Value → Option PolicyBody
  pub ceiling_dial_body : Value → Option CeilingDialBody
  pub account_mode_body : Value → Option AccountModeBody
  pub receipt_mode_body : Value → Option ReceiptModeBody
  pub flag_body : Value → Option FlagBody
  pub chain_step : Value → Option ChainStep
  -- an object with no field
  pub is_empty_object : Value → Bool
  -- `serde_json::to_vec(value).len()`
  pub byte_len : Value → ℕ
  -- `serde_json::from_slice` of the request bodies
  pub manifest_from_slice : Bytes → Option SignedManifest
  pub record_from_slice : Bytes → Option (SignedAssertion Value)
  pub intent_from_slice : Bytes → Option (ℕ × Value)
  pub countersign_from_str : String → Option (String × String)
