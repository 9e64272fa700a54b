-- ===== src/Dials.antt =====
-- src/dials.rs and src/kv.rs: the bodies of the customer's settings and their canonical folds.
use ciss.Prelude.{
  ℕ, String, Bool, true, false, not, ◌&&◌, ◌||◌, Option, none, some, [], ◌∷◌, leb, ◌==◌, length,
  all,
}
use ciss.Prelude.Text.{concat, decimal, as_bytes}
use ciss.Identifiers.{is_ascii_alphanumeric, is_empty}

pub record CeilingDialBody : Type 0 where
  pub at_rest_bytes : Option ℕ
  pub spend_cents : Option ℕ

abbrev fold_opt : Option ℕ → String
fold_opt none = "none"
fold_opt (some v) = decimal v

unfoldable pub ceiling_body_fold : CeilingDialBody → String
ceiling_body_fold b =
    concat
      ("at_rest_bytes=" ∷ fold_opt b.at_rest_bytes ∷ ";spend_cents=" ∷ fold_opt b.spend_cents ∷ [])

abbrev pub period_body_fold : String
period_body_fold = "new_period"

pub data AccountMode : Type 0 where
  active drawdown : AccountMode

abbrev pub is_active : AccountMode → Bool
is_active active = true
is_active drawdown = false

abbrev pub is_drawdown : AccountMode → Bool
is_drawdown m = not (is_active m)

pub record AccountModeBody : Type 0 where
  pub mode : AccountMode

abbrev pub account_mode_body_fold : AccountModeBody → String
account_mode_body_fold b = elim b.mode [ active ↦ "mode=active" | drawdown ↦ "mode=drawdown" ]

pub data ReceiptModeChoice : Type 0 where
  unilateral bilateral : ReceiptModeChoice

pub record ReceiptModeBody : Type 0 where
  pub mode : ReceiptModeChoice

abbrev pub receipt_mode_body_fold : ReceiptModeBody → String
receipt_mode_body_fold b = elim b.mode [
  | unilateral ↦ "mode=unilateral"
  | bilateral ↦ "mode=bilateral"
]

pub record FlagBody : Type 0 where
  pub set : Bool

abbrev bool_text : Bool → String
bool_text true = "true"
bool_text false = "false"

abbrev pub flag_body_fold : FlagBody → String
flag_body_fold b = concat ("set=" ∷ bool_text b.set ∷ [])

abbrev pub max_subkey_len : ℕ
max_subkey_len = 256

abbrev pub is_subkey_byte : ℕ → Bool
is_subkey_byte b =
    is_ascii_alphanumeric b || b == b'.' || b == b'_' || b == b'%' || b == b':' || b == b'-'

unfoldable pub subkey_valid : Option String → Bool
subkey_valid none = false
subkey_valid (some sk) =
    let bytes = as_bytes sk in
    not (is_empty bytes) && leb (length bytes) max_subkey_len && all is_subkey_byte bytes
