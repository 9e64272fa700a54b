-- ===== src/Server/KindFold.antt =====
-- src/server.rs: `kind_fold`, the text of a body that a signature covers, for each registered kind.
use ciss.Prelude.{
  String, Bool, true, false, not, Option, none, some, str_eq, if◌then◌else◌, Result, ok, err, ok_or,
  ◌>>=◌, ◌>>◌, refuse_if, is_ok,
}
use ciss.Identifiers.{parse_content_addr}
use ciss.KindSpec.{
  policy_kind, ceiling_dial_kind, period_dial_kind, account_mode_dial_kind, receipt_mode_dial_kind,
  flag_kind, chain_counter_kind,
}
use ciss.Policy.{policy_body_fold, policy_body_valid}
use ciss.Dials.{
  ceiling_body_fold, period_body_fold, account_mode_body_fold, receipt_mode_body_fold,
  flag_body_fold, subkey_valid,
}
use ciss.Chain.{fold}
use ciss.Serde.{Serde}
use ciss.Server.{ServerError, bad_assertion}

abbrev is_some : Option String → Bool
is_some none = false
is_some (some _) = true

abbrev content_addr_or_none : Option String → Bool
content_addr_or_none none = true
content_addr_or_none (some sk) = is_ok (parse_content_addr sk)

module _ ⦃j : Serde⦄ where
  policy_fold : Option String → j.Value → Result ServerError String
  policy_fold subkey body =
      refuse_if (not (content_addr_or_none subkey))
        (bad_assertion "policy subkey is not a content address")
      >> ok_or (j.policy_body body) (bad_assertion "body is not a valid policy body")
      >>= λ b.
          refuse_if (not (policy_body_valid b))
            (bad_assertion "policy readers do not fit the read class")
          >> ok (policy_body_fold b)

  -- A dial of one body: it takes no subkey.
  dial_fold :
      {B : Type 0}
      → Option String
      → Option B
      → (B → String)
      → String
      → String
      → Result ServerError String
  dial_fold subkey decoded to_fold takes_none invalid =
      refuse_if (is_some subkey) (bad_assertion takes_none)
      >> ok_or decoded (bad_assertion invalid)
      >>= λ b. ok (to_fold b)

  period_fold : Option String → j.Value → Result ServerError String
  period_fold subkey body =
      refuse_if (is_some subkey) (bad_assertion "the period dial takes no subkey")
      >> refuse_if (not (j.is_empty_object body))
          (bad_assertion "the period dial body is empty ({})")
      >> ok period_body_fold

  -- A kind that keeps one record for each subkey.
  keyed_fold :
      {B : Type 0}
      → Option String
      → Option B
      → (B → String)
      → String
      → String
      → Result ServerError String
  keyed_fold subkey decoded to_fold needs_one invalid =
      refuse_if (not (subkey_valid subkey)) (bad_assertion needs_one)
      >> ok_or decoded (bad_assertion invalid)
      >>= λ b. ok (to_fold b)

  unfoldable pub kind_fold : String → Option String → j.Value → Result ServerError String
  unfolding policy_fold dial_fold period_fold keyed_fold
  kind_fold kind subkey body =
      if str_eq kind policy_kind
      then policy_fold subkey body
      else if str_eq kind ceiling_dial_kind
      then dial_fold subkey (j.ceiling_dial_body body) ceiling_body_fold
          "the ceiling dial takes no subkey" "body is not a valid ceiling dial"
      else if str_eq kind period_dial_kind
      then period_fold subkey body
      else if str_eq kind account_mode_dial_kind
      then dial_fold subkey (j.account_mode_body body) account_mode_body_fold
          "the account-mode dial takes no subkey" "body is not a valid account-mode dial"
      else if str_eq kind receipt_mode_dial_kind
      then dial_fold subkey (j.receipt_mode_body body) receipt_mode_body_fold
          "the receipt-mode dial takes no subkey" "body is not a valid receipt-mode dial"
      else if str_eq kind flag_kind
      then keyed_fold subkey (j.flag_body body) flag_body_fold "kv kinds require a valid subkey"
          "body is not a valid kv flag"
      else if str_eq kind chain_counter_kind
      then keyed_fold subkey (j.chain_step body) fold "chain.counter requires a valid subkey"
          "body is not a valid chain.counter entry"
      else err (bad_assertion "unknown assertion kind")
