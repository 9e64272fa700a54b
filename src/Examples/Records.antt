-- ===== src/Examples/Records.antt =====
-- The stored records as tokens, and the stand-in for the serde crates that they give.
use ciss.Prelude.{
  ℕ, ◌≡◌, refl, ap, String, Bool, true, false, Option, none, some, List, [], ◌∷◌, ◌==◌,
  if◌then◌else◌,
}
use ciss.Prelude.Map.{Map}
use ciss.Dials.{AccountMode, active, drawdown}
use ciss.Receipts.{Direction, ReceiptMode, Receipt}
use ciss.Receipts.Direction.{upload, download}
use ciss.Receipts.ReceiptMode.{unilateral, bilateral}
use ciss.Examples.Codec.{Token, num, str}

abbrev pub flag : ℕ → Bool
flag n = n == 1

abbrev pub bit : Bool → ℕ
bit true = 1
bit false = 0

abbrev pub pairs : Map String → List Token
pairs [] = []
pairs ((k, v) ∷ m) = str k ∷ str v ∷ pairs m

abbrev pub unpairs : List Token → Map String
unpairs (str k ∷ str v ∷ ts) = (k, v) ∷ unpairs ts
unpairs _ = []

pub unpairs-pairs : (m : Map String) → unpairs (pairs m) ≡ m
unpairs-pairs [] = refl
unpairs-pairs ((k, v) ∷ m) = ap (λ n. (k, v) ∷ n) (unpairs-pairs m)

abbrev pub of_direction : Direction → ℕ
of_direction upload = 0
of_direction download = 1

abbrev pub to_direction : ℕ → Direction
to_direction n = if n == 0 then upload else download

abbrev pub of_account : AccountMode → ℕ
of_account active = 0
of_account drawdown = 1

abbrev pub to_account : ℕ → AccountMode
to_account n = if n == 0 then active else drawdown

abbrev pub of_mode : ReceiptMode → ℕ
of_mode unilateral = 0
of_mode bilateral = 1

abbrev pub to_mode : ℕ → ReceiptMode
to_mode n = if n == 0 then unilateral else bilateral

abbrev pub receipt_tokens : Receipt → List Token
receipt_tokens r =
    num (of_direction r.core.direction)
    ∷ str r.core.cid
    ∷ num r.core.byte_start
    ∷ num r.core.byte_end
    ∷ num r.core.bytes
    ∷ num r.core.running_total
    ∷ num r.core.day
    ∷ num (of_account r.core.account_mode)
    ∷ str r.core.receiver_id
    ∷ str r.core.sender_id
    ∷ str r.content_hash
    ∷ num (of_mode r.mode)
    ∷ pairs r.sigs

abbrev pub token_receipt : List Token → Option Receipt
token_receipt
      (num dir
        ∷ str cid
        ∷ num start
        ∷ num end
        ∷ num bytes
        ∷ num total
        ∷ num day
        ∷ num acc
        ∷ str receiver
        ∷ str sender
        ∷ str hash
        ∷ num mode
        ∷ sigs) =
    some (record {
      core = record {
        direction = to_direction dir;
        cid = cid;
        byte_start = start;
        byte_end = end;
        bytes = bytes;
        running_total = total;
        day = day;
        account_mode = to_account acc;
        receiver_id = receiver;
        sender_id = sender;
      };
      content_hash = hash;
      mode = to_mode mode;
      sigs = unpairs sigs;
    })
token_receipt _ = none

pub direction-direction : (d : Direction) → to_direction (of_direction d) ≡ d
direction-direction upload = refl
direction-direction download = refl

pub account-account : (m : AccountMode) → to_account (of_account m) ≡ m
account-account active = refl
account-account drawdown = refl

pub mode-mode : (m : ReceiptMode) → to_mode (of_mode m) ≡ m
mode-mode unilateral = refl
mode-mode bilateral = refl

pub token_receipt-receipt_tokens : (r : Receipt) → token_receipt (receipt_tokens r) ≡ some r
token_receipt-receipt_tokens r =
    rw
      (
        direction-direction r.core.direction,
        account-account r.core.account_mode,
        mode-mode r.mode,
        unpairs-pairs r.sigs,
      )
      refl
