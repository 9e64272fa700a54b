-- ===== src/Chain.antt =====
-- src/chain_kind.rs: a per-subkey account kept as a hash-linked list of steps and checkpoints. The
-- verifications here are pure; the table that holds the entries is in Store/Chains.
pub mod Totals
pub mod Compaction
pub mod Commitment
use ciss.Prelude.{
  ℕ, ◌+◌, String, ◌≡◌, Bool, true, false, not, Option, none, some, List, [], ◌∷◌, str_eq, ◌==◌,
  Result, ok, err, ◌>>=◌, ◌>>◌, refuse_if,
}
use ciss.Prelude.Int.{ℤ, pos, ◌+ℤ◌, eqb_ℤ}
use ciss.Prelude.Text.{concat, decimal, decimal_ℤ, as_bytes}
use ciss.Crypto.{Primitives, sha256_hex}

abbrev pub genesis_prev_hash : String
genesis_prev_hash = "0000000000000000000000000000000000000000000000000000000000000000"

pub record ChainCounterBody : Type 0 where
  pub delta : ℤ
  pub total : ℕ
  pub prev_entry_hash : String

pub record CheckpointBody : Type 0 where
  pub closing_total : ℕ
  pub chain_head_hash : String
  pub prev_checkpoint : String

unfoldable pub chain_counter_body_fold : ChainCounterBody → String
chain_counter_body_fold b =
    concat (
      "delta="
      ∷ decimal_ℤ b.delta
      ∷ ";total="
      ∷ decimal b.total
      ∷ ";prev="
      ∷ b.prev_entry_hash
      ∷ [])

unfoldable pub checkpoint_body_fold : CheckpointBody → String
checkpoint_body_fold b = concat (
    "checkpoint;closing_total="
    ∷ decimal b.closing_total
    ∷ ";head="
    ∷ b.chain_head_hash
    ∷ ";prev_checkpoint="
    ∷ b.prev_checkpoint
    ∷ [])

-- `subkey.unwrap_or("")`.
abbrev pub subkey_or_empty : Option String → String
subkey_or_empty none = ""
subkey_or_empty (some sk) = sk

pub data ChainStep : Type 0 where
  checkpoint : CheckpointBody → ChainStep
  step : ChainCounterBody → ChainStep

unfoldable pub fold : ChainStep → String
fold (step b) = chain_counter_body_fold b
fold (checkpoint b) = checkpoint_body_fold b

abbrev pub is_checkpoint : ChainStep → Bool
is_checkpoint (checkpoint _) = true
is_checkpoint (step _) = false

pub data ChainBreak : Type 0 where
  seq : ℕ → ℕ → ChainBreak
  total : ℕ → ℤ → ℤ → ℕ → ChainBreak
  prev_hash : String → String → ChainBreak
  closing_total : ℕ → ℕ → ChainBreak
  prev_checkpoint : String → String → ChainBreak

unfoldable pub reason : ChainBreak → String
reason (seq expected got) =
    concat
      ("seq " ∷ decimal got ∷ " is not the next entry (expected " ∷ decimal expected ∷ ")" ∷ [])
reason (total prev_total delta expected got) = concat (
    "total "
    ∷ decimal got
    ∷ " does not follow: prev "
    ∷ decimal prev_total
    ∷ " + delta "
    ∷ decimal_ℤ delta
    ∷ " = "
    ∷ decimal_ℤ expected
    ∷ [])
reason (prev_hash expected got) =
    concat ("prev_entry_hash " ∷ got ∷ " does not match the chain head " ∷ expected ∷ [])
reason (closing_total running_total closing) = concat (
    "checkpoint closing_total "
    ∷ decimal closing
    ∷ " does not equal the running total "
    ∷ decimal running_total
    ∷ [])
reason (prev_checkpoint expected got) =
    concat ("prev_checkpoint " ∷ got ∷ " does not match the prior checkpoint " ∷ expected ∷ [])

pub record PrevEntry : Type 0 where
  pub seq : ℕ
  pub total : ℕ
  pub entry_hash : String

-- What an absent predecessor stands for: sequence 1 follows, the total is 0.
abbrev pub expected_of : Option PrevEntry → ℕ × ℕ × String
expected_of none = (1, 0, genesis_prev_hash)
expected_of (some p) = (p.seq + 1, p.total, p.entry_hash)

unfoldable pub verify_step : Option PrevEntry → ChainCounterBody → ℕ → Result ChainBreak (Unit {0})
verify_step prev body n =
    let (expected_seq, prev_total, expected_prev_hash) = expected_of prev in
    let expected_total = pos prev_total +ℤ body.delta in
    refuse_if (not (n == expected_seq)) (seq expected_seq n)
    >> refuse_if (not (str_eq body.prev_entry_hash expected_prev_hash))
        (prev_hash expected_prev_hash body.prev_entry_hash)
    >> refuse_if (not (eqb_ℤ (pos body.total) expected_total))
        (total prev_total body.delta expected_total body.total)

unfoldable pub verify_checkpoint :
    PrevEntry → String → CheckpointBody → ℕ → Result ChainBreak (Unit {0})
verify_checkpoint prev expected_prev_checkpoint body n =
    refuse_if (not (n == prev.seq + 1)) (seq (prev.seq + 1) n)
    >> refuse_if (not (str_eq body.chain_head_hash prev.entry_hash))
        (prev_hash prev.entry_hash body.chain_head_hash)
    >> refuse_if (not (body.closing_total == prev.total))
        (closing_total prev.total body.closing_total)
    >> refuse_if (not (str_eq body.prev_checkpoint expected_prev_checkpoint))
        (prev_checkpoint expected_prev_checkpoint body.prev_checkpoint)

pub record ChainEntry : Type 0 where
  pub did : String
  pub kind : String
  pub subkey : Option String
  pub seq : ℕ
  pub step : ChainStep

-- The total that an entry leaves: the running total of a step, the closing total of a checkpoint.
abbrev pub total_of : ChainStep → ℕ
total_of (step b) = b.total
total_of (checkpoint b) = b.closing_total

-- The loop state of `recompute_total`: the entry before, and the last checkpoint's hash.
pub record ChainHead : Type 0 where
  pub head : Option PrevEntry
  pub last_checkpoint : String

abbrev pub start : ChainHead
start = record { head = none; last_checkpoint = genesis_prev_hash }

module _ ⦃p : Primitives⦄ where
  unfoldable pub entry_hash : String → String → Option String → ℕ → ChainCounterBody → String
  entry_hash did kind subkey n body = sha256_hex (
      as_bytes (
        concat (
          did
          ∷ "|"
          ∷ kind
          ∷ "|"
          ∷ subkey_or_empty subkey
          ∷ "|"
          ∷ decimal n
          ∷ "|delta="
          ∷ decimal_ℤ body.delta
          ∷ ";total="
          ∷ decimal body.total
          ∷ ";prev="
          ∷ body.prev_entry_hash
          ∷ [])))

  unfoldable pub checkpoint_hash : String → String → Option String → ℕ → CheckpointBody → String
  checkpoint_hash did kind subkey n body = sha256_hex (
      as_bytes (
        concat (
          did
          ∷ "|"
          ∷ kind
          ∷ "|"
          ∷ subkey_or_empty subkey
          ∷ "|"
          ∷ decimal n
          ∷ "|checkpoint;closing_total="
          ∷ decimal body.closing_total
          ∷ ";head="
          ∷ body.chain_head_hash
          ∷ ";prev_checkpoint="
          ∷ body.prev_checkpoint
          ∷ [])))

  hash_of : String → String → Option String → ℕ → ChainStep → String
  hash_of did kind subkey n (step b) = entry_hash did kind subkey n b
  hash_of did kind subkey n (checkpoint b) = checkpoint_hash did kind subkey n b

  unfoldable pub head_hash : ChainEntry → String
  unfolding hash_of
  head_hash e = hash_of e.did e.kind e.subkey e.seq e.step

  -- A leading checkpoint has no predecessor to be checked against and is taken as the root.
  unfoldable pub check_entry : ChainHead → ℕ → ChainStep → Result ChainBreak (Unit {0})
  check_entry h n (step body) = verify_step h.head body n
  check_entry h n (checkpoint body) = elim h.head [
    | none ↦ ok tt
    | some prev ↦ verify_checkpoint prev h.last_checkpoint body n
  ]

  -- The loop state behind an accepted entry.
  unfoldable pub advance : ChainHead → ChainEntry → ChainHead
  advance h e =
      let hash = head_hash e in
      record {
        head = some (record { seq = e.seq; total = total_of e.step; entry_hash = hash });
        last_checkpoint = elim (is_checkpoint e.step) [ true ↦ hash | false ↦ h.last_checkpoint ];
      }

  -- The loop of `recompute_total` from a loop state.
  unfoldable pub walk : ChainHead → List ChainEntry → Result ChainBreak ChainHead
  unfolding check_entry
  walk h [] = ok h
  walk h (e ∷ rest) = check_entry h e.seq e.step >>= λ _. walk (advance h e) rest

  abbrev pub total_at : ChainHead → ℕ
  total_at h = elim h.head [ none ↦ 0 | some prev ↦ prev.total ]

  unfoldable pub recompute_total : List ChainEntry → Result ChainBreak ℕ
  recompute_total entries = walk start entries >>= λ h. ok (total_at h)
