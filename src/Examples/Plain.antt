-- ===== src/Examples/Plain.antt =====
-- The claims on the parts that need no stored records, applied to concrete inputs.
use ciss.Compute.{new_ledger}
use ciss.Compute.Bounded.{IsBounded}
use ciss.Prelude.Map
use ciss.Prelude.{ℕ, ◌≡◌, refl, String, some, [], ◌∷◌, ok, arith}
use ciss.Prelude.Int.{pos, negsuc, ◌+ℤ◌}
use ciss.Prelude.Text.{as_bytes, concat, decimal, decimal_ℤ}
use ciss.Crypto.{sha256_hex}
use ciss.Chain.{
  ChainStep, step, checkpoint, ChainEntry, genesis_prev_hash, entry_hash, checkpoint_hash,
  recompute_total, walk, start, advance, head_hash, check_entry, verify_step, verify_checkpoint,
  ChainHead,
}
use ciss.Chain.Totals.{net, opening, recompute_total-net}
use ciss.Chain.Compaction.{recompute_total-compact}
use ciss.Chain.Commitment.{head_hash-commits}
use ciss.Statements.{RentTimeline}
use ciss.Examples.Toy.{toy}

abbrev first_hash : String
first_hash =
    entry_hash ⦃p = toy⦄ "id:a" "chain.counter" (some "egress") 1
      (record { delta = pos 10; total = 10; prev_entry_hash = genesis_prev_hash })

abbrev closing_hash : String
closing_hash = checkpoint_hash ⦃p = toy⦄ "id:a" "chain.counter" (some "egress") 2 (record {
  closing_total = 10;
  chain_head_hash = first_hash;
  prev_checkpoint = genesis_prev_hash;
})

abbrev entry : ℕ → ChainStep → ChainEntry
entry n st = record {
  did = "id:a";
  kind = "chain.counter";
  subkey = some "egress";
  seq = n;
  step = st;
}

abbrev opened : ChainEntry
opened = entry 1 (step (record { delta = pos 10; total = 10; prev_entry_hash = genesis_prev_hash }))

abbrev closed : ChainEntry
closed = entry 2 (
    checkpoint (record {
      closing_total = 10;
      chain_head_hash = first_hash;
      prev_checkpoint = genesis_prev_hash;
    }))

abbrev lowered : ChainEntry
lowered = entry 3 (step (record { delta = negsuc 3; total = 6; prev_entry_hash = closing_hash }))

whole_chain : recompute_total ⦃p = toy⦄ (opened ∷ closed ∷ lowered ∷ []) ≡ ok 6
unfolding recompute_total walk advance head_hash check_entry verify_step verify_checkpoint
    entry_hash checkpoint_hash sha256_hex concat decimal decimal_ℤ as_bytes ◌+ℤ◌
whole_chain = refl

recompute_total-net_example :
    pos 6 ≡ pos (opening (opened ∷ closed ∷ lowered ∷ [])) +ℤ net (opened ∷ closed ∷ lowered ∷ [])
recompute_total-net_example =
    recompute_total-net ⦃p = toy⦄ (opened ∷ closed ∷ lowered ∷ []) whole_chain

recompute_total-compact_example : recompute_total ⦃p = toy⦄ (closed ∷ lowered ∷ []) ≡ ok 6
recompute_total-compact_example =
    recompute_total-compact ⦃p = toy⦄ (opened ∷ []) (lowered ∷ []) closed refl whole_chain

abbrev both : ChainHead
both = advance ⦃p = toy⦄ (advance ⦃p = toy⦄ start opened) closed

walked : walk ⦃p = toy⦄ start (opened ∷ closed ∷ []) ≡ ok both
unfolding walk check_entry verify_step verify_checkpoint head_hash advance entry_hash
    checkpoint_hash sha256_hex concat decimal decimal_ℤ as_bytes ◌+ℤ◌
walked = refl

head_hash-commits_example : opened ∷ closed ∷ [] ≡ opened ∷ closed ∷ []
head_hash-commits_example =
    head_hash-commits ⦃p = toy⦄ (opened ∷ closed ∷ []) (opened ∷ closed ∷ []) walked walked refl
      ((λ _. refl), ((λ _. refl), tt)) refl

abbrev steps : RentTimeline
steps = (3, 100) ∷ (7, 250) ∷ []

new_ledger-IsBounded : IsBounded new_ledger
unfolding IsBounded Map.contains_key Map.get
new_ledger-IsBounded = (omega arith, λ k. refl)
