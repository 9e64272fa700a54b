-- ===== src/Examples/Stored.antt =====
-- The claims on the stored settings and chains, applied to concrete inputs.
use ciss.Server.Listing.{distinct_uploads}
use ciss.Store.Chains.{
  latest_row, sort_rows, chain_rows, chain_entries, step_row, insert_chain_row, append_chain_entry,
}
use ciss.Store.Dials.{has_object_policies}
use ciss.Store.Assertions.{assertion_json, row_of}
use ciss.Chain.{verify_step, walk}
use ciss.Prelude.Text.{concat, decimal_ℤ, as_bytes}
use ciss.Prelude.{
  true, ltb, ℕ, ◌≤◌, ◌≡◌, refl, String, Option, none, some, [], ◌∷◌, Result, ok, err, arith,
}
use ciss.Prelude.Int.{pos, ◌+ℤ◌}
use ciss.Crypto.{sha256_hex}
use ciss.Policy.{deny}
use ciss.Assertion.{Ack, owner_signed}
use ciss.Chain.{
  step, CheckpointBody, genesis_prev_hash, entry_hash, PrevEntry, verify_checkpoint, start,
}
use ciss.Store.{Store, empty_store, clamp_i64}
use ciss.Store.Assertions.{Record, save_assertion, assertion_seq, load_assertion, delete_assertion}
use ciss.Store.Assertions.Supersede.{save_assertion-assertion_seq, delete_assertion-save_assertion}
use ciss.Store.Dials.{resolve_policy}
use ciss.Store.Dials.Closed.{resolve_policy-save_assertion}
use ciss.Store.Chains.{latest_chain_entry, latest_checkpoint_hash}
use ciss.Store.Chains.Stored.{IsVerified, entries, or_genesis}
use ciss.Blobs.{MemoryBlobStore}
use ciss.Policy.{ResolvedPolicy, allows, contains}
use ciss.Server.Listing.{op_list_blobs}
use ciss.Server.Listing.Visible.{uploaded, op_list_blobs_iff}
use ciss.Store.Meter.{load_receipts}
use ciss.Server.{anonymous, did_of}
use ciss.Prelude.{◌&&◌}
use ciss.Server.{deferred}
use ciss.Server.Assertions.{append_verified_chain_entry}
use ciss.Server.Assertions.Chained.{append_verified_chain_entry-IsVerified}
use ciss.Examples.Toy.{toy}
use ciss.Examples.Codec.{num, str}
use ciss.Examples.Settings.{toy_serde, Value}

abbrev made : String → Option String → ℕ → Value → Record ⦃j = toy_serde⦄
made kind subkey seq body = record {
  did = "id:a";
  kind = kind;
  subkey = subkey;
  seq = seq;
  body = body;
  authorization = owner_signed (record { signer = "k"; sig = "s" });
}

abbrev ack : Ack
ack = record { signer = "p"; sig = "t" }

abbrev ok_or_empty {ℓ} : {E : Type ℓ} → Result E Store → Store
ok_or_empty (ok s) = s
ok_or_empty (err _) = empty_store

abbrev closed_policy : Record ⦃j = toy_serde⦄
closed_policy = made "policy" (some "c1") 4 (str "unreadable" ∷ [])

abbrev with_policy : Store
with_policy = ok_or_empty (save_assertion ⦃j = toy_serde⦄ empty_store closed_policy ack)

policy_saved : save_assertion ⦃j = toy_serde⦄ empty_store closed_policy ack ≡ ok with_policy
unfolding save_assertion
policy_saved = refl

save_assertion-assertion_seq_example :
    (assertion_seq with_policy "id:a" "policy" (some "c1") ≡ some 4)
    × ((elim (assertion_seq empty_store "id:a" "policy" (some "c1")) [
      | none ↦ true
      | some seq ↦ ltb seq 4
    ])
        ≡ true)
save_assertion-assertion_seq_example =
    save_assertion-assertion_seq ⦃j = toy_serde⦄ empty_store with_policy closed_policy ack
      policy_saved

policy_seq : assertion_seq with_policy "id:a" "policy" (some "c1") ≡ some 4
unfolding clamp_i64 assertion_seq row_of save_assertion
policy_seq = refl

small_seq : clamp_i64 3 ≤ 4
unfolding clamp_i64
small_seq = omega arith

delete_assertion-save_assertion_example :
    (assertion_seq
        (delete_assertion with_policy "id:a" "policy" (some "c1")).1
        "id:a"
        "policy"
        (some "c1")
      ≡ none)
    × (s' : Store) × (save_assertion ⦃j = toy_serde⦄
          (delete_assertion with_policy "id:a" "policy" (some "c1")).1
          closed_policy
          ack
        ≡ ok s')
    × (load_assertion ⦃j = toy_serde⦄ s' "id:a" "policy" (some "c1")
        ≡ ok (some (closed_policy, ack)))
delete_assertion-save_assertion_example =
    delete_assertion-save_assertion ⦃j = toy_serde⦄ with_policy closed_policy ack

resolve_policy-save_assertion_example :
    resolve_policy ⦃j = toy_serde⦄ with_policy "id:a" (some "c1") ≡ deny
resolve_policy-save_assertion_example =
    resolve_policy-save_assertion ⦃j = toy_serde⦄ empty_store with_policy closed_policy ack "c1"
      refl refl policy_saved

abbrev first_step : Record ⦃j = toy_serde⦄
first_step =
    made "chain.counter" (some "egress") 1 (num 0 ∷ num 10 ∷ num 10 ∷ str genesis_prev_hash ∷ [])

no_chain : IsVerified ⦃p = toy⦄ ⦃j = toy_serde⦄ empty_store "id:a" "chain.counter" (some "egress")
unfolding walk latest_row latest_chain_entry latest_checkpoint_hash sort_rows chain_rows
    chain_entries IsVerified entries
no_chain = (start, refl, refl, refl)

abbrev with_chain : Store
with_chain = ok_or_empty (
    append_verified_chain_entry ⦃p = toy⦄ ⦃b = MemoryBlobStore⦄ ⦃j = toy_serde⦄ empty_store deferred
      "id:a" "chain.counter" (some "egress") first_step ack)

step_appended :
    append_verified_chain_entry ⦃p = toy⦄ ⦃b = MemoryBlobStore⦄ ⦃j = toy_serde⦄ empty_store deferred
      "id:a" "chain.counter"
      (some "egress")
      first_step
      ack
    ≡ ok with_chain
unfolding ◌+ℤ◌ verify_step latest_row latest_chain_entry insert_chain_row append_chain_entry
    append_verified_chain_entry
step_appended = refl

append_verified_chain_entry-IsVerified_example :
    IsVerified ⦃p = toy⦄ ⦃j = toy_serde⦄ with_chain "id:a" "chain.counter" (some "egress")
append_verified_chain_entry-IsVerified_example =
    append_verified_chain_entry-IsVerified ⦃p = toy⦄ ⦃b = MemoryBlobStore⦄ ⦃j = toy_serde⦄
      empty_store with_chain first_step ack
      (step (record { delta = pos 10; total = 10; prev_entry_hash = genesis_prev_hash })) refl
      no_chain (omega arith) (omega arith) step_appended

abbrev head : PrevEntry
head = record {
  seq = 1;
  total = 10;
  entry_hash =
      entry_hash ⦃p = toy⦄ "id:a" "chain.counter" (some "egress") 1
        (record { delta = pos 10; total = 10; prev_entry_hash = genesis_prev_hash });
}

abbrev closing : CheckpointBody
closing = record {
  closing_total = 10;
  chain_head_hash = head.entry_hash;
  prev_checkpoint = genesis_prev_hash;
}

abbrev close : Record ⦃j = toy_serde⦄
close = made "chain.counter" (some "egress") 2 []

chain_head : latest_chain_entry with_chain "id:a" "chain.counter" (some "egress") ≡ some head
unfolding ◌+ℤ◌ verify_step clamp_i64 latest_row latest_chain_entry step_row insert_chain_row
    append_chain_entry append_verified_chain_entry
chain_head = refl

closing_checks :
    verify_checkpoint head
      (or_genesis (latest_checkpoint_hash with_chain "id:a" "chain.counter" (some "egress")))
      closing
      2
    ≡ ok tt
unfolding concat decimal_ℤ as_bytes ◌+ℤ◌ sha256_hex verify_step verify_checkpoint entry_hash
    latest_row latest_chain_entry latest_checkpoint_hash step_row insert_chain_row
    append_chain_entry append_verified_chain_entry
closing_checks = refl

abbrev shown : ResolvedPolicy
shown = resolve_policy ⦃j = toy_serde⦄ with_policy "id:a" (some "c1")

none_loaded : load_receipts ⦃j = toy_serde⦄ with_policy "id:a" ≡ ok []
unfolding load_receipts save_assertion
none_loaded = refl

none_listed : op_list_blobs ⦃j = toy_serde⦄ with_policy anonymous "id:a" ≡ ok []
unfolding distinct_uploads op_list_blobs load_receipts has_object_policies resolve_policy
    assertion_json row_of save_assertion
none_listed = refl

op_list_blobs_iff_example :
    contains [] "c1" ≡ (uploaded "c1" [] && allows shown (did_of anonymous) "id:a")
op_list_blobs_iff_example =
    op_list_blobs_iff ⦃j = toy_serde⦄ with_policy anonymous "id:a" "c1" [] none_loaded none_listed
