-- ===== src/Store/Chains/Append.antt =====
-- The appends of the table `chain_entry` behind the checks of src/chain_kind.rs.
use ciss.Prelude.{
  ℕ, suc, ◌+◌, ◌-◌, ◌≤◌, ◌≡◌, refl, sym, ◌∙◌, subst, String, true, false, Option, none, some,
  str_eq_refl, arith, ok,
}
use ciss.Crypto.{Primitives}
use ciss.Chain.{
  ChainCounterBody, CheckpointBody, PrevEntry, ChainHead, subkey_or_empty, verify_step,
  verify_checkpoint, entry_hash, checkpoint_hash, head_hash, check_entry, recompute_total,
}
use ciss.Assertion.{Ack}
use ciss.Serde.{Serde}
use ciss.Store.{ChainRow, Store, i64_max}
use ciss.Store.Assertions.{Record}
use ciss.Store.Chains.{
  of_chain, latest_chain_entry, latest_checkpoint_hash, step_of, entry_of, key_taken, step_row,
  checkpoint_row, insert_chain_row, append_chain_entry, append_checkpoint_entry,
}
use ciss.Store.Chains.Rows.{Below, Below-mono, key_taken-above}
use ciss.Store.Chains.Stored.{
  IsVerified, IsNext, inserted, entries, clamp_small, or_genesis, latest_chain_entry-Below,
  latest_chain_entry-inserted, inserted-IsVerified, recompute_total-entries,
}

next_seq : Option PrevEntry → ℕ
next_seq none = 1
next_seq (some prev) = prev.seq + 1

verify_step-seq :
    (prev : Option PrevEntry) (body : ChainCounterBody) (n : ℕ)
    → verify_step prev body n ≡ ok tt
    → n ≡ next_seq prev
unfolding verify_step next_seq
verify_step-seq none body n h = ground arith
verify_step-seq (some prev) body n h = ground arith

verify_checkpoint-seq :
    (prev : PrevEntry) (cp : String) (body : CheckpointBody) (n : ℕ)
    → verify_checkpoint prev cp body n ≡ ok tt
    → n ≡ prev.seq + 1
unfolding verify_checkpoint
verify_checkpoint-seq prev cp body n h = ground arith

next_seq-suc : (prev : Option PrevEntry) → suc (next_seq prev - 1) ≡ next_seq prev
unfolding next_seq
next_seq-suc none = refl
next_seq-suc (some prev) = omega arith

-- The numbers in use are below the next one.
Below-next_seq :
    (s : Store) (did kind : String) (subkey : Option String)
    → Below
        (of_chain did kind (subkey_or_empty subkey))
        (next_seq (latest_chain_entry s did kind subkey) - 1)
        s.chain_entry
unfolding next_seq
Below-next_seq s did kind subkey =
    latest_chain_entry-Below s did kind subkey _ (λ prev l. rw l (omega arith))

of_chain_refl : (row : ChainRow) → of_chain row.did row.kind row.subkey row ≡ true
of_chain_refl row =
    ground (arith, str_eq_refl row.did, str_eq_refl row.kind, str_eq_refl row.subkey)

-- A row with the next sequence number has a free key and is above the others.
next_row :
    (s : Store) (row : ChainRow) (subkey : Option String)
    → row.subkey ≡ subkey_or_empty subkey
    → row.seq ≡ next_seq (latest_chain_entry s row.did row.kind subkey)
    → (key_taken row s.chain_entry ≡ false)
      × (of_chain row.did row.kind (subkey_or_empty subkey) row ≡ true)
      × Below (of_chain row.did row.kind (subkey_or_empty subkey)) row.seq s.chain_entry
next_row s row subkey sk n =
    let m : ℕ = next_seq (latest_chain_entry s row.did row.kind subkey) - 1 in
    let n' : suc m ≡ row.seq =
      next_seq-suc (latest_chain_entry s row.did row.kind subkey) ∙ sym n in
    let b = Below-next_seq s row.did row.kind subkey in
    (
      key_taken-above row s.chain_entry m (omega arith)
          (subst (λ k. Below (of_chain row.did row.kind k) m s.chain_entry) (sym sk) b),
      subst (λ k. of_chain row.did row.kind k row ≡ true) sk (of_chain_refl row),
      Below-mono _ m row.seq s.chain_entry (omega arith) b,
    )

module _ ⦃p : Primitives⦄ ⦃j : Serde⦄ where
  -- A row with the next sequence number is inserted, and the chain still verifies when the walk
  -- admits it.
  insert_chain_row-IsVerified :
      (s : Store) (a : Record) (ack : Ack) (row : ChainRow) (subkey : Option String)
      → row.subkey ≡ subkey_or_empty subkey
      → IsVerified s row.did row.kind subkey
      → row.seq ≡ next_seq (latest_chain_entry s row.did row.kind subkey)
      → ((h : ChainHead)
          → h.head ≡ latest_chain_entry s row.did row.kind subkey
          → h.last_checkpoint ≡ or_genesis (latest_checkpoint_hash s row.did row.kind subkey)
          → check_entry h row.seq (step_of row) ≡ ok tt)
      → row.entry_hash ≡ head_hash (entry_of row.did row.kind subkey row)
      → (s' : Store) × (insert_chain_row s a ack row ≡ ok s')
        × IsVerified s' row.did row.kind subkey
        × (recompute_total (entries s' row.did row.kind subkey) ≡ ok row.total)
  unfolding insert_chain_row inserted IsNext
  insert_chain_row-IsVerified s a ack row subkey sk v n checked hash =
      let (free, mine, below) = next_row s row subkey sk n in
      let v' =
        inserted-IsVerified s a ack row.did row.kind subkey row v (mine, below) checked hash in
      (
        inserted s a ack row,
        rw free refl,
        v',
        recompute_total-entries (inserted s a ack row) row.did row.kind subkey v'
            ∙ rw (latest_chain_entry-inserted s a ack row.did row.kind subkey row (mine, below))
                refl,
      )

  -- A step that follows the stored chain is appended, the chain still verifies, and its total is the
  -- step's.
  pub append_chain_entry-IsVerified :
      (s : Store) (a : Record) (ack : Ack) (body : ChainCounterBody)
      → IsVerified s a.did a.kind a.subkey
      → verify_step (latest_chain_entry s a.did a.kind a.subkey) body a.seq ≡ ok tt
      → a.seq ≤ i64_max
      → body.total ≤ i64_max
      → (s' : Store) × (append_chain_entry s a ack body
            (entry_hash a.did a.kind a.subkey a.seq body)
          ≡ ok s')
        × IsVerified s' a.did a.kind a.subkey
        × (recompute_total (entries s' a.did a.kind a.subkey) ≡ ok body.total)
  unfolding append_chain_entry step_row check_entry head_hash
  append_chain_entry-IsVerified s a ack body v checked small_seq small_total =
      rw (clamp_small a.seq small_seq, clamp_small body.total small_total)
        (insert_chain_row-IsVerified s a ack
          (record (step_row a ack body (entry_hash a.did a.kind a.subkey a.seq body)) {
            seq = a.seq;
            total = body.total;
          })
          a.subkey refl v (verify_step-seq _ body a.seq checked) (λ h head cp. rw head checked)
          refl)

  -- A checkpoint that closes over the stored chain is taken, where its number and total fit a column;
  -- the stored chain still verifies, and its total is the one that the checkpoint closes on.
  pub append_checkpoint_entry-IsVerified :
      (s : Store) (a : Record) (ack : Ack) (body : CheckpointBody) (prev : PrevEntry)
      → IsVerified s a.did a.kind a.subkey
      → latest_chain_entry s a.did a.kind a.subkey ≡ some prev
      → verify_checkpoint prev
          (or_genesis (latest_checkpoint_hash s a.did a.kind a.subkey))
          body
          a.seq
        ≡ ok tt
      → a.seq ≤ i64_max
      → body.closing_total ≤ i64_max
      → (s' : Store) × (append_checkpoint_entry s a ack body
            (checkpoint_hash a.did a.kind a.subkey a.seq body)
          ≡ ok s')
        × IsVerified s' a.did a.kind a.subkey
        × (recompute_total (entries s' a.did a.kind a.subkey) ≡ ok body.closing_total)
  unfolding append_checkpoint_entry checkpoint_row check_entry head_hash next_seq
  append_checkpoint_entry-IsVerified s a ack body prev v latest checked small_seq small_total =
      rw (clamp_small a.seq small_seq, clamp_small body.closing_total small_total)
        (insert_chain_row-IsVerified s a ack
          (record (checkpoint_row a ack body (checkpoint_hash a.did a.kind a.subkey a.seq body)) {
            seq = a.seq;
            total = body.closing_total;
          })
          a.subkey refl v (rw latest (verify_checkpoint-seq prev _ body a.seq checked))
          (λ h head cp. rw (head, latest, cp) checked) refl)
