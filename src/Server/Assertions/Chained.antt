-- ===== src/Server/Assertions/Chained.antt =====
-- The chains that the server appends to, and that no request erases.
use ciss.Prelude.{
  ◌≤◌, ◌≡◌, sym, ◌∙◌, ap, subst, inl, inr, String, true, Option, none, some, Result, ok, err, ok_or,
  >>=-eq-ok, ok-injective, Option-cases, arith,
}
use ciss.Crypto.{Primitives}
use ciss.KindSpec.{kind_spec, is_consistent, kind_spec-consistent}
use ciss.Chain.{ChainStep, step, checkpoint, ChainBreak, total_of}
use ciss.Assertion.{Ack}
use ciss.Serde.{Serde}
use ciss.Store.{Store, i64_max}
use ciss.Store.Assertions.{Record}
use ciss.Store.Chains.{latest_chain_entry}
use ciss.Store.Chains.Stored.{IsVerified}
use ciss.Store.Chains.Append.{append_chain_entry-IsVerified, append_checkpoint_entry-IsVerified}
use ciss.Blobs.{BlobStore}
use ciss.Server.{erasure_not_allowed, deferred, lift-eq-ok}
use ciss.Server.Assertions.{is_chain_kind, append_step, append_verified_chain_entry, lift_break}
use ciss.Server.Lifecycle.{op_delete_assertion}

-- An erase of a chain's history is refused and leaves the store as it was.
pub op_delete_assertion-chain :
    (s : Store) (did kind : String) (subkey : Option String)
    → is_chain_kind kind ≡ true
    → op_delete_assertion s did kind subkey ≡ (s, err (erasure_not_allowed kind))
unfolding op_delete_assertion is_consistent
op_delete_assertion-chain s did kind subkey h = elim (Option-cases (kind_spec kind)) [
  | inl unknown ↦ ground arith
  | inr (spec, known) ↦ ground (arith, kind_spec-consistent kind known)
]

lift_break-eq-ok {ℓ} :
    {A : Type ℓ} (m : Result ChainBreak A) {a : A} → lift_break m ≡ ok a → m ≡ ok a
lift_break-eq-ok (ok a) h = ap ok (ok-injective h)
lift_break-eq-ok (err brk) h = cc

ok_or-some {ℓ κ} :
    {E : Type ℓ} {A : Type κ} (o : Option A) (e : E) {a : A} → ok_or o e ≡ ok a → o ≡ some a
ok_or-some none e h = cc
ok_or-some (some x) e h = ap some (ok-injective h)

module _ ⦃p : Primitives⦄ ⦃b : BlobStore⦄ ⦃j : Serde⦄ where
  -- A step or checkpoint that the server appends keeps the stored chain verified.
  append_step-IsVerified :
      (s s' : Store) (a : Record) (ack : Ack) (st : ChainStep)
      → IsVerified s a.did a.kind a.subkey
      → a.seq ≤ i64_max
      → total_of st ≤ i64_max
      → append_step s deferred a.did a.kind a.subkey a ack st ≡ ok s'
      → IsVerified s' a.did a.kind a.subkey
  unfolding append_step
  append_step-IsVerified s s' a ack (step body) v small_seq small_total h =
      let (_, checked, appended) = >>=-eq-ok _ _ h in
      let (after, done, verified, _) =
        append_chain_entry-IsVerified s a ack body v (lift_break-eq-ok _ checked) small_seq
          small_total in
      subst (λ u. IsVerified u a.did a.kind a.subkey)
        (ok-injective (sym done ∙ lift-eq-ok _ appended)) verified
  append_step-IsVerified s s' a ack (checkpoint body) v small_seq small_total h =
      let (prev, latest, rest) =
        >>=-eq-ok (ok_or (latest_chain_entry s a.did a.kind a.subkey) _) _ h in
      let (at, gates, compacted) = >>=-eq-ok _ _ rest in
      let (_, checked, appended) = >>=-eq-ok _ _ gates in
      let (after, done, verified, _) =
        append_checkpoint_entry-IsVerified s a ack body prev v (ok_or-some _ _ latest)
          (lift_break-eq-ok _ checked) small_seq small_total in
      subst (λ u. IsVerified u a.did a.kind a.subkey)
        (ok-injective (sym done ∙ lift-eq-ok _ appended) ∙ ok-injective compacted) verified

  -- An entry that the server appends, where compaction waits and the entry's number and total fit a
  -- column, keeps the stored chain verified.
  pub append_verified_chain_entry-IsVerified :
      (s s' : Store) (a : Record) (ack : Ack) (st : ChainStep)
      → j.chain_step a.body ≡ some st
      → IsVerified s a.did a.kind a.subkey
      → a.seq ≤ i64_max
      → total_of st ≤ i64_max
      → append_verified_chain_entry s deferred a.did a.kind a.subkey a ack ≡ ok s'
      → IsVerified s' a.did a.kind a.subkey
  unfolding append_verified_chain_entry
  append_verified_chain_entry-IsVerified s s' a ack st decoded v small_seq small_total h =
      append_step-IsVerified s s' a ack st v small_seq small_total (rw decoded at h)
