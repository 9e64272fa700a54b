-- ===== src/Chain/Totals.antt =====
-- What `recompute_total` returns: the balance carried in, plus every delta, in order.
use ciss.Prelude.{
  ℕ, String, ◌≡◌, none, some, List, [], ◌∷◌, ok, >>=-eq-ok, ok-injective, ap, sym, ◌∙◌,
}
use ciss.Prelude.Int.{ℤ, pos, ◌+ℤ◌, int_laws, +ℤ_assoc, +ℤ_zero}
use ciss.Crypto.{Primitives}
use ciss.Chain.{
  ChainStep, step, checkpoint, ChainEntry, ChainHead, start, PrevEntry, total_of, verify_step,
  verify_checkpoint, genesis_prev_hash, check_entry, advance, head_hash, walk, total_at,
  recompute_total,
}

-- The sum of the deltas of the steps; a checkpoint moves nothing.
abbrev pub delta_of : ChainStep → ℤ
delta_of (step b) = b.delta
delta_of (checkpoint b) = pos 0

unfoldable pub net : List ChainEntry → ℤ
net [] = pos 0
net (e ∷ rest) = delta_of e.step +ℤ net rest

-- The balance that a leading checkpoint carries forward.
opening_of : ChainStep → ℕ
opening_of (step _) = 0
opening_of (checkpoint b) = b.closing_total

unfoldable pub opening : List ChainEntry → ℕ
unfolding opening_of
opening [] = 0
opening (e ∷ _) = opening_of e.step

module _ ⦃p : Primitives⦄ where
  -- An accepted entry leaves the total before it plus its delta.
  check_entry-total :
      (prev : PrevEntry) (cp : String) (n : ℕ) (s : ChainStep)
      → check_entry (record { head = some prev; last_checkpoint = cp }) n s ≡ ok tt
      → pos (total_of s) ≡ pos prev.total +ℤ delta_of s
  unfolding check_entry verify_step verify_checkpoint
  check_entry-total prev cp n (step b) c = grind (int_laws)
  check_entry-total prev cp n (checkpoint b) c = grind (int_laws)

  first_step-total :
      (cp : String) (n : ℕ) (s : ChainStep)
      → check_entry (record { head = none; last_checkpoint = cp }) n s ≡ ok tt
      → pos (total_of s) ≡ pos (opening_of s) +ℤ delta_of s
  unfolding check_entry verify_step opening_of
  first_step-total cp n (step b) c = grind (int_laws)
  first_step-total cp n (checkpoint b) c = grind (int_laws)

  walk-total :
      (prev : PrevEntry) (cp : String) (es : List ChainEntry) {h : ChainHead}
      → walk (record { head = some prev; last_checkpoint = cp }) es ≡ ok h
      → pos (total_at h) ≡ pos prev.total +ℤ net es
  unfolding walk net advance
  walk-total prev cp [] w = cc (+ℤ_zero (pos prev.total))
  walk-total prev cp (e ∷ es) {h} w =
      let (_, c, r) =
        >>=-eq-ok (check_entry (record { head = some prev; last_checkpoint = cp }) e.seq e.step) _
          w in
      let h' = advance (record { head = some prev; last_checkpoint = cp }) e in
      let e' : PrevEntry = record {
        seq = e.seq;
        total = total_of e.step;
        entry_hash = head_hash e;
      } in
      walk-total e' h'.last_checkpoint es r
      ∙ ap (λ z. z +ℤ net es) (check_entry-total prev cp e.seq e.step c)
      ∙ +ℤ_assoc (pos prev.total) (delta_of e.step) (net es)

  -- The recomputed total is the balance carried in by a leading checkpoint plus every delta.
  pub recompute_total-net :
      (es : List ChainEntry) {t : ℕ}
      → recompute_total es ≡ ok t
      → pos t ≡ pos (opening es) +ℤ net es
  unfolding recompute_total walk opening net advance
  recompute_total-net [] r = cc (+ℤ_zero (pos 0))
  recompute_total-net (e ∷ es) r =
      let (h, w, t) = >>=-eq-ok (walk start (e ∷ es)) _ r in
      let (_, c, r') = >>=-eq-ok (check_entry start e.seq e.step) _ w in
      let e' : PrevEntry = record {
        seq = e.seq;
        total = total_of e.step;
        entry_hash = head_hash e;
      } in
      let cp = (advance start e).last_checkpoint in
      ap pos (sym (ok-injective t))
      ∙ walk-total e' cp es r'
      ∙ ap (λ z. z +ℤ net es) (first_step-total genesis_prev_hash e.seq e.step c)
      ∙ +ℤ_assoc (pos (opening_of e.step)) (delta_of e.step) (net es)
