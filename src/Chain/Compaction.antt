-- ===== src/Chain/Compaction.antt =====
-- Compaction: the entries behind a checkpoint can be dropped, because the checkpoint carries all
-- that the walk needs.
use ciss.Prelude.{
  ℕ, ◌≡◌, true, List, [], ◌∷◌, ◌++◌, ok, ◌>>=◌, >>=-eq-ok, refl, sym, ◌∙◌, >>=_assoc, >>=_cong,
}
use ciss.Crypto.{Primitives}
use ciss.Chain.{
  ChainStep, step, checkpoint, ChainEntry, ChainHead, start, is_checkpoint, check_entry, advance,
  walk, recompute_total,
}

module _ ⦃p : Primitives⦄ where
  -- The walk over a list in two parts.
  pub walk-append :
      (h : ChainHead) (es fs : List ChainEntry)
      → walk h (es ++ fs) ≡ (walk h es >>= λ h'. walk h' fs)
  unfolding walk
  walk-append h [] fs = refl
  walk-append h (e ∷ es) fs =
      >>=_cong (check_entry h e.seq e.step) _ _ (λ _. walk-append (advance h e) es fs)
      ∙ sym (>>=_assoc (check_entry h e.seq e.step) _ _)

  -- Behind a checkpoint the loop state does not depend on what came before it.
  advance-checkpoint :
      (h : ChainHead) (e : ChainEntry) → is_checkpoint e.step ≡ true → advance h e ≡ advance start e
  unfolding advance
  advance-checkpoint h e c = rw c

  leading_checkpoint :
      (e : ChainEntry) → is_checkpoint e.step ≡ true → check_entry start e.seq e.step ≡ ok tt
  unfolding check_entry
  leading_checkpoint e c = go e.step c
    where
      go : (s : ChainStep) → is_checkpoint s ≡ true → check_entry start e.seq s ≡ ok tt
      go (checkpoint b) h = refl
      go (step b) h = cc

  -- Dropping every entry behind a checkpoint of a chain that verifies leaves a chain that verifies,
  -- with the same total.
  pub recompute_total-compact :
      (es fs : List ChainEntry) (e : ChainEntry) {t : ℕ}
      → is_checkpoint e.step ≡ true
      → recompute_total (es ++ e ∷ fs) ≡ ok t
      → recompute_total (e ∷ fs) ≡ ok t
  unfolding recompute_total walk
  recompute_total-compact es fs e c r =
      let (h, w, t) = >>=-eq-ok (walk start (es ++ e ∷ fs)) _ r in
      let (g, _, w') =
        >>=-eq-ok (walk start es) (λ h'. walk h' (e ∷ fs))
          (sym (walk-append start es (e ∷ fs)) ∙ w) in
      let (_, _, w'') = >>=-eq-ok (check_entry g e.seq e.step) _ w' in
      rw (leading_checkpoint e c) (rw (← advance-checkpoint g e c) (rw w'' t))
