-- ===== src/Chain/Commitment.antt =====
-- A head hash commits to the history behind it: two chains that verify and end in one hash are the
-- same chain, unless two different entries collide.
use ciss.Prelude.{
  ℕ, ◌+◌, String, ◌≡◌, eq_iff, arith, length, ok-injective, ap, none, some, List, [], ◌∷◌, ok,
  >>=-eq-ok, refl, sym, ◌∙◌,
}
use mathlib.Core.Path.{ap₂}
use ciss.Crypto.{Primitives}
use ciss.Chain.{
  ChainStep, step, checkpoint, ChainEntry, ChainHead, PrevEntry, start, check_entry, advance, walk,
  verify_step, verify_checkpoint, head_hash, total_of, genesis_prev_hash,
}

-- The hash that an entry names as its predecessor's.
abbrev pub names_prev : ChainStep → String
names_prev (step b) = b.prev_entry_hash
names_prev (checkpoint b) = b.chain_head_hash

module _ ⦃p : Primitives⦄ where
  -- Entries at one position do not share a hash unless they are equal.
  abbrev pub NoCollision : List ChainEntry → List ChainEntry → Type 0
  NoCollision (e ∷ es) (f ∷ fs) = (head_hash e ≡ head_hash f → e ≡ f) × NoCollision es fs
  NoCollision _ _ = Unit

  -- An accepted entry names the hash of the entry before it, and follows its sequence number.
  pub check_entry-links :
      (prev : PrevEntry) (cp : String) (n : ℕ) (s : ChainStep)
      → check_entry (record { head = some prev; last_checkpoint = cp }) n s ≡ ok tt
      → (names_prev s ≡ prev.entry_hash) × (n ≡ prev.seq + 1)
  unfolding check_entry verify_step verify_checkpoint
  check_entry-links prev cp n (step b) c = ground (arith, eq_iff b.prev_entry_hash prev.entry_hash)
  check_entry-links prev cp n (checkpoint b) c =
      ground (arith, eq_iff b.chain_head_hash prev.entry_hash)

  abbrev pub hash_at : ChainHead → String
  hash_at h = elim h.head [ none ↦ genesis_prev_hash | some prev ↦ prev.entry_hash ]

  after : PrevEntry → String → ChainHead
  after prev cp = record { head = some prev; last_checkpoint = cp }

  entry_of : ChainEntry → PrevEntry
  entry_of e = record { seq = e.seq; total = total_of e.step; entry_hash = head_hash e }

  walk-eq_of_hash :
      (p₁ p₂ : PrevEntry) (c₁ c₂ : String) (es fs : List ChainEntry) {h₁ h₂ : ChainHead}
      → walk (after p₁ c₁) es ≡ ok h₁
      → walk (after p₂ c₂) fs ≡ ok h₂
      → length es ≡ length fs
      → NoCollision es fs
      → hash_at h₁ ≡ hash_at h₂
      → (p₁.entry_hash ≡ p₂.entry_hash) × (es ≡ fs)
  unfolding walk after entry_of advance
  walk-eq_of_hash p₁ p₂ c₁ c₂ [] [] w₁ w₂ l n q =
      (ap hash_at (ok-injective w₁) ∙ q ∙ sym (ap hash_at (ok-injective w₂)), refl)
  walk-eq_of_hash p₁ p₂ c₁ c₂ [] (f ∷ fs) w₁ w₂ l n q = absurd (omega arith)
  walk-eq_of_hash p₁ p₂ c₁ c₂ (e ∷ es) [] w₁ w₂ l n q = absurd (omega arith)
  walk-eq_of_hash p₁ p₂ c₁ c₂ (e ∷ es) (f ∷ fs) w₁ w₂ l n q =
      let (_, a₁, r₁) = >>=-eq-ok (check_entry (after p₁ c₁) e.seq e.step) _ w₁ in
      let (_, a₂, r₂) = >>=-eq-ok (check_entry (after p₂ c₂) f.seq f.step) _ w₂ in
      let (same_hash, same_rest) =
        walk-eq_of_hash (entry_of e) (entry_of f) (advance (after p₁ c₁) e).last_checkpoint
          (advance (after p₂ c₂) f).last_checkpoint es fs r₁ r₂ (omega arith) n.1 q in
      let same = n.0 same_hash in
      (
        sym (check_entry-links p₁ c₁ e.seq e.step a₁).0
            ∙ ap (λ x. names_prev x.step) same
            ∙ (check_entry-links p₂ c₂ f.seq f.step a₂).0,
        ap₂ ◌∷◌ same same_rest,
      )

  -- Two chains of one length that verify and end in the same head hash are the same chain, unless
  -- two different entries at one position have the same hash.
  pub head_hash-commits :
      (es fs : List ChainEntry) {h₁ h₂ : ChainHead}
      → walk start es ≡ ok h₁
      → walk start fs ≡ ok h₂
      → length es ≡ length fs
      → NoCollision es fs
      → hash_at h₁ ≡ hash_at h₂
      → es ≡ fs
  unfolding walk after entry_of advance
  head_hash-commits [] [] w₁ w₂ l n q = refl
  head_hash-commits [] (f ∷ fs) w₁ w₂ l n q = absurd (omega arith)
  head_hash-commits (e ∷ es) [] w₁ w₂ l n q = absurd (omega arith)
  head_hash-commits (e ∷ es) (f ∷ fs) w₁ w₂ l n q =
      let (_, _, r₁) = >>=-eq-ok (check_entry start e.seq e.step) _ w₁ in
      let (_, _, r₂) = >>=-eq-ok (check_entry start f.seq f.step) _ w₂ in
      let (same_hash, same_rest) =
        walk-eq_of_hash (entry_of e) (entry_of f) (advance start e).last_checkpoint
          (advance start f).last_checkpoint es fs r₁ r₂ (omega arith) n.1 q in
      ap₂ ◌∷◌ (n.0 same_hash) same_rest
