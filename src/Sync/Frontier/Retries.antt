-- ===== src/Sync/Frontier/Retries.antt =====
-- crates/ciss-sync/src/frontier.rs: the commit loop against a server that other devices write to.
use ciss.Prelude.{ℕ, zero, suc, ◌+◌, ◌-◌, ◌≤◌, ◌≡◌, ap, ◌∙◌, arith, if◌then◌else◌, ok, err}
use ciss.Crypto.{Primitives}
use ciss.Sync.{stale_seq}
use ciss.Sync.Tree.{Formats}
use ciss.Sync.Heads.{HeadFormat}
use ciss.Sync.Frontier.{
  Fetch, ManifestSlot, Commit, round, after_round, is_stale_seq, commit_loop, max_commit_retries,
}

module _ ⦃p : Primitives⦄ ⦃formats : Formats⦄ ⦃format : HeadFormat⦄ where
  -- So many rounds in a row found their seq stale, because another device had landed first.
  pub data StaleRounds {S : Type 0} (slot : ManifestSlot S) (fetch : Fetch)
      (verifier : p.VerifyingKey) (c : Commit) : ℕ → S → S → Type 0 where
    no_round : {s : S} → StaleRounds slot fetch verifier c 0 s s
    one_more :
        {k seq n : ℕ} {s t u : S}
        → round slot fetch verifier c s ≡ (t, ok (seq, err (stale_seq n)))
        → StaleRounds slot fetch verifier c k t u
        → StaleRounds slot fetch verifier c (suc k) s u

  module _ {S : Type 0} (slot : ManifestSlot S) (fetch : Fetch) (verifier : p.VerifyingKey)
      (c : Commit) where
    commit_loop-landed :
        (left seq : ℕ) (s u : S)
        → round slot fetch verifier c s ≡ (u, ok (seq, ok tt))
        → commit_loop slot fetch verifier c left s ≡ (u, ok (seq, max_commit_retries - left))
    unfolding commit_loop
    commit_loop-landed zero seq s u done =
        ap (after_round max_commit_retries (λ t e. (t, err e))) done
        ∙ ap (λ m. (u, ok (seq, m))) (omega arith)
    commit_loop-landed (suc left) seq s u done =
        ap
          (after_round (max_commit_retries - suc left) (λ t e.
            if is_stale_seq e then commit_loop slot fetch verifier c left t else (t, err e)))
          done

    commit_loop-retried :
        (left seq n : ℕ) (s t : S)
        → round slot fetch verifier c s ≡ (t, ok (seq, err (stale_seq n)))
        → commit_loop slot fetch verifier c (suc left) s ≡ commit_loop slot fetch verifier c left t
    unfolding commit_loop
    commit_loop-retried left seq n s t stale =
        ap
          (after_round (max_commit_retries - suc left) (λ t e.
            if is_stale_seq e then commit_loop slot fetch verifier c left t else (t, err e)))
          stale

    commit_loop-gave_up :
        (seq n : ℕ) (s t : S)
        → round slot fetch verifier c s ≡ (t, ok (seq, err (stale_seq n)))
        → commit_loop slot fetch verifier c 0 s ≡ (t, err (stale_seq n))
    unfolding commit_loop
    commit_loop-gave_up seq n s t stale =
        ap (after_round max_commit_retries (λ t e. (t, err e))) stale

    lands :
        (left k seq : ℕ) (s t u : S)
        → left ≤ max_commit_retries
        → k ≤ left
        → StaleRounds slot fetch verifier c k s t
        → round slot fetch verifier c t ≡ (u, ok (seq, ok tt))
        → commit_loop slot fetch verifier c left s ≡ (u, ok (seq, max_commit_retries - left + k))
    lands left zero seq s _ u room small no_round done =
        commit_loop-landed left seq s u done ∙ ap (λ m. (u, ok (seq, m))) (omega arith)
    lands zero (suc k) seq s t u room small (one_more first rest) done = absurd (omega arith)
    lands (suc left) (suc k) seq s t u room small (one_more {seq = q} {n} {t = r} first rest) done =
        commit_loop-retried left q n s r first
        ∙ lands left k seq r t u (omega arith) (omega arith) rest done
        ∙ ap (λ m. (u, ok (seq, m))) (omega arith)

    gives_up :
        (left seq n : ℕ) (s t u : S)
        → StaleRounds slot fetch verifier c left s t
        → round slot fetch verifier c t ≡ (u, ok (seq, err (stale_seq n)))
        → commit_loop slot fetch verifier c left s ≡ (u, err (stale_seq n))
    gives_up zero seq n s _ u no_round last = commit_loop-gave_up seq n s u last
    gives_up (suc left) seq n s t u (one_more {seq = q} {n = m} {t = r} first rest) last =
        commit_loop-retried left q m s r first ∙ gives_up left seq n r t u rest last

    -- When at most three rounds find their seq stale and the next one lands, the loop returns the seq
    -- that landed and the number of stale rounds, and leaves the server where that round left it.
    pub commit_loop-lands :
        (k seq : ℕ) (s t u : S)
        → k ≤ max_commit_retries
        → StaleRounds slot fetch verifier c k s t
        → round slot fetch verifier c t ≡ (u, ok (seq, ok tt))
        → commit_loop slot fetch verifier c max_commit_retries s ≡ (u, ok (seq, k))
    commit_loop-lands k seq s t u few stale done =
        lands max_commit_retries k seq s t u (omega arith) few stale done
        ∙ ap (λ m. (u, ok (seq, m))) (omega arith)

    -- When four rounds in a row find their seq stale, the loop ends with the last one's error, and leaves
    -- the server where that round left it.
    pub commit_loop-gives_up :
        (seq n : ℕ) (s t u : S)
        → StaleRounds slot fetch verifier c max_commit_retries s t
        → round slot fetch verifier c t ≡ (u, ok (seq, err (stale_seq n)))
        → commit_loop slot fetch verifier c max_commit_retries s ≡ (u, err (stale_seq n))
    commit_loop-gives_up seq n s t u stale last = gives_up max_commit_retries seq n s t u stale last
