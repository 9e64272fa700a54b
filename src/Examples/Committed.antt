-- ===== src/Examples/Committed.antt =====
-- The claims on the frontier of heads, applied to concrete inputs: a server with the head of one other
-- device, and a slot that finds the first seq stale.
use ciss.Prelude.{
  ℕ, zero, suc, ◌≡◌, refl, sym, ap, ◌∙◌, subst, String, Bool, true, false, Option, none, some, List,
  [], ◌∷◌, Result, ok, err, str_eq, str_eq→eq, if◌then◌else◌, arith, ◌==◌, ◌+◌, Bool-cases, inl,
  inr,
}
use ciss.Prelude.Int.{pos}
use ciss.Prelude.Map
use ciss.Prelude.Map.{Map}
use ciss.Prelude.Text.{as_bytes, concat, decimal}
use ciss.Crypto.{Bytes, Keypair, sign_message, verify_message, verifying_key}
use ciss.Sync.{SyncError, stale_seq, transport}
use ciss.Sync.Tree.{
  FsManifest, fs_manifest_kind, to_hex, digest_hex, chunk_file, encode_manifest, decode_manifest,
  check_kind,
}
use ciss.Sync.Heads.{DeviceHead, HeadFormat, new_signed, decode_verified, head_preimage}
use ciss.Sync.Working.{DiskFile, file_entry_for}
use ciss.Sync.Frontier.{
  FrontierView, ManifestSlot, Fetch, Attempt, Commit, attempt, round, commit_loop,
  max_commit_retries, cover_heads, collect_leaves, extend_with_head_closure, add_base, add_entries,
  add_chunks,
}
use ciss.Sync.Frontier.Covered.{Covered, attempt-covers}
use ciss.Sync.Frontier.Retries.{no_round, one_more, commit_loop-lands}
use ciss.Examples.Toy.{toy}
use ciss.Examples.Trees.{toy_formats}
use ciss.Examples.Codec.{Token, num, str, write}
use ciss.Examples.Settings.{opt_tokens, read_as, read_as-write}

abbrev head_tokens : DeviceHead → List Token
head_tokens h =
    str h.kind
    ∷ str h.device_id
    ∷ num h.counter
    ∷ str h.fs_root
    ∷ str h.signature
    ∷ opt_tokens h.parent (opt_tokens h.base [])

abbrev optional : ℕ → String → Option String
optional zero s = none
optional (suc _) s = some s

abbrev token_head : List Token → Option DeviceHead
token_head
      (str kind
        ∷ str device
        ∷ num counter
        ∷ str root
        ∷ str sig
        ∷ num p
        ∷ str parent
        ∷ num b
        ∷ str base
        ∷ []) =
    some (record {
      kind = kind;
      device_id = device;
      counter = counter;
      fs_root = root;
      parent = optional p parent;
      base = optional b base;
      signature = sig;
    })
token_head _ = none

token_head-parts :
    (h : DeviceHead) (parent base : Option String)
    → token_head (
        str h.kind
        ∷ str h.device_id
        ∷ num h.counter
        ∷ str h.fs_root
        ∷ str h.signature
        ∷ opt_tokens parent (opt_tokens base []))
      ≡ some (record h { parent = parent; base = base })
token_head-parts h none none = refl
token_head-parts h none (some b) = refl
token_head-parts h (some a) none = refl
token_head-parts h (some a) (some b) = refl

read_head : (h : DeviceHead) → read_as token_head (write (head_tokens h)) ≡ some h
read_head h = read_as-write head_tokens token_head (λ h. token_head-parts h h.parent h.base) h

abbrev other_key : Keypair ⦃p = toy⦄
other_key = record { label = "d"; signing_key = 5 }

abbrev on_disk : DiskFile
on_disk = record { mode = 420; mtime_secs = pos 7; mtime_nanos = 5; content = 1 ∷ 2 ∷ 3 ∷ [] }

abbrev manifest : FsManifest
manifest = record {
  kind = fs_manifest_kind;
  entries = ("a.txt", file_entry_for ⦃p = toy⦄ ⦃formats = toy_formats⦄ on_disk) ∷ [];
}

abbrev bytes_or : Result SyncError Bytes → Bytes
bytes_or (ok bytes) = bytes
bytes_or (err _) = []

abbrev manifest_bytes : Bytes
manifest_bytes = bytes_or (encode_manifest ⦃formats = toy_formats⦄ manifest)

abbrev root : String
root = "root"

abbrev other_head : DeviceHead
other_head = new_signed ⦃p = toy⦄ "d" 1 root none (some root) other_key

abbrev head_bytes : Bytes
head_bytes = 7 ∷ []

abbrev is_head : Bytes → Bool
is_head (n ∷ []) = n == 7
is_head _ = false

abbrev same_head : DeviceHead → Bool
same_head h = str_eq (write (head_tokens h)) (write (head_tokens other_head))

abbrev put_head : DeviceHead → Option Bytes
put_head h = if same_head h then some head_bytes else none

abbrev get_head : Bytes → Option DeviceHead
get_head bytes = if is_head bytes then some other_head else none

same_head-eq : (h : DeviceHead) (bytes : Bytes) → put_head h ≡ some bytes → get_head bytes ≡ some h
same_head-eq h bytes written = elim (Bool-cases (same_head h)) [
  | inr other ↦ absurd (ground (arith, other, written))
  | inl same ↦
      let here : head_bytes ≡ bytes = ground (arith, same, written) in
      subst (λ b. get_head b ≡ some h) here
        (sym (read_head other_head)
          ∙ ap (read_as token_head)
              (sym (str_eq→eq (write (head_tokens h)) (write (head_tokens other_head)) same))
          ∙ read_head h)
]

-- The one head that the other device signed, as one byte.
abbrev one_head : HeadFormat
one_head = record {
  head_to_vec = put_head;
  head_from_slice = get_head;
  head_from_slice-to_vec = same_head-eq;
}

abbrev serve : Fetch
serve cid =
    if str_eq cid "head"
    then ok head_bytes
    else if str_eq cid root
    then ok manifest_bytes
    else err (transport cid)

abbrev commit : Commit
commit = record {
  device_id = "e";
  head_cid = "mine";
  head_bytes = 9 ∷ [];
  needed = ("tree", 5) ∷ [];
}

abbrev view : Option FrontierView
view = some (record { seq = 4; heads = ("d", "head") ∷ []; leaves = [] })

abbrev attempt_or : Result SyncError Attempt → Attempt
attempt_or (ok a) = a
attempt_or (err _) = record { seq = 0; heads = []; leaves = [] }

abbrev made : Attempt
made = attempt_or (
    attempt ⦃p = toy⦄ ⦃formats = toy_formats⦄ ⦃format = one_head⦄ serve
      (verifying_key ⦃p = toy⦄ other_key) commit view)

goes_through :
    attempt ⦃p = toy⦄ ⦃formats = toy_formats⦄ ⦃format = one_head⦄ serve
      (verifying_key ⦃p = toy⦄ other_key)
      commit
      view
    ≡ ok made
unfolding attempt cover_heads collect_leaves extend_with_head_closure add_base add_entries
    add_chunks decode_verified decode_manifest check_kind encode_manifest new_signed head_preimage
    verifying_key sign_message verify_message file_entry_for chunk_file digest_hex to_hex concat
    decimal as_bytes Map.get Map.insert Map.contains_key
goes_through = refl

attempt-covers_example :
    (Map.get "d" made.heads ≡ some "head")
    × Covered ⦃p = toy⦄ ⦃formats = toy_formats⦄ ⦃format = one_head⦄ serve
        (verifying_key ⦃p = toy⦄ other_key)
        "head"
        made.leaves
    × (Map.get "e" made.heads ≡ some "mine")
    × (Map.contains_key "mine" made.leaves ≡ true)
    × (made.seq ≡ 5)
unfolding Map.get
attempt-covers_example =
    attempt-covers ⦃p = toy⦄ ⦃formats = toy_formats⦄ ⦃format = one_head⦄ serve
      (verifying_key ⦃p = toy⦄ other_key) commit view made "d" "head" refl refl goes_through

-- A slot that lost the first race to another device, and lets the second commit land.
abbrev contended : ManifestSlot ℕ
contended = record {
  frontier = λ rounds. (rounds, ok (some (record { seq = 4 + rounds; heads = []; leaves = [] })));
  commit_frontier =
      λ rounds leaves seq heads. if rounds == 0 then (1, err (stale_seq 5)) else (2, ok tt);
}

first_round :
    round ⦃p = toy⦄ ⦃formats = toy_formats⦄ ⦃format = one_head⦄ contended serve
      (verifying_key ⦃p = toy⦄ other_key)
      commit
      0
    ≡ (1, ok (5, err (stale_seq 5)))
unfolding round attempt cover_heads collect_leaves Map.insert
first_round = refl

second_round :
    round ⦃p = toy⦄ ⦃formats = toy_formats⦄ ⦃format = one_head⦄ contended serve
      (verifying_key ⦃p = toy⦄ other_key)
      commit
      1
    ≡ (2, ok (6, ok tt))
unfolding round attempt cover_heads collect_leaves Map.insert
second_round = refl

commit_loop-lands_example :
    commit_loop ⦃p = toy⦄ ⦃formats = toy_formats⦄ ⦃format = one_head⦄ contended serve
      (verifying_key ⦃p = toy⦄ other_key)
      commit
      max_commit_retries
      0
    ≡ (2, ok (6, 1))
commit_loop-lands_example =
    commit_loop-lands ⦃p = toy⦄ ⦃formats = toy_formats⦄ ⦃format = one_head⦄ contended serve
      (verifying_key ⦃p = toy⦄ other_key) commit 1 6 0 1 2 (omega arith)
      (one_more first_round no_round) second_round
