-- ===== src/Server/Listing/Visible.antt =====
-- `op_list_blobs` shows exactly what the caller may read.
use ciss.Prelude.{
  ◌≡◌, ◌≢◌, refl, ap, inl, inr, String, Bool, true, false, not, ◌&&◌, Option, none, some, List, [],
  ◌∷◌, str_eq, str_eq→eq, str_eq-false, eq_iff, retain, any, ok, arith, Bool-cases, Option-cases,
}
use ciss.Policy.{ResolvedPolicy, allows, contains}
use ciss.Receipts.{Receipt}
use ciss.Serde.{Serde}
use ciss.Store.{Store, AssertionRow}
use ciss.Store.Meter.{is_download, load_receipts}
use ciss.Store.Assertions.{find_row, assertion_json}
use ciss.Store.Dials.{resolve_policy, resolve_object_policy, has_object_policies}
use ciss.KindSpec.{policy_kind}
use ciss.Server.{Principal, did_of}
use ciss.Server.Access.{is_world}
use ciss.Server.Listing.{distinct_uploads, policy_of, op_list_blobs}

-- Some receipt is for an upload of this address.
abbrev pub uploaded : String → List Receipt → Bool
uploaded cid receipts =
    any (λ (r : Receipt). not (is_download r.core.direction) && str_eq r.core.cid cid) receipts

distinct_uploads-contains :
    (seen : List String) (rs : List Receipt) (cid : String)
    → contains (distinct_uploads seen rs) cid ≡ (uploaded cid rs && not (contains seen cid))
unfolding distinct_uploads
distinct_uploads-contains seen [] cid = refl
distinct_uploads-contains seen (r ∷ rs) cid = elim (Bool-cases (str_eq r.core.cid cid)) [
  | inl same ↦
      let is = ap (contains seen) (str_eq→eq r.core.cid cid same) in
      ground (
        arith,
        is,
        distinct_uploads-contains seen rs cid,
        distinct_uploads-contains (r.core.cid ∷ seen) rs cid,
      )
  | inr other ↦ ground (
    arith,
    distinct_uploads-contains seen rs cid,
    distinct_uploads-contains (r.core.cid ∷ seen) rs cid,
  )
]

contains-retain :
    (test : String → Bool) (xs : List String) (x : String)
    → contains (retain test xs) x ≡ (contains xs x && test x)
contains-retain test [] x = refl
contains-retain test (y ∷ ys) x = elim (Bool-cases (str_eq y x)) [
  | inl same ↦
      let is = ap test (str_eq→eq y x same) in ground (arith, is, contains-retain test ys x)
  | inr other ↦ ground (arith, contains-retain test ys x)
]

no_object_row :
    (did sk : String) (rows : List AssertionRow)
    → any
        (λ (row : AssertionRow).
          str_eq row.did did && (str_eq row.kind policy_kind && not (str_eq row.subkey "")))
        rows
      ≡ false
    → sk ≢ ""
    → find_row did policy_kind sk rows ≡ none
unfolding find_row
no_object_row did sk [] h ne = refl
no_object_row did sk (row ∷ rows) h ne =
    ground (
      arith,
      eq_iff row.subkey sk,
      eq_iff row.subkey "",
      no_object_row did sk rows (ground arith) ne,
    )

module _ ⦃j : Serde⦄ where
  resolve_policy-policy_of :
      (s : Store) (did cid : String)
      → resolve_policy s did (some cid) ≡ policy_of s did (resolve_policy s did none) cid
  unfolding resolve_policy policy_of
  resolve_policy-policy_of s did cid = refl

  -- A DID without object policies has none for any address; the empty text is the namespace's own.
  policy_of-none :
      (s : Store) (did cid : String)
      → has_object_policies s did ≡ false
      → policy_of s did (resolve_policy s did none) cid ≡ resolve_policy s did none
  unfolding policy_of resolve_object_policy resolve_policy assertion_json has_object_policies
  policy_of-none s did cid h = elim (Bool-cases (str_eq cid "")) [
    | inl same ↦
        let is = ap (λ k. find_row did policy_kind k s.assertion) (str_eq→eq cid "" same) in
        elim (Option-cases (find_row did policy_kind "" s.assertion)) [
          | inl absent ↦ ground (arith, is)
          | inr (row, present) ↦ ground (arith, is)
        ]
    | inr other ↦ ground (arith, no_object_row did cid s.assertion h (str_eq-false cid "" other))
  ]

  world-allows :
      (p : ResolvedPolicy) (caller : Option String) (did : String)
      → is_world p.read_class ≡ true
      → allows p caller did ≡ true
  unfolding allows
  world-allows p caller did h = ground arith

  -- The list holds exactly the addresses that were uploaded under the DID and that the caller may
  -- read under the policy in force for them; the short way for a DID with no policy gives the same
  -- list.
  pub op_list_blobs_iff :
      (s : Store) (principal : Principal) (did cid : String) (receipts : List Receipt)
      {cids : List String}
      → load_receipts s did ≡ ok receipts
      → op_list_blobs s principal did ≡ ok cids
      → contains cids cid
        ≡ (uploaded cid receipts && allows (resolve_policy s did (some cid)) (did_of principal) did)
  unfolding op_list_blobs
  op_list_blobs_iff s principal did cid receipts {cids} loaded h =
      let listed = distinct_uploads-contains [] receipts cid in
      let policy = resolve_policy-policy_of s did cid in
      elim (Bool-cases
        (is_world (resolve_policy s did none).read_class && not (has_object_policies s did))) [
          | inl open_to_all ↦
              let alike = policy_of-none s did cid (ground arith) in
              let may =
                world-allows (resolve_policy s did none) (did_of principal) did (ground arith) in
              ground (arith, listed, policy, alike, may)
          | inr gated ↦
              let kept =
                contains-retain
                  (λ k.
                    allows (policy_of s did (resolve_policy s did none) k) (did_of principal) did)
                  (distinct_uploads [] receipts) cid in
              ground (arith, listed, policy, kept)
        ]
