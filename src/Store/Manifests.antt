-- ===== src/Store/Manifests.antt =====
-- src/persist.rs: the table `manifest`, one signed manifest for each DID.
use ciss.Prelude.{◌≡◌, String, Option, none, some, str_eq_refl, Result, ok, ok_or, ◌>>=◌, arith}
use ciss.Prelude.Map
use ciss.Prelude.Map.{get-upsert}
use ciss.Manifest.{SignedManifest}
use ciss.Serde.{Serde}
use ciss.Store.{PersistError, json, Store}

module _ ⦃j : Serde⦄ where
  unfoldable pub save_manifest : Store → String → SignedManifest → Store
  save_manifest s did m = record s {
    manifest = Map.upsert did (j.manifest_text.to_text m) s.manifest;
  }

  unfoldable pub load_manifest : Store → String → Result PersistError (Option SignedManifest)
  load_manifest s did = elim (Map.get did s.manifest) [
    | none ↦ ok none
    | some text ↦ ok_or (j.manifest_text.from_text text) json >>= λ m. ok (some m)
  ]

  -- What was saved is what is loaded.
  pub load_manifest-save_manifest :
      (s : Store) (did : String) (m : SignedManifest)
      → load_manifest (save_manifest s did m) did ≡ ok (some m)
  unfolding load_manifest save_manifest
  load_manifest-save_manifest s did m = ground (
    arith,
    str_eq_refl did,
    get-upsert did did (j.manifest_text.to_text m) s.manifest,
    j.manifest_text.from_text-to_text m,
  )
