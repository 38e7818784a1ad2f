-- ===== src/Receipt/Signing.antt =====
-- Signed receipts and manifests of packages/core/src/index.ts.
use glyph_protocol.Prelude.{String, ◌≡◌, true}
use glyph_protocol.Crypto.{Crypto, IsSound}
use glyph_protocol.Receipt.{
  CallReceipt, UpdateManifest, receipt_json, manifest_json, sign_receipt, verify_receipt,
  sign_manifest, verify_manifest,
}

module _ (k : Crypto) (s : IsSound k) (private : String) where
  abbrev pub signed_receipt : CallReceipt → CallReceipt
  signed_receipt r =
      let own = record r { server_public_key = k.public_key private } in
      record own { signature = sign_receipt k own private }

  abbrev pub signed_manifest : UpdateManifest → UpdateManifest
  signed_manifest m =
      let own = record m { server_public_key = k.public_key private } in
      record own { signature = sign_manifest k own private }

  -- With sound ed25519 and hashing, a receipt that carries the public key of a private key and is
  -- signed with that private key verifies.
  pub verify_receipt-signed_receipt : (r : CallReceipt) → verify_receipt k (signed_receipt r) ≡ true
  unfolding verify_receipt sign_receipt receipt_json
  verify_receipt-signed_receipt r = rw (s.sign_nonempty, s.public_nonempty, s.verify-sign)

  -- With sound ed25519 and hashing, an update manifest that carries the public key of a private key
  -- and is signed with that private key verifies.
  pub verify_manifest-signed_manifest :
      (m : UpdateManifest) → verify_manifest k (signed_manifest m) ≡ true
  unfolding verify_manifest sign_manifest manifest_json
  verify_manifest-signed_manifest m = rw (s.sign_nonempty, s.public_nonempty, s.verify-sign)
