-- ===== src/Keys.antt =====
-- wrtc/native/keys.rs: the keys of SRTP out of the keying material of DTLS.
use rusttgcalls.Prelude.{
  ℕ, ◌+◌, ◌*◌, Text, List, ◌++◌, if◌then◌else◌, ◌==◌, ltb, length, take, drop, lit,
}
use rusttgcalls.Models.{Error, Result, ok, err, invalid_params}
pub mod Layout

-- `ProtectionProfile`.
pub data ProtectionProfile : Type 0 where
  aead_aes128_gcm aes128_cm_hmac_sha1_80 : ProtectionProfile

abbrev pub key_len : ProtectionProfile → ℕ
key_len p = 16

abbrev pub salt_len : ProtectionProfile → ℕ
salt_len aead_aes128_gcm = 12
salt_len aes128_cm_hmac_sha1_80 = 14

-- The results of `derive_srtp_keying_material_both`, in its order.
pub record Keys : Type 0 where
  pub server_key : List ℕ
  pub server_salt : List ℕ
  pub client_key : List ℕ
  pub client_salt : List ℕ

-- `material[off..off + n]`.
abbrev slice : ℕ → ℕ → List ℕ → List ℕ
slice off n material = take n (drop off material)

unfoldable pub derive_srtp_keying_material_both : List ℕ → ProtectionProfile → Result Keys
derive_srtp_keying_material_both material profile =
    let key = key_len profile in
    let salt = salt_len profile in
    if ltb (length material) (2 * (key + salt))
    then err (invalid_params (lit "keying material buffer too small"))
    else ok (record {
      client_key = slice 0 key material;
      server_key = slice key key material;
      client_salt = slice (key + key) salt material;
      server_salt = slice (key + key + salt) salt material;
    })

unfoldable pub derive_srtp_keying_material : List ℕ → ProtectionProfile → Result (List ℕ × List ℕ)
unfolding derive_srtp_keying_material_both
derive_srtp_keying_material material profile =
    elim (derive_srtp_keying_material_both material profile) [
      | err e ↦ err e
      | ok k ↦ ok (k.server_key, k.server_salt)
    ]

-- `translate_profile`. `hex` writes a number as `format!("{:04x}", n)`.
unfoldable pub translate_profile : (ℕ → Text) → ℕ → Result ProtectionProfile
translate_profile hex iana_val =
    if iana_val == 7
    then ok aead_aes128_gcm
    else if iana_val == 1
    then ok aes128_cm_hmac_sha1_80
    else err (invalid_params (lit "unsupported SRTP profile value 0x" ++ hex iana_val))
