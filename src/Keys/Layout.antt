-- ===== src/Keys/Layout.antt =====
-- The layout of RFC 5764.
use rusttgcalls.Prelude.{
  ℕ, ◌+◌, ◌*◌, ◌<◌, false, List, ◌++◌, ltb, length, take, drop, lit, ◌≡◌, sym, ◌∙◌, ap, arith,
  append_assoc, length-append, take-append_exact, drop-append_exact,
}
use rusttgcalls.Models.{Result, ok, err, invalid_params}
use rusttgcalls.Keys.{
  ProtectionProfile, key_len, salt_len, Keys, derive_srtp_keying_material_both,
  derive_srtp_keying_material,
}

-- The material that RFC 5764 lays out for the keys, with what may follow.
abbrev pub material_of : Keys → List ℕ → List ℕ
material_of k rest = k.client_key ++ (k.server_key ++ (k.client_salt ++ (k.server_salt ++ rest)))

abbrev pub IsFor : ProtectionProfile → Keys → Type 0
IsFor p k =
    (length k.client_key ≡ key_len p)
    × (length k.server_key ≡ key_len p)
    × (length k.client_salt ≡ salt_len p)
    × (length k.server_salt ≡ salt_len p)

slice_at :
    (front piece back : List ℕ) (off n : ℕ)
    → length front ≡ off
    → length piece ≡ n
    → take n (drop off (front ++ (piece ++ back))) ≡ piece
slice_at front piece back off n a b =
    ap (take n) (drop-append_exact off front (piece ++ back) a) ∙ take-append_exact n piece back b

-- Keys that are laid out as RFC 5764 says are taken out as they were, and the server's are the ones to
-- send with.
pub derive-material_of :
    (p : ProtectionProfile) (k : Keys) (rest : List ℕ)
    → IsFor p k
    → (derive_srtp_keying_material_both (material_of k rest) p ≡ ok k)
      × (derive_srtp_keying_material (material_of k rest) p ≡ ok (k.server_key, k.server_salt))
unfolding derive_srtp_keying_material_both derive_srtp_keying_material
derive-material_of p k rest (ck, sk, cs, ss) = (both, ap server both)
  where
    key : ℕ
    key = key_len p

    salt : ℕ
    salt = salt_len p

    material : List ℕ
    material = material_of k rest

    server : Result Keys → Result (List ℕ × List ℕ)
    server (err e) = err e
    server (ok keys) = ok (keys.server_key, keys.server_salt)

    enough : ltb (length material) (2 * (key + salt)) ≡ false
    enough = ground (
      arith,
      length-append k.client_key (k.server_key ++ (k.client_salt ++ (k.server_salt ++ rest))),
      length-append k.server_key (k.client_salt ++ (k.server_salt ++ rest)),
      length-append k.client_salt (k.server_salt ++ rest),
      length-append k.server_salt rest,
      ck,
      sk,
      cs,
      ss,
    )

    tail : List ℕ
    tail = k.client_salt ++ (k.server_salt ++ rest)

    e1 : take key material ≡ k.client_key
    e1 = take-append_exact key k.client_key (k.server_key ++ tail) ck

    e2 : take key (drop key material) ≡ k.server_key
    e2 = slice_at k.client_key k.server_key tail key key ck sk

    keys : List ℕ
    keys = k.client_key ++ k.server_key

    long : length keys ≡ key + key
    long = omega (arith, length-append k.client_key k.server_key, ck, sk)

    e3 : take salt (drop (key + key) material) ≡ k.client_salt
    e3 =
        ap (λ m. take salt (drop (key + key) m)) (sym (append_assoc k.client_key k.server_key tail))
        ∙ slice_at keys k.client_salt (k.server_salt ++ rest) (key + key) salt long cs

    e4 : take salt (drop (key + key + salt) material) ≡ k.server_salt
    e4 =
        ap (λ m. take salt (drop (key + key + salt) m))
          (sym (append_assoc k.client_key k.server_key tail)
            ∙ sym (append_assoc keys k.client_salt (k.server_salt ++ rest)))
        ∙ slice_at (keys ++ k.client_salt) k.server_salt rest (key + key + salt) salt
            (omega (arith, length-append keys k.client_salt, long, cs)) ss

    both : derive_srtp_keying_material_both material p ≡ ok k
    both = ground (arith, enough, e1, e2, e3, e4)

-- Material for all four is never refused, less is always.
pub derive-short :
    (p : ProtectionProfile) (material : List ℕ)
    → length material < 2 * (key_len p + salt_len p)
    → derive_srtp_keying_material_both material p
      ≡ err (invalid_params (lit "keying material buffer too small"))
unfolding derive_srtp_keying_material_both
derive-short p material h = ground arith
