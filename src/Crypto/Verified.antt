-- ===== src/Crypto/Verified.antt =====
-- What a verified node id says of the claim.
use kemi.Prelude.{
  ℕ, ◌≤◌, String, ◌≡◌, refl, true, ◌&&◌, Option, none, some, arith, leb, length, leb→le, &&-eq-true,
  Option-cases, inl, inr,
}
use kemi.Prelude.Int.{ℤ, pos, negsuc}
use kemi.Json.{Value, null, bool, int, float, str, arr, obj, is_text, integer}
use kemi.Result.{ok}
use kemi.Crypto.{
  Primitives, check_pow, verify_key, verify_node_id, node_id_digest, leading_zero_bits,
}
use kemi.Crypto.Hex.{Bytes, hexdigest, from_hex}

pub is_text_shape :
    (s : String) (v : Value) → is_text s (some v) ≡ true → (t : String) × (v ≡ str t)
unfolding is_text
is_text_shape s (str t) h = (t, refl)
is_text_shape s null h = cc
is_text_shape s (bool b) h = cc
is_text_shape s (int n) h = cc
is_text_shape s (float x) h = cc
is_text_shape s (arr vs) h = cc
is_text_shape s (obj fs) h = cc

-- the claim is the hex text of the digest of a 32-byte key and an 8-byte nonce, and the digest
-- starts with as many zero bits as the difficulty asks for
pub record IsEarned (p : Primitives) (node_id : Value) (difficulty : ℕ) : Type 0 where
  pub key : Bytes
  pub nonce : ℕ
  pub key_size : length key ≡ 32
  pub names : is_text (hexdigest (node_id_digest p key nonce)) (some node_id) ≡ true
  pub work : difficulty ≤ leading_zero_bits (node_id_digest p key nonce)

module _ (p : Primitives) (node_id : Value) (difficulty : ℕ) where
  check_pow-true :
      (key : Bytes) (nonce : ℕ)
      → length key ≡ 32
      → check_pow p node_id key nonce difficulty ≡ ok true
      → IsEarned p node_id difficulty
  unfolding check_pow
  check_pow-true key nonce size h =
      let derived = node_id_digest p key nonce in
      let both : (is_text (hexdigest derived) (some node_id)
            && leb difficulty (leading_zero_bits derived))
          ≡ true =
        ground arith in
      let (names, work) = &&-eq-true (is_text (hexdigest derived) (some node_id)) _ both in
      record { key = key; nonce = nonce; key_size = size; names = names; work = leb→le _ _ work }

  verify_key-true :
      (key : Bytes) (nonce : Option ℤ)
      → verify_key p node_id key nonce difficulty ≡ ok true
      → IsEarned p node_id difficulty
  unfolding verify_key
  verify_key-true key (some (pos nonce)) h = check_pow-true key nonce (ground arith) (ground arith)
  verify_key-true key (some (negsuc n)) h = cc
  verify_key-true key none h = cc

  -- An id that verify_node_id accepts has been earned by proof of work.
  pub verify_node_id-IsEarned :
      (pubkey pow_nonce : Option Value)
      → verify_node_id p node_id pubkey pow_nonce difficulty ≡ ok true
      → IsEarned p node_id difficulty
  unfolding verify_node_id
  verify_node_id-IsEarned (some (str hex)) pow_nonce h = elim (Option-cases (from_hex hex)) [
    | inl bad ↦ cc (rw (bad, verify_node_id) at h)
    | inr (key, good) ↦ verify_key-true key (integer pow_nonce) (rw (good, verify_node_id) at h)
  ]
  verify_node_id-IsEarned none pow_nonce h = cc
  verify_node_id-IsEarned _ pow_nonce h = cc
