-- ===== src/Crypto.antt =====
-- The encryption engine of a connection: the trait `CryptoEngine` of src/crypto/mod.rs, as an interface.
-- A buffer that the code overwrites is the function's result.
use zetta_transport.Common.{ℕ, Bool, List, ◌≡◌, length}
use zetta_transport.Error.{Result, ok}

pub record CryptoEngine (K : Type 0) : Type 0 where
  pub encrypt_in_place : K → (packet_number : ℕ) → (aad payload : List ℕ) → Result (List ℕ × List ℕ)
  pub decrypt_in_place :
      K → (packet_number : ℕ) → (aad payload tag : List ℕ) → (use_prev_key : Bool) → Result (List ℕ)
  pub trial_decrypt_and_rotate :
      K → (packet_number : ℕ) → (aad payload tag : List ℕ) → Result (List ℕ × K)
  pub apply_header_protection : K → (packet : List ℕ) → (pn_offset : ℕ) → Result (List ℕ)
  pub remove_header_protection : K → (packet : List ℕ) → (pn_offset : ℕ) → Result (List ℕ)
  pub rotate_keys : K → K
  pub epoch : K → ℕ

-- What the types of the trait say: encryption in place keeps the length of the payload and gives a
-- tag of 16 bytes, and header protection keeps the length of the packet.
pub record KeepsLengths {K : Type 0} (engine : CryptoEngine K) : Type 0 where
  pub encrypted :
      (k : K) (pn : ℕ) (aad payload : List ℕ) (cipher tag : List ℕ)
      → engine.encrypt_in_place k pn aad payload ≡ ok (cipher, tag)
      → (length cipher ≡ length payload) × (length tag ≡ 16)
  pub header_protected :
      (k : K) (packet : List ℕ) (offset : ℕ) (out : List ℕ)
      → engine.apply_header_protection k packet offset ≡ ok out
      → length out ≡ length packet
