-- ===== src/Srtp/Cipher.antt =====
-- AES in counter mode, as `aes_cm_encrypt` and `prf_derive` of src/rtp/srtp.rs use it.
pub mod Laws
use rtp_sip_module.Prelude.{
  ℕ, zero, suc, ◌+◌, ◌-◌, ◌/◌, ◌%◌, ◌^◌, bit_xor, Bool, true, false, List, [], ◌∷◌, ◌++◌,
  if◌then◌else◌, ltb, leb, length, set, take, drop, replicate, not, ◌==◌,
}
use rtp_sip_module.Prelude.Bytes.{be32, be48, xor_bytes}
use rtp_sip_module.Srtp.Context.{Crypto, SessionKeys, Result, ok, err, panic}

-- the IV of `aes_cm_encrypt`: four zero bytes, the SSRC, six bytes of index and two zero bytes,
-- xored with the salt
unfoldable pub aes_cm_iv : List ℕ → ℕ → ℕ → List ℕ
unfolding xor_bytes
aes_cm_iv salt ssrc index =
    xor_bytes (0 ∷ 0 ∷ 0 ∷ 0 ∷ (be32 ssrc ++ (be48 index ++ (0 ∷ 0 ∷ [])))) salt

-- `block[14] = (counter >> 8) as u8; block[15] = counter as u8`, for `counter = block_idx as u16`
unfoldable pub counter_block : List ℕ → ℕ → List ℕ
counter_block iv block_idx =
    let counter = block_idx % 2 ^ 16 in set (set iv 14 (counter / 256)) 15 (counter % 256)

-- `data.len().checked_add(15)` divided by 16; a length is below 2^63, so the sum does not overflow
abbrev pub blocks_needed : List ℕ → ℕ
blocks_needed bytes = (length bytes + 15) / 16

module _ (crypto : Crypto) where
  open crypto use {encrypt_block}

  -- the loop of `aes_cm_encrypt` over the blocks that are left
  unfoldable pub xor_blocks : List ℕ → List ℕ → ℕ → ℕ → List ℕ → List ℕ
  xor_blocks key iv zero block_idx bytes = bytes
  xor_blocks key iv (suc n) block_idx bytes =
      xor_bytes (take 16 bytes) (encrypt_block key (counter_block iv block_idx))
      ++ xor_blocks key iv n (block_idx + 1) (drop 16 bytes)

  -- `aes_cm_encrypt`
  unfoldable pub aes_cm_encrypt : List ℕ → List ℕ → ℕ → ℕ → List ℕ → Result (List ℕ)
  aes_cm_encrypt key salt ssrc index bytes =
      if leb (blocks_needed bytes) 65536
      then ok (xor_blocks key (aes_cm_iv salt ssrc index) (blocks_needed bytes) 0 bytes)
      else panic

  -- `aes_cm_encrypt_srtcp`
  unfoldable pub aes_cm_encrypt_srtcp : List ℕ → List ℕ → ℕ → ℕ → List ℕ → Result (List ℕ)
  aes_cm_encrypt_srtcp key salt ssrc srtcp_index bytes =
      if leb srtcp_index 0x7fff_ffff then aes_cm_encrypt key salt ssrc srtcp_index bytes else panic

  -- the IV of `prf_derive`: the salt, with the label and six bytes of `r` xored in from byte 7 on
  unfoldable pub prf_iv : List ℕ → ℕ → ℕ → List ℕ
  prf_iv master_salt label r =
      take 7 master_salt ++ (xor_bytes (drop 7 master_salt) (label ∷ be48 r) ++ (0 ∷ 0 ∷ []))

  -- the loop of `prf_derive`: what is still to be filled is counted down
  unfoldable pub prf_blocks : List ℕ → List ℕ → ℕ → ℕ → ℕ → List ℕ
  prf_blocks key iv zero block_idx left = []
  prf_blocks key iv (suc n) block_idx left =
      take left (encrypt_block key (counter_block iv block_idx))
      ++ prf_blocks key iv n (block_idx + 1) (left - 16)

  -- `prf_derive`; the three calls ask for 14 to 20 bytes, so its assertion holds
  unfoldable pub prf_derive : List ℕ → List ℕ → ℕ → ℕ → ℕ → List ℕ
  prf_derive master_key master_salt label r output_len =
      prf_blocks master_key (prf_iv master_salt label r) ((output_len + 15) / 16) 0 output_len

  -- `derive_session_keys`; labels 0, 1, 2 are for RTP and 3, 4, 5 for RTCP
  unfoldable pub derive_session_keys : List ℕ → List ℕ → Bool → ℕ → ℕ → SessionKeys
  derive_session_keys master_key master_salt is_rtcp key_derivation_rate index =
      let r = if ltb 0 key_derivation_rate then index / key_derivation_rate else 0 in
      record {
        enc_key = prf_derive master_key master_salt (if is_rtcp then 3 else 0) r 16;
        auth_key = prf_derive master_key master_salt (if is_rtcp then 4 else 1) r 20;
        salt = prf_derive master_key master_salt (if is_rtcp then 5 else 2) r 14;
      }
