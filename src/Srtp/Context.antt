-- ===== src/Srtp/Context.antt =====
-- The data of src/rtp/srtp.rs. Keys, salts and packets are byte strings.
use rtp_sip_module.Prelude.{
  ℕ, ◌+◌, ◌*◌, ◌/◌, ◌%◌, Bool, Option, none, some, List, [], ◌∷◌, if◌then◌else◌, ltb, ◌==◌, not,
  length,
}
use rtp_sip_module.Prelude.Bytes.{byte, u16_at}
use rtp_sip_module.Prelude.Text.{same_text}

-- the crates `aes` and `hmac`: one block under a key, and HMAC-SHA1 of a text under a key
pub record Crypto : Type 0 where
  pub encrypt_block : List ℕ → List ℕ → List ℕ
  pub hmac_sha1 : List ℕ → List ℕ → List ℕ

-- `SrtpCipherSuite`
pub data CipherSuite : Type 0 where
  aes_cm128_hmac_sha1_80 aes_cm128_hmac_sha1_32 : CipherSuite

-- "AES_CM_128_HMAC_SHA1_80" and "AES_CM_128_HMAC_SHA1_32"
abbrev pub suite_name_80 : List ℕ
suite_name_80 =
    65 ∷ 69 ∷ 83 ∷ 95 ∷ 67 ∷ 77 ∷ 95 ∷ 49 ∷ 50 ∷ 56 ∷ 95 ∷ 72 ∷ 77 ∷ 65 ∷ 67 ∷ 95 ∷ 83 ∷ 72 ∷ 65
    ∷ 49 ∷ 95 ∷ 56 ∷ 48 ∷ []

abbrev pub suite_name_32 : List ℕ
suite_name_32 =
    65 ∷ 69 ∷ 83 ∷ 95 ∷ 67 ∷ 77 ∷ 95 ∷ 49 ∷ 50 ∷ 56 ∷ 95 ∷ 72 ∷ 77 ∷ 65 ∷ 67 ∷ 95 ∷ 83 ∷ 72 ∷ 65
    ∷ 49 ∷ 95 ∷ 51 ∷ 50 ∷ []

-- `SrtpCipherSuite::from_str`
unfoldable pub suite_from_str : List ℕ → Option CipherSuite
suite_from_str s =
    if same_text s suite_name_80
    then some aes_cm128_hmac_sha1_80
    else if same_text s suite_name_32
    then some aes_cm128_hmac_sha1_32
    else none

-- `SrtpCipherSuite::as_str`
unfoldable pub suite_as_str : CipherSuite → List ℕ
suite_as_str aes_cm128_hmac_sha1_80 = suite_name_80
suite_as_str aes_cm128_hmac_sha1_32 = suite_name_32

-- `SrtpCipherSuite::rtp_auth_tag_len`
abbrev pub rtp_auth_tag_len : CipherSuite → ℕ
rtp_auth_tag_len aes_cm128_hmac_sha1_80 = 10
rtp_auth_tag_len aes_cm128_hmac_sha1_32 = 4

-- `SRTCP_AUTH_TAG_LEN`, `SRTCP_INDEX_LEN`, `SRTP_RESET_THRESHOLD`
abbrev pub srtcp_auth_tag_len : ℕ
srtcp_auth_tag_len = 10

abbrev pub srtcp_index_len : ℕ
srtcp_index_len = 4

abbrev pub srtp_reset_threshold : ℕ
srtp_reset_threshold = 100

-- The errors, named for their messages. `rejected` is the one message for a failed
-- authentication, a replay and a short packet.
pub data Error : Type 0 where
  rtp_too_short key_lifetime_exhausted non_monotonic_index rejected : Error
  header_too_short extension_too_short header_exceeds_packet : Error
  rtcp_too_short srtcp_index_exhausted srtcp_too_short srtcp_rejected : Error

-- `Result<T>`, with the panic of a failed `assert!`
pub data Result {ℓ} (A : Type ℓ) : Type ℓ where
  ok : A → Result A
  err : Error → Result A
  panic : Result A

-- `SessionKeys`
pub record SessionKeys : Type 0 where
  pub enc_key : List ℕ
  pub auth_key : List ℕ
  pub salt : List ℕ

-- `SrtpContext`
pub record SrtpContext : Type 0 where
  pub suite : CipherSuite
  pub master_key : List ℕ
  pub master_salt : List ℕ
  pub rtp_keys : SessionKeys
  pub rtcp_keys : SessionKeys
  pub key_derivation_rate : ℕ
  pub roc : ℕ
  pub s_l : ℕ
  pub initialized : Bool
  pub send_counter : ℕ
  pub send_initialized : Bool
  pub last_sent_index : ℕ
  pub packets_encrypted : ℕ
  pub srtcp_index : ℕ
  pub replay_window : ℕ
  pub replay_window_base : ℕ
  pub srtcp_replay_window : ℕ
  pub srtcp_replay_window_base : ℕ
  pub srtcp_replay_initialized : Bool
  pub error_count : ℕ
  pub mki : Option (List ℕ)
  pub mki_length : Option ℕ
  pub current_recv_ssrc : Option ℕ

-- the length of the CSRC list, and whether the X bit is set
abbrev csrc_bytes : List ℕ → ℕ
csrc_bytes packet = byte packet 0 % 16 * 4

abbrev has_extension : List ℕ → Bool
has_extension packet = not (byte packet 0 / 16 % 2 == 0)

-- `rtp_header_len`
unfoldable pub rtp_header_len : List ℕ → Result ℕ
unfolding u16_at
rtp_header_len packet =
    let n = length packet in
    let len = 12 + csrc_bytes packet in
    let extended = len + 4 + u16_at packet (len + 2) * 4 in
    if ltb n 12
    then err header_too_short
    else if has_extension packet
    then (if ltb n (len + 4)
        then err extension_too_short
        else if ltb n extended
        then err header_exceeds_packet
        else ok extended)
    else if ltb n len
    then err header_exceeds_packet
    else ok len
