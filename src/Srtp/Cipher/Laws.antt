-- ===== src/Srtp/Cipher/Laws.antt =====
-- Counter mode applied twice, and the inputs that it feeds to the cipher: src/rtp/srtp.rs.
use rtp_sip_module.Prelude.{
  ℕ, zero, suc, ◌+◌, ◌-◌, ◌/◌, ◌%◌, ◌^◌, ◌<◌, min, bit_xor, ◌≡◌, refl, sym, ap, ◌∙◌, true, List, [],
  ◌∷◌, ◌++◌, leb, length, set, take, drop, length-append, length-take, length-drop,
  take-append-drop, length-set, get_or-set_self, get_or-set_ne, arith,
}
use rtp_sip_module.Prelude.Bits.{bit_xor-bit_xor, bit_xor-zero}
use rtp_sip_module.Prelude.Bytes.{xor_bytes, length-xor_bytes, xor_bytes_twice, byte, be32, be48}
use rtp_sip_module.Srtp.Context.{Crypto, ok}
use rtp_sip_module.Srtp.Cipher.{aes_cm_iv, counter_block, blocks_needed, xor_blocks, aes_cm_encrypt}

-- A list of `m` elements that was cut after `n` falls apart there again.
module _ {ℓ} {A : Type ℓ} where
  take_of_cut :
      (n m : ℕ) (xs ys : List A) → length xs ≡ min n m → length ys ≡ m - n → take n (xs ++ ys) ≡ xs
  take_of_cut zero m [] ys p q = refl
  take_of_cut zero m (x ∷ xs) ys p q = absurd (omega arith)
  take_of_cut (suc n) m [] [] p q = refl
  take_of_cut (suc n) m [] (y ∷ ys) p q = absurd (omega arith)
  take_of_cut (suc n) m (x ∷ xs) ys p q =
      ap (λ t. x ∷ t) (take_of_cut n (m - 1) xs ys (omega arith) (omega arith))

  drop_of_cut :
      (n m : ℕ) (xs ys : List A) → length xs ≡ min n m → length ys ≡ m - n → drop n (xs ++ ys) ≡ ys
  drop_of_cut zero m [] ys p q = refl
  drop_of_cut zero m (x ∷ xs) ys p q = absurd (omega arith)
  drop_of_cut (suc n) m [] [] p q = refl
  drop_of_cut (suc n) m [] (y ∷ ys) p q = absurd (omega arith)
  drop_of_cut (suc n) m (x ∷ xs) ys p q = drop_of_cut n (m - 1) xs ys (omega arith) (omega arith)

module _ (crypto : Crypto) (key iv : List ℕ) where
  open crypto use {encrypt_block}

  pub length-xor_blocks :
      (n block_idx : ℕ) (bytes : List ℕ)
      → length (xor_blocks crypto key iv n block_idx bytes) ≡ length bytes
  unfolding xor_blocks
  length-xor_blocks zero block_idx bytes = refl
  length-xor_blocks (suc n) block_idx bytes = omega (
    arith,
    length-append {0} (xor_bytes (take 16 bytes) (encrypt_block key (counter_block iv block_idx)))
        (xor_blocks crypto key iv n (block_idx + 1) (drop 16 bytes)),
    length-xor_bytes (take 16 bytes) (encrypt_block key (counter_block iv block_idx)),
    length-xor_blocks n (block_idx + 1) (drop 16 bytes),
    length-take {0} 16 bytes,
    length-drop {0} 16 bytes,
  )

  xor_blocks_twice :
      (n block_idx : ℕ) (bytes : List ℕ)
      → xor_blocks crypto key iv n block_idx (xor_blocks crypto key iv n block_idx bytes) ≡ bytes
  unfolding xor_blocks
  xor_blocks_twice zero block_idx bytes = refl
  xor_blocks_twice (suc n) block_idx bytes =
      rw
        (
          take_of_cut 16 (length bytes) _ _ first_length rest_length,
          drop_of_cut 16 (length bytes) _ _ first_length rest_length,
          xor_bytes_twice (take 16 bytes) (encrypt_block key (counter_block iv block_idx)),
          xor_blocks_twice n (block_idx + 1) (drop 16 bytes),
        )
        (take-append-drop 16 bytes)
    where
      first_length :
          length (xor_bytes (take 16 bytes) (encrypt_block key (counter_block iv block_idx)))
          ≡ min 16 (length bytes)
      first_length = length-xor_bytes _ _ ∙ length-take 16 bytes

      rest_length :
          length (xor_blocks crypto key iv n (block_idx + 1) (drop 16 bytes)) ≡ length bytes - 16
      rest_length = length-xor_blocks n (block_idx + 1) (drop 16 bytes) ∙ length-drop 16 bytes

ok_parts :
    (crypto : Crypto) (key salt : List ℕ) (ssrc index : ℕ) (bytes out : List ℕ)
    → aes_cm_encrypt crypto key salt ssrc index bytes ≡ ok out
    → (leb (blocks_needed bytes) 65536 ≡ true)
      × (xor_blocks crypto key (aes_cm_iv salt ssrc index) (blocks_needed bytes) 0 bytes ≡ out)
unfolding aes_cm_encrypt
ok_parts crypto key salt ssrc index bytes out e = ground arith

-- Encrypting keeps the length, and encrypting what came out with the same key, salt, SSRC and
-- index gives the bytes back.
pub aes_cm_encrypt_twice :
    (crypto : Crypto) (key salt : List ℕ) (ssrc index : ℕ) (bytes out : List ℕ)
    → aes_cm_encrypt crypto key salt ssrc index bytes ≡ ok out
    → (aes_cm_encrypt crypto key salt ssrc index out ≡ ok bytes) × (length out ≡ length bytes)
unfolding aes_cm_encrypt
aes_cm_encrypt_twice crypto key salt ssrc index bytes out e = (
  rw (same_blocks, fits, ← p, xor_blocks_twice crypto key iv (blocks_needed bytes) 0 bytes),
  same_length,
)
  where
    iv : List ℕ
    iv = aes_cm_iv salt ssrc index

    fits : leb (blocks_needed bytes) 65536 ≡ true
    fits = (ok_parts crypto key salt ssrc index bytes out e).0

    p : xor_blocks crypto key iv (blocks_needed bytes) 0 bytes ≡ out
    p = (ok_parts crypto key salt ssrc index bytes out e).1

    same_length : length out ≡ length bytes
    same_length = ap length (sym p) ∙ length-xor_blocks crypto key iv (blocks_needed bytes) 0 bytes

    same_blocks : (length out + 15) / 16 ≡ (length bytes + 15) / 16
    same_blocks = ap (λ t. (t + 15) / 16) same_length

bit_xor_cancel : (a b s : ℕ) → bit_xor a s ≡ bit_xor b s → a ≡ b
bit_xor_cancel a b s e = sym (bit_xor-bit_xor a s) ∙ ap (λ t. bit_xor t s) e ∙ bit_xor-bit_xor b s

byte-xor_bytes :
    (xs ys : List ℕ) (i : ℕ)
    → i < length xs
    → byte (xor_bytes xs ys) i ≡ bit_xor (byte xs i) (byte ys i)
unfolding xor_bytes
byte-xor_bytes [] ys i h = elim h [ ]
byte-xor_bytes (x ∷ xs) [] i h = sym (bit_xor-zero (byte (x ∷ xs) i))
byte-xor_bytes (x ∷ xs) (y ∷ ys) zero h = refl
byte-xor_bytes (x ∷ xs) (y ∷ ys) (suc i) h = byte-xor_bytes xs ys i (omega arith)

abbrev plain_iv : ℕ → ℕ → List ℕ
plain_iv ssrc index = 0 ∷ 0 ∷ 0 ∷ 0 ∷ (be32 ssrc ++ (be48 index ++ (0 ∷ 0 ∷ [])))

-- bytes 4 to 13 of a counter block are those of the IV before the salt, xored with the salt
byte-counter_block :
    (salt : List ℕ) (ssrc index block_idx i : ℕ)
    → i < 14
    → byte (counter_block (aes_cm_iv salt ssrc index) block_idx) i
      ≡ bit_xor (byte (plain_iv ssrc index) i) (byte salt i)
unfolding counter_block aes_cm_iv
byte-counter_block salt ssrc index block_idx i h =
    get_or-set_ne (set iv 14 (block_idx % 2 ^ 16 / 256)) 15 i (block_idx % 2 ^ 16 % 256) 0
      (omega arith)
    ∙ get_or-set_ne iv 14 i (block_idx % 2 ^ 16 / 256) 0 (omega arith)
    ∙ byte-xor_bytes (plain_iv ssrc index) salt i (omega arith)
  where
    iv : List ℕ
    iv = xor_bytes (plain_iv ssrc index) salt

counter_of_block :
    (salt : List ℕ) (ssrc index block_idx : ℕ)
    → let block = counter_block (aes_cm_iv salt ssrc index) block_idx in
      (byte block 14 ≡ block_idx % 2 ^ 16 / 256) × (byte block 15 ≡ block_idx % 2 ^ 16 % 256)
unfolding counter_block aes_cm_iv
counter_of_block salt ssrc index block_idx = (
  get_or-set_ne (set iv 14 high) 15 14 low 0 (omega arith)
      ∙ get_or-set_self iv 14 high 0 (omega (arith, iv_length)),
  get_or-set_self (set iv 14 high) 15 low 0 (omega (arith, length-set {0} iv 14 high, iv_length)),
)
  where
    iv : List ℕ
    iv = xor_bytes (plain_iv ssrc index) salt

    high : ℕ
    high = block_idx % 2 ^ 16 / 256

    low : ℕ
    low = block_idx % 2 ^ 16 % 256

    iv_length : length iv ≡ 16
    iv_length = length-xor_bytes (plain_iv ssrc index) salt

same_byte :
    (salt : List ℕ) (ssrc ssrc' index index' b b' i : ℕ)
    → i < 14
    → counter_block (aes_cm_iv salt ssrc index) b ≡ counter_block (aes_cm_iv salt ssrc' index') b'
    → byte (plain_iv ssrc index) i ≡ byte (plain_iv ssrc' index') i
same_byte salt ssrc ssrc' index index' b b' i h e = bit_xor_cancel _ _ (byte salt i) (
    sym (byte-counter_block salt ssrc index b i h)
    ∙ ap (λ t. byte t i) e
    ∙ byte-counter_block salt ssrc' index' b' i h)

-- Under one key and salt, two blocks of keystream come from the same cipher input only if they are
-- the same block of the same packet index of the same source.
pub counter_block-injective :
    (salt : List ℕ) (ssrc ssrc' index index' b b' : ℕ)
    → ssrc < 2 ^ 32
    → ssrc' < 2 ^ 32
    → index < 2 ^ 48
    → index' < 2 ^ 48
    → b < 2 ^ 16
    → b' < 2 ^ 16
    → counter_block (aes_cm_iv salt ssrc index) b ≡ counter_block (aes_cm_iv salt ssrc' index') b'
    → (ssrc ≡ ssrc') × (index ≡ index') × (b ≡ b')
counter_block-injective salt ssrc ssrc' index index' b b' hs hs' hi hi' hb hb' e = (
  omega (
    arith,
    same 4 (omega arith),
    same 5 (omega arith),
    same 6 (omega arith),
    same 7 (omega arith),
  ),
  omega (
    arith,
    same 8 (omega arith),
    same 9 (omega arith),
    same 10 (omega arith),
    same 11 (omega arith),
    same 12 (omega arith),
    same 13 (omega arith),
  ),
  omega (
    arith,
    counter_of_block salt ssrc index b,
    counter_of_block salt ssrc' index' b',
    ap (λ t. byte t 14) e,
    ap (λ t. byte t 15) e,
  ),
)
  where
    same : (i : ℕ) → i < 14 → byte (plain_iv ssrc index) i ≡ byte (plain_iv ssrc' index') i
    same i h = same_byte salt ssrc ssrc' index index' b b' i h e
