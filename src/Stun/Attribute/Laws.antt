-- ===== src/Stun/Attribute/Laws.antt =====
-- STUN attributes that are encoded and decoded again, src/nat/stun/attributes.rs.
use rtp_sip_module.Prelude.{
  ℕ, zero, suc, ◌+◌, ◌*◌, ◌/◌, ◌%◌, ◌^◌, ◌<◌, ◌≡◌, refl, sym, ap, ap₂, ◌∙◌, Bool, true, false, some,
  List, [], ◌∷◌, ◌++◌, length, take, arith,
}
use rtp_sip_module.Prelude.Bits.{bit_xor-lt, bit_xor-bit_xor}
use rtp_sip_module.Prelude.Bytes.{u16_at, be16, xor_bytes_twice, length-xor_bytes}
use rtp_sip_module.Stun.Attribute.{
  SocketAddr, decode_address, xor_port, xor_ip, cookie_bytes, cookie_high,
}

-- The octets of an address are as many as its family has, and its port has 16 bits; an IPv6 address has
-- no flow information and no scope, as a message has no room for them.
abbrev pub IsAddress : SocketAddr → Type 0
IsAddress (SocketAddr.v4 ip port) = (length ip ≡ 4) × (port < 2 ^ 16)
IsAddress (SocketAddr.v6 ip port flowinfo scope_id) =
    (length ip ≡ 16) × (port < 2 ^ 16) × (flowinfo ≡ 0) × (scope_id ≡ 0)

-- the value of an address attribute
unfoldable pub address_value : SocketAddr → Bool → List ℕ → List ℕ
address_value (SocketAddr.v4 ip port) xor txn_id =
    0 ∷ 1 ∷ (be16 (xor_port xor port) ++ xor_ip xor cookie_bytes ip)
address_value (SocketAddr.v6 ip port flowinfo scope_id) xor txn_id =
    0 ∷ 2 ∷ (be16 (xor_port xor port) ++ xor_ip xor (cookie_bytes ++ txn_id) ip)

xor_port_twice : (xor : Bool) (port : ℕ) → xor_port xor (xor_port xor port) ≡ port
unfolding xor_port
xor_port_twice true port = bit_xor-bit_xor port cookie_high
xor_port_twice false port = refl

xor_port-lt : (xor : Bool) (port : ℕ) → port < 2 ^ 16 → xor_port xor port < 2 ^ 16
unfolding xor_port
xor_port-lt true port h = bit_xor-lt 16 port cookie_high h (omega arith)
xor_port-lt false port h = h

xor_ip_twice : (xor : Bool) (key ip : List ℕ) → xor_ip xor key (xor_ip xor key ip) ≡ ip
unfolding xor_ip
xor_ip_twice true key ip = xor_bytes_twice ip key
xor_ip_twice false key ip = refl

pub length-xor_ip : (xor : Bool) (key ip : List ℕ) → length (xor_ip xor key ip) ≡ length ip
unfolding xor_ip
length-xor_ip true key ip = length-xor_bytes ip key
length-xor_ip false key ip = refl

take_all : (n : ℕ) (xs : List ℕ) → length xs ≡ n → take n xs ≡ xs
take_all zero [] h = refl
take_all zero (x ∷ xs) h = absurd (omega arith)
take_all (suc n) [] h = refl
take_all (suc n) (x ∷ xs) h = ap (λ t. x ∷ t) (take_all n xs (omega arith))

pub be16-value : (n : ℕ) → n < 2 ^ 16 → n / 256 % 256 * 256 + n % 256 ≡ n
be16-value n h = omega arith

decode_address_v4 :
    (xor : Bool) (ip txn_id : List ℕ) (port : ℕ)
    → length ip ≡ 4
    → decode_address (0 ∷ 1 ∷ (be16 port ++ ip)) xor txn_id
      ≡ some (
          SocketAddr.v4
            (xor_ip xor cookie_bytes (take 4 ip))
            (xor_port xor (port / 256 % 256 * 256 + port % 256)))
unfolding decode_address u16_at
decode_address_v4 xor ip txn_id port h = ground arith

decode_address_v6 :
    (xor : Bool) (ip txn_id : List ℕ) (port : ℕ)
    → length ip ≡ 16
    → decode_address (0 ∷ 2 ∷ (be16 port ++ ip)) xor txn_id
      ≡ some (
          SocketAddr.v6
            (xor_ip xor (cookie_bytes ++ txn_id) (take 16 ip))
            (xor_port xor (port / 256 % 256 * 256 + port % 256))
            0
            0)
unfolding decode_address u16_at
decode_address_v6 xor ip txn_id port h = ground arith

restored_ip :
    (xor : Bool) (key ip : List ℕ) (n : ℕ)
    → length ip ≡ n
    → xor_ip xor key (take n (xor_ip xor key ip)) ≡ ip
restored_ip xor key ip n h =
    ap (xor_ip xor key) (take_all n (xor_ip xor key ip) (length-xor_ip xor key ip ∙ h))
    ∙ xor_ip_twice xor key ip

restored_port :
    (xor : Bool) (port : ℕ)
    → port < 2 ^ 16
    → xor_port xor (xor_port xor port / 256 % 256 * 256 + xor_port xor port % 256) ≡ port
restored_port xor port h =
    ap (xor_port xor) (be16-value (xor_port xor port) (xor_port-lt xor port h))
    ∙ xor_port_twice xor port

-- An address decodes from its value, exclusive-ored or not.
pub decode-address_value :
    (addr : SocketAddr) (xor : Bool) (txn_id : List ℕ)
    → IsAddress addr
    → decode_address (address_value addr xor txn_id) xor txn_id ≡ some addr
unfolding address_value
decode-address_value (SocketAddr.v4 ip port) xor txn_id (l, p) =
    decode_address_v4 xor (xor_ip xor cookie_bytes ip) txn_id (xor_port xor port)
      (length-xor_ip xor cookie_bytes ip ∙ l)
    ∙ ap₂ (λ i q. some (SocketAddr.v4 i q)) (restored_ip xor cookie_bytes ip 4 l)
        (restored_port xor port p)
decode-address_value (SocketAddr.v6 ip port flowinfo scope_id) xor txn_id (l, p, f, s) =
    decode_address_v6 xor (xor_ip xor (cookie_bytes ++ txn_id) ip) txn_id (xor_port xor port)
      (length-xor_ip xor (cookie_bytes ++ txn_id) ip ∙ l)
    ∙ ap₂ (λ i q. some (SocketAddr.v6 i q 0 0)) (restored_ip xor (cookie_bytes ++ txn_id) ip 16 l)
        (restored_port xor port p)
    ∙ ap₂ (λ i q. some (SocketAddr.v6 ip port i q)) (sym f) (sym s)
