-- ===== src/Stun/Message/Access.antt =====
-- What a received STUN message says, src/nat/stun/message.rs.
use rtp_sip_module.Prelude.{
  ℕ, ◌≡◌, refl, sym, ap, ◌∙◌, arith, Bool, Option, none, some, List, [], ◌∷◌, ◌++◌, ◌==◌, bit_and,
}
use rtp_sip_module.Stun.Attribute.{SocketAddr, StunAttribute}
use rtp_sip_module.Stun.Message.{StunMessage}

-- `for attr in &self.attributes { if let … { return Some(…) } }`
unfoldable pub find_first :
    {A : Type 0} → (StunAttribute → Option A) → List StunAttribute → Option A
find_first pick [] = none
find_first pick (a ∷ attributes) =
    let rest = find_first pick attributes in elim (pick a) [ none ↦ rest | some x ↦ some x ]

abbrev pick_xor_mapped : StunAttribute → Option SocketAddr
pick_xor_mapped a = elim a [ StunAttribute.xor_mapped_address addr ↦ some addr | _ ↦ none ]

abbrev pick_mapped : StunAttribute → Option SocketAddr
pick_mapped a = elim a [ StunAttribute.mapped_address addr ↦ some addr | _ ↦ none ]

abbrev pick_changed : StunAttribute → Option SocketAddr
pick_changed a = elim a [
  | StunAttribute.changed_address addr ↦ some addr
  | StunAttribute.other_address addr ↦ some addr
  | _ ↦ none
]

abbrev pick_error_code : StunAttribute → Option ℕ
pick_error_code a = elim a [ StunAttribute.error_code code reason ↦ some code | _ ↦ none ]

-- `add_attribute`
unfoldable pub add_attribute : StunMessage → StunAttribute → StunMessage
add_attribute m attr = record m { attributes = m.attributes ++ (attr ∷ []) }

-- `xor_mapped_address`, `mapped_address`, `reflexive_address`
unfoldable pub xor_mapped_address : StunMessage → Option SocketAddr
unfolding find_first
xor_mapped_address m = find_first pick_xor_mapped m.attributes

unfoldable pub mapped_address : StunMessage → Option SocketAddr
unfolding find_first
mapped_address m = find_first pick_mapped m.attributes

unfoldable pub reflexive_address : StunMessage → Option SocketAddr
unfolding xor_mapped_address mapped_address
reflexive_address m = elim (xor_mapped_address m) [
  | none ↦ mapped_address m
  | some addr ↦ some addr
]

-- `changed_address` and `error_code`
unfoldable pub changed_address : StunMessage → Option SocketAddr
unfolding find_first
changed_address m = find_first pick_changed m.attributes

unfoldable pub error_code : StunMessage → Option ℕ
unfolding find_first
error_code m = find_first pick_error_code m.attributes

-- the class of a message, in two bits of its type
unfoldable pub is_success : StunMessage → Bool
is_success m = bit_and m.msg_type 0x0110 == 0x0100

unfoldable pub is_error : StunMessage → Bool
is_error m = bit_and m.msg_type 0x0110 == 0x0110

unfoldable pub is_request : StunMessage → Bool
is_request m = bit_and m.msg_type 0x0110 == 0

unfoldable pub is_indication : StunMessage → Bool
is_indication m = bit_and m.msg_type 0x0110 == 0x0010

abbrev pub or_else : {A : Type 0} → Option A → Option A → Option A
or_else none b = b
or_else (some a) b = some a

or_else_assoc : {A : Type 0} (a b c : Option A) → or_else a (or_else b c) ≡ or_else (or_else a b) c
or_else_assoc none b c = refl
or_else_assoc (some a) b c = refl

find_first_step :
    {A : Type 0} (pick : StunAttribute → Option A) (a : StunAttribute) (xs : List StunAttribute)
    → find_first pick (a ∷ xs) ≡ or_else (pick a) (find_first pick xs)
unfolding find_first
find_first_step pick a xs = ground arith

find_first-append :
    {A : Type 0} (pick : StunAttribute → Option A) (xs : List StunAttribute) (x : StunAttribute)
    → find_first pick (xs ++ (x ∷ [])) ≡ or_else (find_first pick xs) (pick x)
unfolding find_first
find_first-append pick [] x = ground arith
find_first-append pick (a ∷ xs) x =
    find_first_step pick a (xs ++ (x ∷ []))
    ∙ ap (or_else (pick a)) (find_first-append pick xs x)
    ∙ or_else_assoc (pick a) (find_first pick xs) (pick x)
    ∙ ap (λ o. or_else o (pick x)) (sym (find_first_step pick a xs))

overridden :
    (xor mapped : Option SocketAddr) (addr : SocketAddr)
    → or_else (or_else xor (some addr)) mapped ≡ or_else xor (some addr)
overridden none mapped addr = refl
overridden (some a) mapped addr = refl

reflexive_of :
    (m : StunMessage) → reflexive_address m ≡ or_else (xor_mapped_address m) (mapped_address m)
unfolding reflexive_address
reflexive_of m = ground arith

-- After a XOR-MAPPED-ADDRESS is added, the reflexive address is that of the first XOR-MAPPED-ADDRESS,
-- which is the added one where the message had none, whatever MAPPED-ADDRESS it has.
pub reflexive_address-add_attribute :
    (m : StunMessage) (addr : SocketAddr)
    → reflexive_address (add_attribute m (StunAttribute.xor_mapped_address addr))
      ≡ or_else (xor_mapped_address m) (some addr)
unfolding xor_mapped_address add_attribute
reflexive_address-add_attribute m addr =
    let added = add_attribute m (StunAttribute.xor_mapped_address addr) in
    reflexive_of added
    ∙ ap (λ o. or_else o (mapped_address added))
        (find_first-append pick_xor_mapped m.attributes (StunAttribute.xor_mapped_address addr))
    ∙ overridden (xor_mapped_address m) (mapped_address added) addr
