-- ===== src/Dtmf/Payload.antt =====
-- `DtmfPayload` of src/rtp/dtmf.rs.
pub mod Laws
use rtp_sip_module.Prelude.{
  ℕ, ◌+◌, ◌*◌, ◌/◌, ◌%◌, ◌^◌, Bool, true, false, ◌&&◌, Option, none, some, List, [], ◌∷◌,
  if◌then◌else◌, ltb, leb, ◌==◌, length, drop, min,
}
use rtp_sip_module.Prelude.Bytes.{byte}
use rtp_sip_module.Dtmf.{DtmfEvent, code}

-- `DtmfPayload`
pub record DtmfPayload : Type 0 where
  pub event : ℕ
  pub is_end : Bool
  pub volume : ℕ
  pub duration : ℕ

-- `new`
unfoldable pub payload_new : DtmfEvent → Bool → ℕ → DtmfPayload
unfolding code
payload_new event is_end duration = record {
  event = code event;
  is_end = is_end;
  volume = 10;
  duration = duration;
}

-- The payload begins with four zero bytes of padding.
unfoldable pub is_padded : List ℕ → Bool
is_padded packet =
    (leb 8 (length packet)
      && ((byte packet 0 == 0)
          && ((byte packet 1 == 0) && ((byte packet 2 == 0) && (byte packet 3 == 0)))))
    && leb (byte packet 4) 15

-- the fields at the offset, which has four bytes after it
unfoldable pub parse_fields : List ℕ → Option DtmfPayload
parse_fields data_ =
    if ltb (length data_) 4
    then none
    else if ltb 15 (byte data_ 0)
    then none
    else some (record {
      event = byte data_ 0;
      is_end = byte data_ 1 / 128 % 2 == 1;
      volume = byte data_ 1 % 64;
      duration = byte data_ 2 * 256 + byte data_ 3;
    })

-- `parse`
unfoldable pub parse : List ℕ → Option DtmfPayload
unfolding is_padded parse_fields
parse packet =
    if ltb (length packet) 4
    then none
    else parse_fields (drop (if is_padded packet then 4 else 0) packet)

-- `serialize`
unfoldable pub serialize : DtmfPayload → List ℕ
serialize p =
    p.event
    ∷ ((if p.is_end then 128 else 0) + p.volume % 64)
    ∷ p.duration / 256 % 256
    ∷ p.duration % 256
    ∷ []

-- `ms_to_timestamp`; the product saturates at the largest word
unfoldable pub ms_to_timestamp : ℕ → ℕ
ms_to_timestamp ms = min (min (ms * 8) 4294967295) 65535

-- `timestamp_to_ms`
unfoldable pub timestamp_to_ms : ℕ → ℕ
timestamp_to_ms ts = ts / 8
