-- ===== src/Rtcp/Compound.antt =====
-- `parse_xr` and `parse_rtcp_compound` of src/rtp/rtcp.rs.
use rtp_sip_module.Prelude.{
  ℕ, zero, suc, ◌+◌, ◌-◌, ◌*◌, ◌/◌, ◌%◌, Bool, true, false, ◌&&◌, ◌||◌, Option, none, some, List,
  [], ◌∷◌, if◌then◌else◌, ltb, leb, ◌==◌, length, take, drop,
}
use mathlib.Core.Option
use rtp_sip_module.Prelude.Bytes.{byte, u16_at, u32_at}
use rtp_sip_module.Rtcp.{
  VoipMetricsBlock, ExtendedReport, RtcpPacket, sender_report, receiver_report, source_description,
  goodbye, extended_report, unknown, pt_sr, pt_rr, pt_sdes, pt_bye, pt_xr,
}
use rtp_sip_module.Rtcp.Metrics
use rtp_sip_module.Rtcp.Parse.{parse_sender_report, parse_receiver_report, parse_sdes, parse_bye}

-- the metrics of a block body: those found before where it has none
unfoldable pub read_metrics : List ℕ → Option VoipMetricsBlock → Option VoipMetricsBlock
unfolding Metrics.parse u32_at
read_metrics body before =
    if leb 32 (length body)
    then elim (Metrics.parse (drop 4 body)) [
      | none ↦ before
      | some metrics ↦ some (record { source_ssrc = u32_at body 0; metrics = metrics })
    ]
    else before

-- `block_length_words * 4` of the block that the bytes begin with
unfoldable pub block_data_len : List ℕ → ℕ
unfolding u16_at
block_data_len rest = u16_at rest 2 * 4

-- the loop over the blocks of an extended report; a block takes at least four bytes
unfoldable pub parse_xr_blocks : ℕ → List ℕ → Option VoipMetricsBlock → Option VoipMetricsBlock
unfolding read_metrics block_data_len
parse_xr_blocks zero rest found = found
parse_xr_blocks (suc fuel) rest found =
    elim (ltb (length rest) 4 || ltb (length rest) (4 + block_data_len rest)) [
      | true ↦ found
      | false ↦ parse_xr_blocks fuel (drop (4 + block_data_len rest) rest) (
          if byte rest 0 == 7
          then read_metrics (take (block_data_len rest) (drop 4 rest)) found
          else found)
    ]

-- `parse_xr`
unfoldable pub parse_xr : List ℕ → Option ExtendedReport
unfolding parse_xr_blocks u32_at
parse_xr data_ =
    if ltb (length data_) 8
    then none
    else some (record {
      ssrc = u32_at data_ 4;
      voip_metrics = parse_xr_blocks (length data_) (drop 8 data_) none;
    })

-- `packet_len` of the packet that the bytes begin with
unfoldable pub packet_len : List ℕ → ℕ
unfolding u16_at
packet_len rest = (u16_at rest 2 + 1) * 4

-- The loop goes on: a header is there, its version is 2 and the packet is not cut short.
unfoldable pub accepts : List ℕ → Bool
unfolding packet_len
accepts rest =
    (leb 4 (length rest) && (byte rest 0 / 64 % 4 == 2)) && leb (packet_len rest) (length rest)

-- `effective_end - offset`
unfoldable pub effective_len : List ℕ → ℕ
unfolding packet_len
effective_len rest =
    let pad_count : ℕ = byte rest (packet_len rest - 1) in
    if ((byte rest 0 / 32 % 2 == 1) && leb 5 (packet_len rest))
      && (ltb 0 pad_count && ltb pad_count (packet_len rest - 4))
    then packet_len rest - pad_count
    else packet_len rest

-- the `match pt` of the loop; `none` pushes nothing
unfoldable pub parse_packet : ℕ → List ℕ → ℕ → Option RtcpPacket
unfolding parse_sender_report parse_receiver_report parse_sdes parse_bye parse_xr
parse_packet pt payload rc =
    if pt == pt_sr
    then Option.map sender_report (parse_sender_report payload rc)
    else if pt == pt_rr
    then Option.map receiver_report (parse_receiver_report payload rc)
    else if pt == pt_sdes
    then Option.map source_description (parse_sdes payload rc)
    else if pt == pt_bye
    then Option.map goodbye (parse_bye payload rc)
    else if pt == pt_xr
    then Option.map extended_report (parse_xr payload)
    else some (unknown pt)

-- the packet that the bytes begin with
unfoldable pub parse_first : List ℕ → Option RtcpPacket
unfolding parse_packet effective_len
parse_first rest = parse_packet (byte rest 1) (take (effective_len rest) rest) (byte rest 0 % 32)

abbrev pub push {ℓ} : {A : Type ℓ} → Option A → List A → List A
push none packets = packets
push (some p) packets = p ∷ packets

-- the loop; a packet takes at least four bytes
unfoldable pub parse_from : ℕ → List ℕ → List RtcpPacket
unfolding accepts parse_first packet_len
parse_from zero rest = []
parse_from (suc fuel) rest = elim (accepts rest) [
  | false ↦ []
  | true ↦ push (parse_first rest) (parse_from fuel (drop (packet_len rest) rest))
]

-- `parse_rtcp_compound`
unfoldable pub parse_rtcp_compound : List ℕ → List RtcpPacket
unfolding parse_from
parse_rtcp_compound data_ = parse_from (length data_) data_
