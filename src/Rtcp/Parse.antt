-- ===== src/Rtcp/Parse.antt =====
-- The parsers of src/rtp/rtcp.rs. A slice `data[offset..]` is the list that is left of the data.
use rtp_sip_module.Prelude.{
  ℕ, zero, suc, ◌+◌, ◌-◌, true, false, ◌||◌, Option, none, some, List, [], ◌∷◌, if◌then◌else◌, ltb,
  leb, ◌==◌, length, take, drop,
}
use rtp_sip_module.Prelude.Bytes.{byte, u32_at}
use rtp_sip_module.Prelude.Utf8.{is_utf8}
use rtp_sip_module.Rtcp.{
  ReportBlock, SenderReport, ReceiverReport, SdesChunk, SourceDescription, Goodbye, sdes_cname,
}
use rtp_sip_module.Rtcp.Build.{align}
use rtp_sip_module.Rtcp.Ntp
use rtp_sip_module.Rtcp.Block

-- `String::from_utf8(..).ok()`
unfoldable pub text_of : List ℕ → Option (List ℕ)
text_of bytes = if is_utf8 bytes then some bytes else none

-- the loop over the `rc` report blocks of a report
unfoldable pub parse_blocks : ℕ → List ℕ → List ReportBlock
unfolding Block.parse
parse_blocks zero rest = []
parse_blocks (suc rc) rest = elim (ltb (length rest) 24) [
  | true ↦ []
  | false ↦ Block.parse rest ∷ parse_blocks rc (drop 24 rest)
]

-- `parse_sender_report`
unfoldable pub parse_sender_report : List ℕ → ℕ → Option SenderReport
unfolding parse_blocks u32_at Ntp.parse
parse_sender_report data_ rc =
    if ltb (length data_) 28
    then none
    else some (record {
      ssrc = u32_at data_ 4;
      ntp_timestamp = Ntp.parse data_ 8;
      rtp_timestamp = u32_at data_ 16;
      packet_count = u32_at data_ 20;
      octet_count = u32_at data_ 24;
      report_blocks = parse_blocks rc (drop 28 data_);
    })

-- `parse_receiver_report`
unfoldable pub parse_receiver_report : List ℕ → ℕ → Option ReceiverReport
unfolding parse_blocks u32_at
parse_receiver_report data_ rc =
    if ltb (length data_) 8
    then none
    else some (record { ssrc = u32_at data_ 4; report_blocks = parse_blocks rc (drop 8 data_) })

-- The end of the items at `offset`: the next multiple of 4 after the zero byte, with the bytes from there.
abbrev pub chunk_end : ℕ → List ℕ → ℕ × List ℕ
chunk_end offset rest = let next : ℕ = align (offset + 1) in (next, drop (next - offset) rest)

-- the loop over the items of a chunk; an item takes at least two bytes, so the fuel is the length
unfoldable pub parse_items : ℕ → ℕ → List ℕ → Option (List ℕ) → Option (List ℕ) × (ℕ × List ℕ)
unfolding text_of
parse_items zero offset rest cname = (cname, (offset, rest))
parse_items (suc fuel) offset [] cname = (cname, (offset, []))
parse_items (suc fuel) offset (zero ∷ rest) cname = (cname, chunk_end offset (0 ∷ rest))
parse_items (suc fuel) offset (suc item ∷ rest) cname =
    elim (ltb (length rest) 1 || ltb (length rest) (1 + byte rest 0)) [
      | true ↦ (cname, (offset, suc item ∷ rest))
      | false ↦
          let item_len : ℕ = byte rest 0 in
          parse_items fuel (offset + 2 + item_len) (drop (1 + item_len) rest)
            (if suc item == sdes_cname then text_of (take item_len (drop 1 rest)) else cname)
    ]

-- the loop over the `sc` chunks
unfoldable pub parse_chunks : ℕ → ℕ → List ℕ → List SdesChunk
unfolding parse_items u32_at
parse_chunks zero offset rest = []
parse_chunks (suc sc) offset rest = elim (ltb (length rest) 4) [
  | true ↦ []
  | false ↦
      let items : Option (List ℕ) × (ℕ × List ℕ) =
        parse_items (length rest) (offset + 4) (drop 4 rest) none in
      record { ssrc = u32_at rest 0; cname = items.0 } ∷ parse_chunks sc items.1.0 items.1.1
]

-- `parse_sdes`
unfoldable pub parse_sdes : List ℕ → ℕ → Option SourceDescription
unfolding parse_chunks
parse_sdes data_ sc = some (record { chunks = parse_chunks sc 4 (drop 4 data_) })

-- the loop over the sources of a goodbye, with the bytes after them
unfoldable pub parse_sources : ℕ → List ℕ → List ℕ × List ℕ
unfolding u32_at
parse_sources zero rest = ([], rest)
parse_sources (suc sc) rest = elim (ltb (length rest) 4) [
  | true ↦ ([], rest)
  | false ↦
      let more : List ℕ × List ℕ = parse_sources sc (drop 4 rest) in
      (u32_at rest 0 ∷ more.0, more.1)
]

-- the reason after the sources
unfoldable pub parse_reason : List ℕ → Option (List ℕ)
unfolding text_of
parse_reason [] = none
parse_reason (reason_len ∷ rest) =
    if leb reason_len (length rest) then text_of (take reason_len rest) else none

-- `parse_bye`
unfoldable pub parse_bye : List ℕ → ℕ → Option Goodbye
unfolding parse_sources parse_reason
parse_bye data_ sc =
    let found : List ℕ × List ℕ = parse_sources sc (drop 4 data_) in
    some (record { sources = found.0; reason = parse_reason found.1 })
