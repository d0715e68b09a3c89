-- ===== src/Rtcp/Blocks.antt =====
-- The report blocks of a report are read as they were written, src/rtp/rtcp.rs.
use rtp_sip_module.Prelude.{
  ℕ, suc, ◌*◌, ◌≤◌, ◌≡◌, refl, ap, ap₂, ◌∙◌, List, [], ◌∷◌, ◌++◌, length, drop, length-append,
  append_assoc, arith,
}
use rtp_sip_module.Prelude.Bytes.{drop-append_self}
use rtp_sip_module.Rtcp.{ReportBlock}
use rtp_sip_module.Rtcp.Block
use rtp_sip_module.Rtcp.Fields.{BlockIsValid, parse-write_block}
use rtp_sip_module.Rtcp.Build.{write_blocks}
use rtp_sip_module.Rtcp.Parse.{parse_blocks}

-- Every block is valid.
abbrev pub AllBlocks : List ReportBlock → Type 0
AllBlocks [] = Unit
AllBlocks (rb ∷ blocks) = BlockIsValid rb × AllBlocks blocks

length-write_block : (rb : ReportBlock) → length (Block.write_to rb) ≡ 24
unfolding Block.write_to
length-write_block rb = refl

pub length-write_blocks :
    (blocks : List ReportBlock) → length (write_blocks blocks) ≡ length blocks * 24
unfolding write_blocks
length-write_blocks [] = refl
length-write_blocks (rb ∷ blocks) = omega (
  arith,
  length-append (Block.write_to rb) (write_blocks blocks),
  length-write_block rb,
  length-write_blocks blocks,
)

parse_blocks-more :
    (n : ℕ) (rest : List ℕ)
    → 24 ≤ length rest
    → parse_blocks (suc n) rest ≡ Block.parse rest ∷ parse_blocks n (drop 24 rest)
unfolding parse_blocks
parse_blocks-more n rest h = ground arith

pub parse-write_blocks :
    (blocks : List ReportBlock) (rest : List ℕ)
    → AllBlocks blocks
    → parse_blocks (length blocks) (write_blocks blocks ++ rest) ≡ blocks
unfolding parse_blocks write_blocks
parse-write_blocks [] rest h = refl
parse-write_blocks (rb ∷ blocks) rest (v, h) =
    ap (λ t. parse_blocks (suc (length blocks)) t)
      (append_assoc (Block.write_to rb) (write_blocks blocks) rest)
    ∙ parse_blocks-more (length blocks) bytes (
        omega (
          arith,
          length-append (Block.write_to rb) (write_blocks blocks ++ rest),
          length-write_block rb,
        ))
    ∙ ap₂ ◌∷◌ (parse-write_block rb (write_blocks blocks ++ rest) v) (
        ap (λ t. parse_blocks (length blocks) t)
          (drop-append_self 24 (Block.write_to rb) (write_blocks blocks ++ rest)
            (length-write_block rb))
        ∙ parse-write_blocks blocks rest h)
  where
    bytes : List ℕ
    bytes = Block.write_to rb ++ (write_blocks blocks ++ rest)
