-- ===== src/Srtp/Keying/Words.antt =====
-- The words of the attribute `a=crypto`, src/rtp/srtp.rs.
use rtp_sip_module.Prelude.{ℕ, ◌<◌, ◌≡◌, refl, some, List, [], ◌∷◌, ◌++◌, length, arith}
use rtp_sip_module.Prelude.Text.{
  is_whitespace, split_whitespace, split_space, non_empty, split, same_text, HaveNoSpace, IsWithout,
  no_space, no_space-HaveNoSpace,
}
use rtp_sip_module.Srtp.Context.{
  CipherSuite, aes_cm128_hmac_sha1_80, aes_cm128_hmac_sha1_32, suite_from_str, suite_as_str,
  suite_name_80, suite_name_32,
}

split_space-at :
    (cs ds : List ℕ)
    → HaveNoSpace cs
    → split_space (cs ++ 32 ∷ ds) ≡ (cs, (split_space ds).0 ∷ (split_space ds).1)
unfolding split_space is_whitespace
split_space-at [] ds h = refl
split_space-at (c ∷ cs) ds (e, h) = rw (e, split_space-at cs ds h) refl

split_space-all : (cs : List ℕ) → HaveNoSpace cs → split_space cs ≡ (cs, [])
unfolding split_space
split_space-all [] h = refl
split_space-all (c ∷ cs) (e, h) = ground (arith, split_space-all cs h)

pub split-at :
    (sep : ℕ) (cs ds : List ℕ)
    → IsWithout sep cs
    → split sep (cs ++ sep ∷ ds) ≡ (cs, (split sep ds).0 ∷ (split sep ds).1)
unfolding split
split-at sep [] ds h = ground arith
split-at sep (c ∷ cs) ds (e, h) = ground (arith, split-at sep cs ds h)

non_empty-cons :
    (word : List ℕ) (words : List (List ℕ))
    → 0 < length word
    → non_empty (word ∷ words) ≡ word ∷ non_empty words
unfolding non_empty
non_empty-cons [] words lt = absurd (omega arith)
non_empty-cons (c ∷ cs) words lt = refl

pub split_whitespace-three :
    (a b c : List ℕ)
    → HaveNoSpace a
    → HaveNoSpace b
    → HaveNoSpace c
    → 0 < length a
    → 0 < length b
    → 0 < length c
    → split_whitespace (a ++ (32 ∷ b ++ (32 ∷ c))) ≡ a ∷ b ∷ c ∷ []
unfolding split_whitespace non_empty
split_whitespace-three a b c ha hb hc la lb lc =
    rw (split_space-at a (b ++ (32 ∷ c)) ha, split_space-at b c hb, split_space-all c hc)
      (rw (non_empty-cons a (b ∷ c ∷ []) la, non_empty-cons b (c ∷ []) lb, non_empty-cons c [] lc)
        refl)

pub suite-HaveNoSpace : (suite : CipherSuite) → HaveNoSpace (suite_as_str suite)
unfolding suite_as_str no_space is_whitespace
suite-HaveNoSpace aes_cm128_hmac_sha1_80 = no_space-HaveNoSpace suite_name_80 refl
suite-HaveNoSpace aes_cm128_hmac_sha1_32 = no_space-HaveNoSpace suite_name_32 refl

pub suite-length : (suite : CipherSuite) → 0 < length (suite_as_str suite)
unfolding suite_as_str
suite-length aes_cm128_hmac_sha1_80 = omega arith
suite-length aes_cm128_hmac_sha1_32 = omega arith

pub suite_from_str-suite_as_str :
    (suite : CipherSuite) → suite_from_str (suite_as_str suite) ≡ some suite
unfolding suite_as_str suite_from_str same_text
suite_from_str-suite_as_str aes_cm128_hmac_sha1_80 = refl
suite_from_str-suite_as_str aes_cm128_hmac_sha1_32 = refl
