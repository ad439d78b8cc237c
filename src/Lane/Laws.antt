-- ===== src/Lane/Laws.antt =====
-- Derived lane identifiers are valid, and what a channel's lane binding ensures.
use kurrent.Base.{
  All, Bool-cases, String, [], arith, beq_refl, drop, false, inl, inr, length, list_eq, nat_eq,
  option_eq, refl, replicate, string_eq, take, true, ◌++◌, ◌∷◌, ◌≡◌, ◌≤◌,
}
use kurrent.Bytes.{Bytes, IsArray, IsByte}
use kurrent.External.{External, ExternalLaws}
use kurrent.Lane.{
  all_zero, derive_kurrent_channel_lane_id, is_valid_kurrent_user_lane_id, lane_prefix,
}

-- The bytes of a derived identifier: twenty, four to nineteen zero, one to three not all zero.
abbrev IsLane : Bytes → Type 0
IsLane l = IsArray 20 l × (all_zero (drop 4 l) ≡ true) × (all_zero (take 3 (drop 1 l)) ≡ false)

lane_prefix-IsLane :
    (d : Bytes) → 4 ≤ length d → All IsByte d → IsLane (lane_prefix (take 4 d) ++ replicate 16 0)
unfolding lane_prefix
lane_prefix-IsLane [] h b = absurd (omega arith)
lane_prefix-IsLane (b0 ∷ []) h b = absurd (omega arith)
lane_prefix-IsLane (b0 ∷ b1 ∷ []) h b = absurd (omega arith)
lane_prefix-IsLane (b0 ∷ b1 ∷ b2 ∷ []) h b = absurd (omega arith)
lane_prefix-IsLane (b0 ∷ b1 ∷ b2 ∷ b3 ∷ r) h (p0, (p1, (p2, (p3, _)))) =
    elim (Bool-cases (all_zero (b1 ∷ b2 ∷ b3 ∷ []))) [
      | inl zeros ↦ rw zeros ((refl, omega arith), refl, ground arith)
      | inr other ↦ rw other ((refl, omega arith), refl, other)
    ]

module _ (x : External) (laws : ExternalLaws x) where
  -- An identifier of the right bytes is valid.
  hex_encode-IsLane :
      (l : Bytes) → IsLane l → is_valid_kurrent_user_lane_id x (x.hex_encode l) ≡ true
  unfolding is_valid_kurrent_user_lane_id
  hex_encode-IsLane l ((len, bytes), zeros, some_byte) =
      let whole = laws.hex_decode-hex_encode l bytes in
      ground (arith, whole, beq_refl (x.hex_encode l))

  -- Every channel's derived lane identifier passes the validity check.
  pub derive_kurrent_channel_lane_id_valid :
      (channel_id : String)
      → is_valid_kurrent_user_lane_id x (derive_kurrent_channel_lane_id x channel_id) ≡ true
  unfolding derive_kurrent_channel_lane_id
  derive_kurrent_channel_lane_id_valid channel_id =
      let (len, bytes) = laws.sha256-IsArray _ in
      hex_encode-IsLane _ (lane_prefix-IsLane _ (omega arith) bytes)
