-- ===== src/Tests/Pushdown.antt =====
-- Runs of src/fdw/qual_pushdown.cc.
use pgiceberg.Common.{◌≡◌, refl, ◌^◌, ◌*◌, ◌-◌, ◌<◌, ◌+◌, [], ◌∷◌, some, true, false, arith}
use pgiceberg.Common.Bytes.{text, eqb}
use pgiceberg.Common.Int.{pos, negsuc}
use pgiceberg.Pushdown.Like.{
  split_last, prefix_of_split, starts_with_prefix, like_matches, starts_with,
  starts_with_prefix-like,
}
use pgiceberg.Pushdown.Literal.{
  scale_up, scale_down, rescale, scan_char, scan_from, split_sign, ends_with, rescale_scan,
  decimal_literal_from_numeric, rescale_exact,
}
use pgiceberg.Pushdown.Bounds.{decimal_literal_bounded}
use pgiceberg.Pushdown.Timestamp.{
  is_not_finite, epoch_offset, timestamp_literal, timestamp_literal-wraps,
}

-- 'ab%'
prefix_ab : starts_with_prefix (97 ∷ 98 ∷ 37 ∷ []) ≡ some (97 ∷ 98 ∷ [])
unfolding starts_with_prefix split_last prefix_of_split
prefix_ab = refl

starts_with_prefix-like_example :
    like_matches false (97 ∷ 98 ∷ 37 ∷ []) (97 ∷ 98 ∷ 99 ∷ [])
    ≡ starts_with (97 ∷ 98 ∷ []) (97 ∷ 98 ∷ 99 ∷ [])
starts_with_prefix-like_example =
    starts_with_prefix-like (97 ∷ 98 ∷ 37 ∷ []) (97 ∷ 98 ∷ []) (97 ∷ 98 ∷ 99 ∷ []) prefix_ab

rescale_15 : rescale 3 1 15 2 ≡ some 1500
unfolding rescale scale_up scale_down
rescale_15 = refl

rescale_exact_example : 1500 * 10 ^ (1 - 3) ≡ 15 * 10 ^ (3 - 1)
rescale_exact_example = rescale_exact 3 1 15 2 1500 rescale_15

-- '-1.5' for a column of scale 2
minus_one_half : decimal_literal_from_numeric (45 ∷ 49 ∷ 46 ∷ 53 ∷ []) 2 ≡ some (true, 150)
unfolding decimal_literal_from_numeric ends_with text eqb split_sign rescale_scan scan_from
    scan_char rescale scale_up scale_down
minus_one_half = refl

decimal_literal_bounded_example : 150 < 10 ^ 38
decimal_literal_bounded_example =
    decimal_literal_bounded (45 ∷ 49 ∷ 46 ∷ 53 ∷ []) 2 true 150 minus_one_half

-- The last second before PostgreSQL's END_TIMESTAMP, in the year 294276.
late_timestamp : is_not_finite (pos 9223371331199000000) ≡ false
unfolding is_not_finite
late_timestamp = refl

timestamp_literal-wraps_example :
    timestamp_literal false false (pos 9223371331199000000)
    ≡ some (false, negsuc (2 ^ 64 - 1 - (9223371331199000000 + epoch_offset)))
timestamp_literal-wraps_example =
    timestamp_literal-wraps false 9223371331199000000 late_timestamp (omega arith) (omega arith)
