-- ===== src/Tests/Options.antt =====
-- Runs of src/engine/options.cc.
use pgiceberg.Common.{◌≡◌, ◌↔◌, [], ◌∷◌}
use pgiceberg.Common.Int.{negsuc, int64_min}
use pgiceberg.Common.Numerals.{IsNumeral}
use pgiceberg.Status.{ok}
use pgiceberg.Options.Parse.{parse_snapshot_id_option, parse_snapshot_id_option_iff}

-- "-42"
parse_snapshot_id_option_iff_example :
    (parse_snapshot_id_option (45 ∷ 52 ∷ 50 ∷ []) ≡ ok (negsuc 41))
    ↔ IsNumeral int64_min (45 ∷ 52 ∷ 50 ∷ []) (negsuc 41)
parse_snapshot_id_option_iff_example = parse_snapshot_id_option_iff (45 ∷ 52 ∷ 50 ∷ []) (negsuc 41)
