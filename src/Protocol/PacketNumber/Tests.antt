-- ===== src/Protocol/PacketNumber/Tests.antt =====
-- Runs of the packet number functions.
use zetta_transport.Common.{ℕ, ◌-◌, ◌*◌, ◌^◌, ◌≤◌, ◌<◌, ◌%◌, ◌⊎◌, ◌≡◌, refl, some, arith}
use zetta_transport.Protocol.PacketNumber.{truncate_pn, expand_pn}
use zetta_transport.Protocol.PacketNumber.RoundTrip.{expand_pn-truncate_pn, truncate_pn_total}

truncate_near : truncate_pn 1000 900 ≡ some (232, 1)
unfolding truncate_pn
truncate_near = refl

expand_reordered : expand_pn 98 1 99 ≡ 98
unfolding expand_pn
expand_reordered = refl

expand_next_window : expand_pn 0 1 254 ≡ 256
unfolding expand_pn
expand_next_window = refl

-- The distance from the largest acknowledged number is beyond all widths.
truncate_pn_total_example :
    (len : ℕ) × (truncate_pn (2 ^ 40) 5 ≡ some (2 ^ 40 % 2 ^ (8 * len), len))
    × (1 ≤ len)
    × (len ≤ 4)
    × ((2 ^ 31 ≤ 2 ^ 40 - 5) ⊎ ((2 ^ 40 - 5) * 2 < 2 ^ (8 * len)))
truncate_pn_total_example = truncate_pn_total (2 ^ 40) 5

expand_pn-truncate_pn_example : expand_pn 232 1 1050 ≡ 1000
expand_pn-truncate_pn_example =
    expand_pn-truncate_pn 1000 900 1050 232 1 (omega arith) (omega arith) (omega arith)
      (omega arith) truncate_near (omega arith)
