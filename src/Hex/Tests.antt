-- ===== src/Hex/Tests.antt =====
-- Numbers written and read.
use bin2llvm.Base.{◌+◌, ◌^◌, ◌≡◌, ◌≢◌, arith}
use bin2llvm.Hex.{hex, strtoll16, llong_max}
use bin2llvm.Hex.RoundTrip.{strtoll16-hex_saturates}

strtoll16-hex_saturates_example :
    (strtoll16 (hex (2 ^ 63 + 4)) ≡ llong_max) × (strtoll16 (hex (2 ^ 63 + 4)) ≢ 2 ^ 63 + 4)
strtoll16-hex_saturates_example = strtoll16-hex_saturates (2 ^ 63 + 4) (omega arith) (omega arith)
