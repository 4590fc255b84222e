-- ===== src/Freshness.antt =====
-- The timestamp tests of CheckinService::validate_client_request, handle_trusted_client and
-- VoterIDService::handle_validation_request, over 64-bit patterns.
use pollbook_server.Prelude.{
  ℕ, ◌+◌, ◌-◌, ◌%◌, ◌^◌, ◌<◌, ◌≤◌, ◌≡◌, ◌≢◌, ◌↔◌, Bool, false, arith, ltb, leb, if◌then◌else◌,
}
use pollbook_server.Text.{u64_mod, u32_mod}

abbrev pub i64_min : ℕ
i64_min = 2 ^ 63

-- The difference of two std::uint64_t, the smaller subtracted from the larger.
unfoldable pub time_difference : ℕ → ℕ → ℕ
time_difference now timestamp = if ltb timestamp now then now - timestamp else timestamp - now

-- std::abs of the std::int64_t with this bit pattern. Of the least one C++ leaves it undefined;
-- the model takes the negation that wraps, which compilers for two's complement emit.
unfoldable pub abs_i64 : ℕ → ℕ
abs_i64 w = if leb i64_min w then (u64_mod - w) % u64_mod else w

-- std::int64_t > std::uint32_t
unfoldable pub gt_i64 : ℕ → ℕ → Bool
gt_i64 w n = if leb i64_min w then false else ltb n w

-- The test by which a request is refused as stale.
unfoldable pub is_stale : ℕ → ℕ → ℕ → Bool
unfolding time_difference abs_i64 gt_i64
is_stale now timestamp interval = gt_i64 (abs_i64 (time_difference now timestamp)) interval

-- For a clock at least 2^32 ms from either end of its range, and a timestamp that is not exactly
-- 2^63 ms away, a request is fresh exactly if it is at most the interval away, on either side.
pub is_stale_exact :
    (now timestamp interval : ℕ)
    → u32_mod ≤ now
    → now + u32_mod ≤ u64_mod
    → timestamp < u64_mod
    → interval < u32_mod
    → time_difference now timestamp ≢ i64_min
    → (is_stale now timestamp interval ≡ false)
      ↔ ((now ≤ timestamp + interval) × (timestamp ≤ now + interval))
unfolding is_stale
is_stale_exact now timestamp interval lo hi ts iv ne = (λ h. ground arith, λ h. ground arith)
