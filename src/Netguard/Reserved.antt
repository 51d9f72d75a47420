-- ===== src/Netguard/Reserved.antt =====
-- The IPv4 addresses that are not public, as intervals.
use diana_qq_bot.Prelude.{
  ℕ, ◌*◌, ◌+◌, ◌/◌, ◌^◌, ◌-◌, ◌≤◌, ◌<◌, ◌≡◌, refl, ◌∙◌, Bool, true, false, ◌&&◌, ◌||◌, not, List,
  [], ◌∷◌, ltb, leb, ◌==◌, arith,
}
use diana_qq_bot.Netguard.Address.{
  ip4, dotted, in_block, unmap, prefix_contains, in_prefixes, is_unspecified, is_loopback,
  is_multicast, is_link_local_unicast, is_link_local_multicast, is_private, is_global_unicast,
  unsafe_address,
}

-- The reserved addresses in order, by the first and the last of each stretch.
abbrev pub reserved4 : List (ℕ × ℕ)
reserved4 =
    (dotted 0 0 0 0, dotted 0 255 255 255)
    ∷ (dotted 10 0 0 0, dotted 10 255 255 255)
    ∷ (dotted 100 64 0 0, dotted 100 127 255 255)
    ∷ (dotted 127 0 0 0, dotted 127 255 255 255)
    ∷ (dotted 169 254 0 0, dotted 169 254 255 255)
    ∷ (dotted 172 16 0 0, dotted 172 31 255 255)
    ∷ (dotted 192 0 0 0, dotted 192 0 0 255)
    ∷ (dotted 192 0 2 0, dotted 192 0 2 255)
    ∷ (dotted 192 168 0 0, dotted 192 168 255 255)
    ∷ (dotted 198 18 0 0, dotted 198 19 255 255)
    ∷ (dotted 198 51 100 0, dotted 198 51 100 255)
    ∷ (dotted 203 0 113 0, dotted 203 0 113 255)
    ∷ (dotted 224 0 0 0, dotted 255 255 255 255)
    ∷ []

abbrev pub in_ranges : List (ℕ × ℕ) → ℕ → Bool
in_ranges [] n = false
in_ranges ((first, last) ∷ rs) n = (leb first n && leb n last) || in_ranges rs n

-- The tests of the source, by name, are those of the intervals: what is in no block but one of the
-- others' is counted already.
tests_alike :
    (b0 b10 b100 b127 b169 b172 b1920 b1922 b192168 b198 b19851 b203 multicast reserved zero
      all_ones near : Bool)
    → (zero && b0) ≡ zero
    → (all_ones && reserved) ≡ all_ones
    → (near && multicast) ≡ near
    → (not true
        || not (true && not zero && not all_ones && not b127 && not multicast && not b169)
        || (b10 || b172 || b192168)
        || b127
        || b169
        || near
        || multicast
        || zero
        || (b0
            || (b100 || (b1920 || (b1922 || (b198 || (b19851 || (b203 || (reserved || false)))))))))
      ≡ (b0
          || (b10
              || (b100
                  || (b127
                      || (b169
                          || (b172
                              || (b1920
                                  || (b1922
                                      || (b192168
                                          || (b198
                                              || (b19851
                                                  || (b203
                                                      || ((multicast || reserved)
                                                          || false)))))))))))))
tests_alike b0 b10 b100 b127 b169 b172 b1920 b1922 b192168 b198 b19851 b203 multicast reserved zero
      all_ones near f g h =
    ground arith

mul_gap : (a b size : ℕ) → a < b → a * size + size ≤ b * size
mul_gap a b size h = grind arith

-- A block is an interval.
block-range :
    (size q n : ℕ)
    → ltb 0 size ≡ true
    → (n / size == q) ≡ (leb (q * size) n && leb n (q * size + size - 1))
block-range size q n h =
    let below : n / size < q → (n / size) * size + size ≤ q * size = mul_gap (n / size) q size in
    let above : q < n / size → q * size + size ≤ (n / size) * size = mul_gap q (n / size) size in
    let start : (n / size) * size ≤ n = grind arith in
    let end : n < (n / size) * size + size = grind arith in ground (arith, below, above, start, end)

abbrev range : (ℕ × ℕ) → ℕ → Bool
range (first, last) n = leb first n && leb n last

-- The classes D and E together.
high_ranges :
    (n : ℕ)
    → n < 2 ^ 32
    → ((n / 2 ^ 28 == 14) || (n / 2 ^ 28 == 15))
      ≡ range (dotted 224 0 0 0, dotted 255 255 255 255) n
high_ranges n h = ground arith

-- An IPv4 address of 32 bits is unsafe, where no addresses made up for names are let through, exactly
-- if it lies in one of the thirteen intervals of the list of reserved addresses.
pub unsafe_address-reserved :
    (n : ℕ) → n < 2 ^ 32 → unsafe_address (ip4 n) false ≡ in_ranges reserved4 n
unfolding unsafe_address unmap prefix_contains in_prefixes is_global_unicast is_private is_loopback
    is_link_local_unicast is_link_local_multicast is_multicast is_unspecified in_block
unsafe_address-reserved n h =
    tests_alike (n / 2 ^ 24 == 0) (n / 2 ^ 24 == 10) (n / 2 ^ 22 == 401) (n / 2 ^ 24 == 127)
      (n / 2 ^ 16 == 43518) (n / 2 ^ 20 == 2753) (n / 2 ^ 8 == 12582912) (n / 2 ^ 8 == 12582914)
      (n / 2 ^ 16 == 49320) (n / 2 ^ 17 == 25353) (n / 2 ^ 8 == 12989284) (n / 2 ^ 8 == 13303921)
      (n / 2 ^ 28 == 14) (n / 2 ^ 28 == 15) (n == 0) (n == dotted 255 255 255 255)
      (n / 2 ^ 8 == 14680064) (ground arith) (ground arith) (ground arith)
    ∙ rw
        (
          block-range (2 ^ 24) 0 n refl,
          block-range (2 ^ 24) 10 n refl,
          block-range (2 ^ 22) 401 n refl,
          block-range (2 ^ 24) 127 n refl,
          block-range (2 ^ 16) 43518 n refl,
          block-range (2 ^ 20) 2753 n refl,
          block-range (2 ^ 8) 12582912 n refl,
          block-range (2 ^ 8) 12582914 n refl,
          block-range (2 ^ 16) 49320 n refl,
          block-range (2 ^ 17) 25353 n refl,
          block-range (2 ^ 8) 12989284 n refl,
          block-range (2 ^ 8) 13303921 n refl,
          high_ranges n h,
        )
        refl
