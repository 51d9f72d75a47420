-- ===== src/Netguard/Address.antt =====
-- Addresses, as net/netip has them, and the ones that are not public.
use diana_qq_bot.Prelude.{
  ℕ, ◌*◌, ◌+◌, ◌/◌, ◌%◌, ◌^◌, ◌-◌, Bool, true, false, ◌&&◌, ◌||◌, not, List, [], ◌∷◌, ◌==◌,
  if◌then◌else◌,
}

-- netip.Addr: an IPv4 address by its 32 bits, an IPv6 address by its 128 bits and whether it has a zone,
-- or the address that is none.
pub data Address : Type 0 where
  no_address : Address
  ip4 : ℕ → Address
  ip6 : ℕ → (zoned : Bool) → Address

-- ::ffff:0:0/96 holds the IPv4 addresses.
unfoldable pub unmap : Address → Address
unmap no_address = no_address
unmap (ip4 n) = ip4 n
unmap (ip6 n zoned) = if n / 2 ^ 32 == 0xffff then ip4 (n % 2 ^ 32) else ip6 n zoned

-- The IPv4 address a.b.c.d.
abbrev pub dotted : (a b c d : ℕ) → ℕ
dotted a b c d = ((a * 256 + b) * 256 + c) * 256 + d

-- The addresses whose first `bits` bits are those of `base`, among addresses of `width` bits.
unfoldable pub in_block : (width base bits n : ℕ) → Bool
in_block width base bits n = n / 2 ^ (width - bits) == base / 2 ^ (width - bits)

-- netip.Prefix.
pub data Prefix : Type 0 where
  prefix4 : (base bits : ℕ) → Prefix
  prefix6 : (base bits : ℕ) → Prefix

-- Prefix.Contains: never of another family, nor of an address with a zone.
unfoldable pub prefix_contains : Prefix → Address → Bool
unfolding in_block
prefix_contains (prefix4 base bits) (ip4 n) = in_block 32 base bits n
prefix_contains (prefix6 base bits) (ip6 n zoned) = not zoned && in_block 128 base bits n
prefix_contains p a = false

unfoldable pub is_unspecified : Address → Bool
is_unspecified no_address = false
is_unspecified (ip4 n) = n == 0
is_unspecified (ip6 n zoned) = (n == 0) && not zoned

unfoldable pub is_loopback : Address → Bool
unfolding in_block
is_loopback no_address = false
is_loopback (ip4 n) = in_block 32 (dotted 127 0 0 0) 8 n
is_loopback (ip6 n zoned) = n == 1

unfoldable pub is_multicast : Address → Bool
unfolding in_block
is_multicast no_address = false
is_multicast (ip4 n) = in_block 32 (dotted 224 0 0 0) 4 n
is_multicast (ip6 n zoned) = in_block 128 (0xff * 2 ^ 120) 8 n

unfoldable pub is_link_local_unicast : Address → Bool
unfolding in_block
is_link_local_unicast no_address = false
is_link_local_unicast (ip4 n) = in_block 32 (dotted 169 254 0 0) 16 n
is_link_local_unicast (ip6 n zoned) = in_block 128 (0xfe80 * 2 ^ 112) 10 n

-- In IPv6 the scope is the fourth hexadecimal digit.
unfoldable pub is_link_local_multicast : Address → Bool
unfolding in_block
is_link_local_multicast no_address = false
is_link_local_multicast (ip4 n) = in_block 32 (dotted 224 0 0 0) 24 n
is_link_local_multicast (ip6 n zoned) = in_block 128 (0xff * 2 ^ 120) 8 n && (n / 2 ^ 112 % 16 == 2)

unfoldable pub is_private : Address → Bool
unfolding in_block
is_private no_address = false
is_private (ip4 n) =
    in_block 32 (dotted 10 0 0 0) 8 n
    || in_block 32 (dotted 172 16 0 0) 12 n
    || in_block 32 (dotted 192 168 0 0) 16 n
is_private (ip6 n zoned) = in_block 128 (0xfc * 2 ^ 120) 7 n

abbrev pub is_valid : Address → Bool
is_valid no_address = false
is_valid (ip4 n) = true
is_valid (ip6 n zoned) = true

abbrev pub is_broadcast : Address → Bool
is_broadcast (ip4 n) = n == dotted 255 255 255 255
is_broadcast _ = false

unfoldable pub is_global_unicast : Address → Bool
unfolding is_unspecified is_loopback is_multicast is_link_local_unicast
is_global_unicast a =
    is_valid a
    && not (is_unspecified a)
    && not (is_broadcast a)
    && not (is_loopback a)
    && not (is_multicast a)
    && not (is_link_local_unicast a)

abbrev pub synthetic_dns : Prefix
synthetic_dns = prefix4 (dotted 198 18 0 0) 15

abbrev pub blocked_prefixes : List Prefix
blocked_prefixes =
    prefix4 (dotted 0 0 0 0) 8
    ∷ prefix4 (dotted 100 64 0 0) 10
    ∷ prefix4 (dotted 192 0 0 0) 24
    ∷ prefix4 (dotted 192 0 2 0) 24
    ∷ prefix4 (dotted 198 18 0 0) 15
    ∷ prefix4 (dotted 198 51 100 0) 24
    ∷ prefix4 (dotted 203 0 113 0) 24
    ∷ prefix4 (dotted 240 0 0 0) 4
    ∷ prefix6 (0x20010db8 * 2 ^ 96) 32
    ∷ []

unfoldable pub in_prefixes : List Prefix → Address → Bool
unfolding prefix_contains
in_prefixes [] a = false
in_prefixes (p ∷ ps) a = prefix_contains p a || in_prefixes ps a

abbrev not_public : Address → Bool
not_public a =
    not (is_valid a)
    || not (is_global_unicast a)
    || is_private a
    || is_loopback a
    || is_link_local_unicast a
    || is_link_local_multicast a
    || is_multicast a
    || is_unspecified a

unfoldable pub unsafe_address : Address → Bool → Bool
unfolding unmap prefix_contains is_global_unicast is_private is_loopback is_link_local_unicast
    is_link_local_multicast is_multicast is_unspecified in_prefixes
unsafe_address address allow_synthetic_dns =
    let a = unmap address in
    if allow_synthetic_dns && prefix_contains synthetic_dns a
    then false
    else not_public a || in_prefixes blocked_prefixes a
