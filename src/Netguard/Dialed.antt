-- ===== src/Netguard/Dialed.antt =====
-- A guarded connection goes to no reserved address.
use diana_qq_bot.Prelude.{
  ℕ, ◌^◌, ◌≡◌, refl, sym, ◌∙◌, subst, Bool, false, ◌&&◌, not, List, [], ◌∷◌, Option, none, some,
  if◌then◌else◌, ltb, ltb→lt, leb, if_either, arith, All, Bool-cases, Option-cases, inl, inr,
}
use diana_qq_bot.Prelude.Text.{Text}
use diana_qq_bot.Prelude.Search.{lower}
use diana_qq_bot.Netguard.Address.{
  Address, no_address, ip4, ip6, dotted, unmap, prefix_contains, in_block, synthetic_dns,
  unsafe_address,
}
use diana_qq_bot.Netguard.Reserved.{reserved4, in_ranges, unsafe_address-reserved}
use diana_qq_bot.Netguard.Guard.{
  Dialled, dial_from, dial_host, guarded_dial, blocked_hostname, trim_brackets, without_dot,
}

-- An address that may be dialled: where it is an IPv4 address of 32 bits, it is no reserved one, or one
-- that a local proxy makes up for a name.
abbrev pub MayDial : (by_name : Bool) → Address → Type 0
MayDial by_name no_address = Unit
MayDial by_name (ip6 n zoned) = Unit
MayDial by_name (ip4 n) =
    (ltb n (2 ^ 32)
      && in_ranges reserved4 n
      && not (by_name && (leb (dotted 198 18 0 0) n && leb n (dotted 198 19 255 255))))
    ≡ false

-- The addresses made up for names.
synthetic-range :
    (n : ℕ)
    → prefix_contains synthetic_dns (ip4 n)
      ≡ (leb (dotted 198 18 0 0) n && leb n (dotted 198 19 255 255))
unfolding prefix_contains in_block
synthetic-range n = ground arith

unsafe_address-names :
    (n : ℕ) (by_name : Bool)
    → unsafe_address (ip4 n) by_name ≡ (
        if by_name && prefix_contains synthetic_dns (ip4 n)
        then false
        else unsafe_address (ip4 n) false)
unfolding unsafe_address unmap
unsafe_address-names n by_name = refl

clear_may :
    (small by_name reserved made_up : Bool)
    → (if by_name && made_up then false else reserved) ≡ false
    → (small && reserved && not (by_name && made_up)) ≡ false
clear_may small by_name reserved made_up h = ground arith

safe-MayDial : (by_name : Bool) (a : Address) → unsafe_address a by_name ≡ false → MayDial by_name a
safe-MayDial by_name no_address h = tt
safe-MayDial by_name (ip6 n zoned) h = tt
safe-MayDial by_name (ip4 n) h = elim (Bool-cases (ltb n (2 ^ 32))) [
  | inr e ↦ rw e refl
  | inl e ↦
      let by_prefix = sym (unsafe_address-names n by_name) ∙ h in
      let by_range =
        subst (λ m. (if by_name && m then false else unsafe_address (ip4 n) false) ≡ false)
          (synthetic-range n) by_prefix in
      clear_may (ltb n (2 ^ 32)) by_name (in_ranges reserved4 n)
        (leb (dotted 198 18 0 0) n && leb n (dotted 198 19 255 255))
        (subst
          (λ r.
            (if by_name && (leb (dotted 198 18 0 0) n && leb n (dotted 198 19 255 255))
              then false
              else r)
            ≡ false)
          (unsafe_address-reserved n (ltb→lt n (2 ^ 32) e)) by_range)
]

dial_from-MayDial :
    (answers : Address → Bool) (by_name : Bool) (last : Option Address) (addresses : List Address)
    → All (MayDial by_name) (dial_from answers by_name last addresses).0
unfolding dial_from
dial_from-MayDial answers by_name last [] = tt
dial_from-MayDial answers by_name last (given ∷ rest) =
    elim (Bool-cases (unsafe_address (unmap given) by_name)) [
      | inl e ↦ rw (e, dial_from) (dial_from-MayDial answers by_name last rest)
      | inr e ↦
          let may = safe-MayDial by_name (unmap given) e in
          rw (e, dial_from)
            (if_either (λ (x : List Address × Dialled). All (MayDial by_name) x.0)
              (answers (unmap given)) (may, tt)
              (may, dial_from-MayDial answers by_name (some (unmap given)) rest))
    ]

dial_host-MayDial :
    (is_ip : Text → Bool) (lookup : Text → Option (List Address)) (answers : Address → Bool)
    (host : Text)
    → All (MayDial (not (is_ip host))) (dial_host is_ip lookup answers host).0
unfolding dial_host
dial_host-MayDial is_ip lookup answers host =
    elim (Bool-cases (blocked_hostname (lower (without_dot host)))) [
      | inl e ↦ rw (e, dial_host) tt
      | inr e ↦ elim (Option-cases (lookup host)) [
        | inl f ↦ rw (e, f, dial_host) tt
        | inr (addresses, f) ↦
            rw (e, f, dial_host) (dial_from-MayDial answers (not (is_ip host)) none addresses)
      ]
    ]

-- The host of what an address has been split into.
abbrev pub host_of : Option Text → Text
host_of none = []
host_of (some given) = trim_brackets given

-- While fetches of private addresses are not allowed, and whatever the resolver gives and whichever
-- addresses answer, a guarded connection tries no reserved IPv4 address of 32 bits, but for the
-- benchmark range 198.18.0.0/15 where the host is given by name.
pub dialled_may :
    (plain : Text → List Address × Dialled) (split : Text → Option Text) (is_ip : Text → Bool)
    (lookup : Text → Option (List Address)) (answers : Address → Bool) (address : Text)
    → All
        (MayDial (not (is_ip (host_of (split address)))))
        (guarded_dial plain split is_ip lookup answers false address).0
unfolding guarded_dial
dialled_may plain split is_ip lookup answers address = elim (Option-cases (split address)) [
  | inl e ↦ rw (e, guarded_dial) tt
  | inr (given, e) ↦
      rw (e, guarded_dial) (dial_host-MayDial is_ip lookup answers (trim_brackets given))
]
