-- ===== src/Server/Order.antt =====
-- `compare_servers` of src/types/server_uri.c: the order of the servers of one domain.
use dnsconfd.Prelude.{◌≤◌, ◌<◌, ◌≡◌, arith, if◌then◌else◌}
use dnsconfd.Prelude.Int.{
  ℤ, pos, pos_part, neg_part, ◌-ℤ◌, ◌≤ℤ◌, eqb_ℤ, IsInt32, to_int32, to_int32_of_IsInt32,
}
use dnsconfd.Server.{Server, protocol_number}

-- A negative result puts `a` before `b`. The difference of the priorities is a C `int`.
unfoldable pub compare_servers : Server → Server → ℤ
compare_servers a b =
    let temp = to_int32 (b.priority -ℤ a.priority) in
    if eqb_ℤ temp (pos 0)
    then (let kind = pos (protocol_number b.protocol) -ℤ pos (protocol_number a.protocol) in
        if eqb_ℤ kind (pos 0) then pos b.dnssec -ℤ pos a.dnssec else kind)
    else temp

-- `b` does not come before `a`.
abbrev pub Before : Server → Server → Type 0
Before a b = compare_servers a b ≤ℤ pos 0

-- Priorities for which the difference of any two does not overflow.
abbrev pub IsSmall : Server → Type 0
IsSmall s = (pos_part s.priority < 0x4000_0000) × (neg_part s.priority ≤ 0x3fff_ffff)

-- The intended order: higher priority first, then the higher protocol, then DNSSEC.
abbrev pub Ranks : Server → Server → Type 0
Ranks a b =
    (b.priority ≤ℤ a.priority)
    × (a.priority ≤ℤ b.priority → protocol_number b.protocol ≤ protocol_number a.protocol)
    × (a.priority ≤ℤ b.priority
        → protocol_number a.protocol ≤ protocol_number b.protocol
        → b.dnssec ≤ a.dnssec)

difference_IsInt32 :
    (a b : ℤ)
    → (pos_part a < 0x4000_0000) × (neg_part a ≤ 0x3fff_ffff)
    → (pos_part b < 0x4000_0000) × (neg_part b ≤ 0x3fff_ffff)
    → to_int32 (b -ℤ a) ≡ b -ℤ a
difference_IsInt32 a b h k = to_int32_of_IsInt32 (b -ℤ a) (within a b h k)
  where
    within :
        (a b : ℤ)
        → (pos_part a < 0x4000_0000) × (neg_part a ≤ 0x3fff_ffff)
        → (pos_part b < 0x4000_0000) × (neg_part b ≤ 0x3fff_ffff)
        → IsInt32 (b -ℤ a)
    within a b h k = unfold ◌-ℤ◌ in ground arith

-- Without overflow the comparison is exactly the intended order.
pub Before-Ranks : (a b : Server) → IsSmall a → IsSmall b → Before a b → Ranks a b
unfolding compare_servers ◌-ℤ◌
Before-Ranks a b h k le = ground (arith, difference_IsInt32 a.priority b.priority h k)

pub Ranks-Before : (a b : Server) → IsSmall a → IsSmall b → Ranks a b → Before a b
unfolding compare_servers ◌-ℤ◌
Ranks-Before a b h k r = ground (arith, difference_IsInt32 a.priority b.priority h k)
