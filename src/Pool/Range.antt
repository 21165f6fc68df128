-- ===== src/Pool/Range.antt =====
-- `MakeRange` of util/ippool.go and its helpers: the range of addresses that a pool entry stands for.
pub mod Bounds
use cluster_api_provider_har.Common.{
  Bool, List, String, [], false, if◌then◌else◌, is_empty, length, ltb, none, not, some, ℕ, ◌%◌,
  ◌&&◌, ◌+◌, ◌==◌, ◌||◌, ◌∷◌,
}
use cluster_api_provider_har.Api.Meta.{Result, error, message, value, wrapped}
use cluster_api_provider_har.Pool.Net.{
  Ip, IpNet, Net, bytes_eq, ip_equal, mask_ip, net_contains, or_not, to16, to4, zip_bytes,
}
use cluster_api_provider_har.Pool.Types.{Range}

-- `allocator.Range` of the CNI plugins.
pub record AllocatorRange : Type 0 where
  pub range_start : Ip
  pub range_end : Ip
  pub subnet : IpNet
  pub gateway : Ip

-- `networkIP`
unfoldable pub network_ip : IpNet → Ip
network_ip n = mask_ip n.ip n.mask

-- `broadcastIP`; the masks of parsed subnets have the length of the address.
unfoldable pub broadcast_ip : IpNet → Ip
broadcast_ip n = zip_bytes or_not n.ip n.mask

-- `end[3]--` on a byte.
abbrev decrement_fourth : Ip → Ip
decrement_fourth (a ∷ b ∷ c ∷ d ∷ rest) = a ∷ b ∷ c ∷ ((d + 255) % 256) ∷ rest
decrement_fourth ip = ip

-- `lastIP`
unfoldable pub last_ip : IpNet → Ip
last_ip subnet =
    let end = zip_bytes or_not subnet.ip subnet.mask in
    elim (to4 subnet.ip) [ some _ ↦ decrement_fourth end | none ↦ end ]

-- `netip.AddrFromSlice` takes 4 or 16 bytes, and `Compare` puts the shorter address first and then
-- goes by the bytes.
abbrev pub is_addr : Ip → Bool
is_addr ip = length ip == 4 || length ip == 16

abbrev pub bytes_lt : List ℕ → List ℕ → Bool
bytes_lt (x ∷ xs) (y ∷ ys) = ltb x y || (x == y && bytes_lt xs ys)
bytes_lt _ _ = false

unfoldable pub addr_lt : Ip → Ip → Bool
addr_lt a b = ltb (length a) (length b) || (length a == length b && bytes_lt a b)

module _ (net : Net) where
  -- `parseIP`
  unfoldable pub parse_ip_in : String → IpNet → Ip → Result Ip
  unfolding network_ip broadcast_ip
  parse_ip_in ip_str ip_net default_ip =
      if is_empty ip_str then value default_ip else elim (net.parse_ip ip_str) [
        | none ↦ error (message "invalid IP")
        | some ip ↦
            if not (net_contains ip_net ip)
            then error (message "IP is out of subnet")
            else if ip_equal ip (network_ip ip_net)
            then error (message "IP is the network address")
            else if ip_equal ip (broadcast_ip ip_net)
            then error (message "IP is the broadcast address")
            else value ip
      ]

  -- The defaults of `MakeRange`: start, end and gateway.
  unfoldable pub default_bounds : Ip → IpNet → Ip × Ip × Ip
  unfolding last_ip
  default_bounds ip ip_net =
      if bytes_eq ip_net.mask (255 ∷ 255 ∷ 255 ∷ 255 ∷ [])
      then (to16 ip, to16 ip, [])
      else (to16 (net.next_ip ip_net.ip), to16 (last_ip ip_net), to16 (net.next_ip ip_net.ip))

  -- The end of `MakeRange`: the bounds in order.
  unfoldable pub order_bounds : Ip → Ip → IpNet → Ip → Result AllocatorRange
  order_bounds start end subnet gateway =
      if not (is_addr start)
      then error (message "invalid start IP address")
      else if not (is_addr end)
      then error (message "invalid end IP address")
      else if addr_lt end start
      then value
          (record { range_start = end; range_end = start; subnet = subnet; gateway = gateway })
      else value
          (record { range_start = start; range_end = end; subnet = subnet; gateway = gateway })

  unfoldable pub parse_bounds : Range → IpNet → Ip × Ip × Ip → Result AllocatorRange
  unfolding parse_ip_in order_bounds
  parse_bounds r ip_net (default_start, default_end, default_gateway) =
      elim (parse_ip_in r.range_start ip_net default_start) [
        | error e ↦ error (wrapped "invalid range start" e)
        | value start ↦ elim (parse_ip_in r.range_end ip_net default_end) [
          | error e ↦ error (wrapped "invalid range end" e)
          | value end ↦ elim (parse_ip_in r.gateway ip_net default_gateway) [
            | error e ↦ error (wrapped "invalid gateway" e)
            | value gateway ↦ order_bounds start end ip_net gateway
          ]
        ]
      ]

  -- `MakeRange`
  unfoldable pub make_range : Range → Result AllocatorRange
  unfolding default_bounds parse_bounds
  make_range r = elim (net.parse_cidr r.subnet) [
    | none ↦ error (message "invalid range")
    | some (ip, ip_net) ↦ parse_bounds r ip_net (default_bounds ip ip_net)
  ]

  -- The loop that both allocations begin with: `MakeRange` of each range, up to the first error.
  unfoldable pub make_ranges : List Range → Result (List AllocatorRange)
  unfolding make_range
  make_ranges [] = value []
  make_ranges (r ∷ rs) = elim (make_range r) [
    | error e ↦ error e
    | value a ↦ elim (make_ranges rs) [ error e ↦ error e | value as_ ↦ value (a ∷ as_) ]
  ]
