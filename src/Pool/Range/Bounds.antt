-- ===== src/Pool/Range/Bounds.antt =====
-- What a range made by `MakeRange` promises.
use cluster_api_provider_har.Common.{
  List, String, [], arith, eq_iff, false, some, true, ℕ, ◌∷◌, ◌≡◌, ◌⊎◌, Bool-cases, Option-cases,
  inl, inr, refl, sym, ◌≢◌, subst,
}
use cluster_api_provider_har.Api.Meta.{value, Result, error}
use cluster_api_provider_har.Pool.Net.{Ip, IpNet, Net, ip_equal, net_contains}
use cluster_api_provider_har.Pool.Range.{
  AllocatorRange, addr_lt, broadcast_ip, bytes_lt, network_ip, order_bounds, parse_ip_in,
  default_bounds, make_range, parse_bounds,
}
use cluster_api_provider_har.Pool.Types.{Range}

module _ (net : Net) where
  -- An address that `parseIP` accepts is the default, when no text is given, or it lies in the
  -- subnet and is neither the network's address nor the broadcast address.
  pub parse_ip_in_sound :
      (ip_str : String) (n : IpNet) (default_ip ip : Ip)
      → parse_ip_in net ip_str n default_ip ≡ value ip
      → ((ip_str ≡ "") × (ip ≡ default_ip))
        ⊎ ((net.parse_ip ip_str ≡ some ip)
            × (net_contains n ip ≡ true)
            × (ip_equal ip (network_ip n) ≡ false)
            × (ip_equal ip (broadcast_ip n) ≡ false))
  unfolding parse_ip_in
  parse_ip_in_sound ip_str n default_ip ip h = ground (arith, eq_iff ip_str "")

  bytes_lt_asym : (xs ys : List ℕ) → bytes_lt xs ys ≡ true → bytes_lt ys xs ≡ false
  bytes_lt_asym [] ys h = cc
  bytes_lt_asym (x ∷ xs) [] h = cc
  bytes_lt_asym (x ∷ xs) (y ∷ ys) h = ground (arith, bytes_lt_asym xs ys)

  addr_lt_asym : (a b : Ip) → addr_lt a b ≡ true → addr_lt b a ≡ false
  unfolding addr_lt
  addr_lt_asym a b h = ground (arith, bytes_lt_asym a b)

  order_bounds_ordered :
      (start end : Ip) (n : IpNet) (gateway : Ip) (r : AllocatorRange)
      → order_bounds net start end n gateway ≡ value r
      → addr_lt r.range_end r.range_start ≡ false
  unfolding order_bounds
  order_bounds_ordered start end n gateway r h = ground (arith, addr_lt_asym end start)

  -- A usable address of the subnet.
  abbrev pub IsHost : IpNet → Ip → Type 0
  IsHost n ip =
      (net_contains n ip ≡ true)
      × (ip_equal ip (network_ip n) ≡ false)
      × (ip_equal ip (broadcast_ip n) ≡ false)

  order_bounds_keeps :
      (P : Ip → Type 0) (start end : Ip) (n : IpNet) (gateway : Ip) (r : AllocatorRange)
      → order_bounds net start end n gateway ≡ value r
      → P start
      → P end
      → P r.range_start × P r.range_end × (r.subnet ≡ n)
  unfolding order_bounds
  order_bounds_keeps P start end n gateway r h p q = elim (Bool-cases (addr_lt end start)) [
    | inl swapped ↦
        let e : (r.range_start ≡ end) × (r.range_end ≡ start) × (r.subnet ≡ n) = ground arith in
        (subst P (sym e.0) q, subst P (sym e.1) p, e.2)
    | inr ordered ↦
        let e : (r.range_start ≡ start) × (r.range_end ≡ end) × (r.subnet ≡ n) = ground arith in
        (subst P (sym e.0) p, subst P (sym e.1) q, e.2)
  ]

  parse_bounds_parts :
      (r : Range) (n : IpNet) (d : Ip × Ip × Ip) (a : AllocatorRange)
      → parse_bounds net r n d ≡ value a
      → (start : Ip) × (end : Ip) × (gateway : Ip) × (parse_ip_in net r.range_start n d.0
          ≡ value start)
        × (parse_ip_in net r.range_end n d.1 ≡ value end)
        × (order_bounds net start end n gateway ≡ value a)
  unfolding parse_bounds
  parse_bounds_parts r n (d, e, g) a h =
      go (parse_ip_in net r.range_start n d) (parse_ip_in net r.range_end n e)
        (parse_ip_in net r.gateway n g) refl refl refl
    where
      go :
          (x y z : Result Ip)
          → parse_ip_in net r.range_start n d ≡ x
          → parse_ip_in net r.range_end n e ≡ y
          → parse_ip_in net r.gateway n g ≡ z
          → (start : Ip) × (end : Ip) × (gateway : Ip) × (parse_ip_in net r.range_start n d
              ≡ value start)
            × (parse_ip_in net r.range_end n e ≡ value end)
            × (order_bounds net start end n gateway ≡ value a)
      go (value start) (value end) (value gateway) p q s =
          (start, end, gateway, p, q, rw (← h) (rw (p, q, s, parse_bounds)))
      go (error x) y z p q s = absurd (cc (rw (p, parse_bounds) at h))
      go (value x) (error y) z p q s = absurd (cc (rw (p, q, parse_bounds) at h))
      go (value x) (value y) (error z) p q s = absurd (cc (rw (p, q, s, parse_bounds) at h))

  -- A range that `MakeRange` makes keeps the subnet that was parsed, runs from its lower to its
  -- upper bound, and, where both bounds are written out, has hosts of the subnet as its bounds.
  pub make_range_sound :
      (r : Range) (a : AllocatorRange)
      → make_range net r ≡ value a
      → (addr_lt a.range_end a.range_start ≡ false)
        × ((ip : Ip) × (net.parse_cidr r.subnet ≡ some (ip, a.subnet)))
        × (r.range_start ≢ ""
            → r.range_end ≢ ""
            → IsHost a.subnet a.range_start × IsHost a.subnet a.range_end)
  unfolding make_range
  make_range_sound r a h = elim (Option-cases (net.parse_cidr r.subnet)) [
    | inl bad ↦ absurd (cc (rw (bad, make_range) at h))
    | inr ((ip, n), found) ↦
        let h' : parse_bounds net r n (default_bounds net ip n) ≡ value a =
          rw (found, make_range) at h in
        let (start, end, gateway, p, q, o) =
          parse_bounds_parts r n (default_bounds net ip n) a h' in
        let (_, _, same) = order_bounds_keeps (λ _. Unit {0}) start end n gateway a o tt tt in
        (
          order_bounds_ordered start end n gateway a o,
          (ip, rw same found),
          λ given_start given_end.
              let (x, y, _) =
                order_bounds_keeps (IsHost n) start end n gateway a o
                  (host r.range_start n (default_bounds net ip n).0 start given_start p)
                  (host r.range_end n (default_bounds net ip n).1 end given_end q) in
              rw same (x, y),
        )
  ]
    where
      host :
          (s : String) (n : IpNet) (d ip : Ip)
          → s ≢ ""
          → parse_ip_in net s n d ≡ value ip
          → IsHost n ip
      host s n d ip given e = elim (parse_ip_in_sound s n d ip e) [
        | inl (empty, _) ↦ absurd (given empty)
        | inr (_, x, y, z) ↦ (x, y, z)
      ]
