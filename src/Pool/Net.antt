-- ===== src/Pool/Net.antt =====
-- Addresses as Go's package net has them: a `net.IP` is a slice of bytes. Reading and printing
-- addresses, and the next address of the CNI plugins, come as an interface; the operations on
-- bytes that util/ippool.go uses (To4, To16, Mask, Contains, Equal) are written out.
use Prim.Native.Nat.{bit_and, bit_or}
use cluster_api_provider_har.Common.{
  Bool, List, Option, String, [], false, if◌then◌else◌, is_nil, length, none, some, suc, true, zero,
  ℕ, ◌&&◌, ◌++◌, ◌-◌, ◌==◌, ◌∷◌,
}
use cluster_api_provider_har.Api.Machine.{}

abbrev pub Ip : Type 0
Ip = List ℕ

pub record IpNet : Type 0 where
  pub ip : Ip
  pub mask : List ℕ

-- `net.ParseIP`, which answers in 16 bytes, `net.ParseCIDR` and `IP.String`; `next_ip` is `NextIP` of
-- github.com/containernetworking/plugins/pkg/ip.
pub record Net : Type 0 where
  pub parse_ip : String → Option Ip
  pub parse_cidr : String → Option (Ip × IpNet)
  pub ip_string : Ip → String
  pub next_ip : Ip → Ip

abbrev pub bytes_eq : List ℕ → List ℕ → Bool
bytes_eq [] [] = true
bytes_eq [] (_ ∷ _) = false
bytes_eq (_ ∷ _) [] = false
bytes_eq (x ∷ xs) (y ∷ ys) = x == y && bytes_eq xs ys

abbrev pub v4_prefix : List ℕ
v4_prefix = 0 ∷ 0 ∷ 0 ∷ 0 ∷ 0 ∷ 0 ∷ 0 ∷ 0 ∷ 0 ∷ 0 ∷ 255 ∷ 255 ∷ []

abbrev pub take : ℕ → List ℕ → List ℕ
take zero _ = []
take (suc n) [] = []
take (suc n) (x ∷ xs) = x ∷ take n xs

abbrev pub drop : ℕ → List ℕ → List ℕ
drop zero xs = xs
drop (suc n) [] = []
drop (suc n) (_ ∷ xs) = drop n xs

-- `To4` is nil, here `none`, for what is no IPv4 address.
unfoldable pub to4 : Ip → Option Ip
to4 ip =
    if length ip == 4
    then some ip
    else if length ip == 16 && bytes_eq (take 12 ip) v4_prefix
    then some (drop 12 ip)
    else none

-- `To16` is nil, here the empty slice, for a slice of another length.
unfoldable pub to16 : Ip → Ip
to16 ip = if length ip == 4 then v4_prefix ++ ip else if length ip == 16 then ip else []

abbrev pub zip_bytes : (ℕ → ℕ → ℕ) → List ℕ → List ℕ → List ℕ
zip_bytes f (x ∷ xs) (y ∷ ys) = f x y ∷ zip_bytes f xs ys
zip_bytes f _ _ = []

abbrev pub all_ff : List ℕ → Bool
all_ff [] = true
all_ff (b ∷ bs) = b == 255 && all_ff bs

-- `ip.Mask(mask)`; nil is the empty slice.
unfoldable pub mask_ip : Ip → List ℕ → Ip
mask_ip ip mask =
    let m =
      if length mask == 16 && length ip == 4 && all_ff (take 12 mask) then drop 12 mask else mask in
    let a =
      if length m == 4 && length ip == 16 && bytes_eq (take 12 ip) v4_prefix
      then drop 12 ip
      else ip in
    if length a == length m then zip_bytes bit_and a m else []

-- `networkNumberAndMask`, which `Contains` calls.
unfoldable pub network_number_and_mask : IpNet → Ip × List ℕ
unfolding to4
network_number_and_mask n =
    let number : Ip = elim (to4 n.ip) [
      | some a ↦ a
      | none ↦ if length n.ip == 16 then n.ip else []
    ] in
    if is_nil number
    then ([], [])
    else if length n.mask == 4
    then (if length number == 4 then (number, n.mask) else ([], []))
    else if length n.mask == 16
    then (number, if length number == 4 then drop 12 n.mask else n.mask)
    else ([], [])

-- The loop of `Contains` over the bytes.
abbrev same_network : List ℕ → List ℕ → List ℕ → Bool
same_network (x ∷ xs) (y ∷ ys) (m ∷ ms) = bit_and x m == bit_and y m && same_network xs ys ms
same_network _ _ _ = true

-- `ipNet.Contains(ip)`
unfoldable pub net_contains : IpNet → Ip → Bool
unfolding network_number_and_mask to4
net_contains n ip =
    let (number, mask) = network_number_and_mask n in
    let a : Ip = elim (to4 ip) [ some b ↦ b | none ↦ ip ] in
    length a == length number && same_network number a mask

-- `ip.Equal(x)`: an IPv4 address and its form in 16 bytes are equal.
unfoldable pub ip_equal : Ip → Ip → Bool
ip_equal a b =
    if length a == length b
    then bytes_eq a b
    else if length a == 4 && length b == 16
    then bytes_eq (take 12 b) v4_prefix && bytes_eq a (drop 12 b)
    else if length a == 16 && length b == 4
    then bytes_eq (take 12 a) v4_prefix && bytes_eq (drop 12 a) b
    else false

-- `n.IP[i] | ^n.Mask[i]` on bytes.
abbrev pub or_not : ℕ → ℕ → ℕ
or_not a m = bit_or a (255 - m)
