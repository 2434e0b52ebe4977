-- ===== src/Net.antt =====
-- What internal/api/listener.go uses of Go's package net: net.ParseIP on texts without a colon, and
-- net.ParseCIDR with Contains. An IPv4 address is its 32-bit number.
use omni_blob.Base.{
  ℕ, ◌+◌, ◌-◌, ◌*◌, ◌/◌, ◌^◌, ◌≡◌, refl, Bool, true, false, ◌&&◌, not, Option, none, some, List, [],
  ◌∷◌, map, leb, ◌==◌, if◌then◌else◌, Text, codes, is_empty, has_byte, split_on, cut, digits_value,
}
use omni_blob.FilePath.{slash}

abbrev up_to : ℕ → Option ℕ → Option ℕ
up_to m none = none
up_to m (some n) = if leb n m then some n else none

-- One of the four numbers: digits without a leading zero.
unfoldable pub octet : Text → Option ℕ
octet [] = none
octet (c ∷ s) = if (c == b'0') && not (is_empty s) then none else up_to 255 (digits_value 0 (c ∷ s))

abbrev pub quad : List (Option ℕ) → Option ℕ
quad (some a ∷ some b ∷ some c ∷ some d ∷ []) = some (((a * 256 + b) * 256 + c) * 256 + d)
quad _ = none

-- A text without a colon is no IPv6 address.
unfoldable pub parse_ip : Text → Option ℕ
unfolding octet
parse_ip s = quad (map octet (split_on b'.' s))

-- The length of a prefix: digits, at most 32 in value.
unfoldable pub prefix_length : Text → Option ℕ
prefix_length [] = none
prefix_length (c ∷ s) = up_to 32 (digits_value 0 (c ∷ s))

abbrev same_network : ℕ → Option ℕ → Option ℕ → Bool
same_network ip none n = false
same_network ip (some a) none = false
same_network ip (some a) (some n) = ip / (2 ^ (32 - n)) == a / (2 ^ (32 - n))

-- Whether a rule with a slash is a network that has the address. Rules in IPv6 notation are left to
-- `cidr6`.
unfoldable pub cidr_contains : (Text → ℕ → Bool) → Text → ℕ → Bool
unfolding parse_ip prefix_length
cidr_contains cidr6 rule ip = if has_byte b':' rule then cidr6 rule ip else elim (cut slash rule) [
  | none ↦ false
  | some (address, bits) ↦ same_network ip (parse_ip address) (prefix_length bits)
]

in_network : cidr_contains (λ r n. false) (codes "10.1.0.0/16") 167838211 ≡ true
unfolding cidr_contains has_byte cut split_on digits_value
in_network = refl
