-- ===== src/Network/Blocks.antt =====
-- src/safety/network.rs: the restricted addresses as blocks of addresses.
use Prim.Native.Nat.{bit_and}
use bonsai_agent.Prelude.{
  ℕ, zero, suc, ◌+◌, ◌*◌, ◌/◌, ◌%◌, ◌≤◌, ◌<◌, Bool, true, false, ◌&&◌, ◌||◌, ◌≡◌, refl, ap, ◌∙◌,
  List, [], ◌∷◌, any, leb, ◌==◌, arith, Bool-cases, inl, inr,
}
use bonsai_agent.Network.{
  IpAddr, v4, v6, is_restricted_v4, to_ipv4_mapped, is_mapped_restricted,
  is_private_or_restricted_ip, segments_are_zero,
}

-- The addresses whose number, divided by `size`, is `prefix`.
pub record Block : Type 0 where
  pub prefix : ℕ
  pub size : ℕ

abbrev pub in_block : ℕ → Block → Bool
in_block n b = n / b.size == b.prefix

abbrev pub number_v4 : ℕ → ℕ → ℕ → ℕ → ℕ
number_v4 a b c d = a * 16777216 + b * 65536 + c * 256 + d

-- 0.0.0.0/32, 10.0.0.0/8, 100.64.0.0/10, 127.0.0.0/8, 169.254.0.0/16, 172.16.0.0/12, 192.0.0.0/24,
-- 192.168.0.0/16 and 255.255.255.255/32.
abbrev pub blocks_v4 : List Block
blocks_v4 =
    record { prefix = 0; size = 1 }
    ∷ record { prefix = 10; size = 16777216 }
    ∷ record { prefix = 401; size = 4194304 }
    ∷ record { prefix = 127; size = 16777216 }
    ∷ record { prefix = 43518; size = 65536 }
    ∷ record { prefix = 2753; size = 1048576 }
    ∷ record { prefix = 12582912; size = 256 }
    ∷ record { prefix = 49320; size = 65536 }
    ∷ record { prefix = 4294967295; size = 1 }
    ∷ []

-- Whether `p` is true of the numbers from 0 to `top`.
true_to : (ℕ → Bool) → ℕ → Bool
true_to p zero = p zero
true_to p (suc top) = p (suc top) && true_to p top

true_to-at : (p : ℕ → Bool) (top at : ℕ) → at ≤ top → true_to p top ≡ true → p at ≡ true
unfolding true_to
true_to-at p zero zero le every = every
true_to-at p zero (suc at) le every = absurd (omega arith)
true_to-at p (suc top) at le every = ground (arith, true_to-at p top at)

abbrev same_test : Bool → Bool → Bool
same_test true b = b
same_test false true = false
same_test false false = true

same_test_sound : (a b : Bool) → same_test a b ≡ true → a ≡ b
same_test_sound true b h = ground arith
same_test_sound false true h = cc
same_test_sound false false h = refl

-- The mask of two bits, for every value of a byte.
masked_byte : (b : ℕ) → b < 256 → (bit_and b 0xc0 == 64) ≡ (b / 64 == 1)
unfolding true_to
masked_byte b h =
    let agree : ℕ → Bool = λ x. same_test (bit_and x 0xc0 == 64) (x / 64 == 1) in
    same_test_sound _ _ (true_to-at agree 255 b (omega arith) refl)

-- The numbers of an address without its last bits.
module _ (a b c d : ℕ) (hb : b < 256) (hc : c < 256) (hd : d < 256) where
  abbrev n : ℕ
  n = number_v4 a b c d

  first_byte : n / 16777216 ≡ a
  first_byte = omega arith

  ten_bits : n / 4194304 ≡ a * 4 + b / 64
  ten_bits = omega arith

  twelve_bits : n / 1048576 ≡ a * 16 + b / 16
  twelve_bits = omega arith

  two_bytes : n / 65536 ≡ a * 256 + b
  two_bytes = omega arith

  three_bytes : n / 256 ≡ a * 65536 + b * 256 + c
  three_bytes = omega arith

  all_bits : n / 1 ≡ n
  all_bits = omega arith

  shared : (n / 4194304 == 401) ≡ (a == 100 && b / 64 == 1)
  shared = rw ten_bits (ground arith)

  private : (n / 1048576 == 2753) ≡ (a == 172 && leb 16 b && leb b 31)
  private = rw twelve_bits (ground arith)

  private' : (n / 65536 == 49320) ≡ (a == 192 && b == 168)
  private' = rw two_bytes (ground arith)

  link_local : (n / 65536 == 43518) ≡ (a == 169 && b == 254)
  link_local = rw two_bytes (ground arith)

  protocols : (n / 256 == 12582912) ≡ (a == 192 && b == 0 && c == 0)
  protocols = rw three_bytes (ground arith)

  unspecified : (n / 1 == 0) ≡ (a == 0 && b == 0 && c == 0 && d == 0)
  unspecified = rw all_bits (ground arith)

  broadcast : a < 256 → (n / 1 == 4294967295) ≡ (a == 255 && b == 255 && c == 255 && d == 255)
  broadcast ha = rw all_bits (ground arith)

-- The tests in the order of the source, and in that of the blocks.
reordered :
    (p q r s t u v w x : Bool)
    → (p || (q || r || s) || t || u || v || t || w || x)
      ≡ (v || (q || (w || (p || (t || (r || (x || (s || (u || false)))))))))
reordered p q r s t u v w x = ground arith

-- The addresses of four bytes that are refused are those of the nine blocks.
is_restricted_v4-blocks :
    (a b c d : ℕ)
    → a < 256
    → b < 256
    → c < 256
    → d < 256
    → is_restricted_v4 a b c d ≡ any (in_block (number_v4 a b c d)) blocks_v4
unfolding is_restricted_v4
is_restricted_v4-blocks a b c d ha hb hc hd =
    rw
      (
        masked_byte b hb,
        unspecified a b c d hb hc hd,
        shared a b c d hb hc hd,
        link_local a b c d hb hc hd,
        private a b c d hb hc hd,
        protocols a b c d hb hc hd,
        private' a b c d hb hc hd,
        broadcast a b c d hb hc hd ha,
        first_byte a b c d hb hc hd,
      )
      (reordered (a == 127) (a == 10) (a == 172 && leb 16 b && leb b 31) (a == 192 && b == 168)
        (a == 169 && b == 254) (a == 255 && b == 255 && c == 255 && d == 255)
        (a == 0 && b == 0 && c == 0 && d == 0) (a == 100 && b / 64 == 1)
        (a == 192 && b == 0 && c == 0))

-- The masks of the first seven and the first ten bits, for every value of 16 bits.
masked_segment :
    (s : ℕ)
    → s < 65536
    → ((bit_and s 0xfe00 == 0xfc00) ≡ (s / 512 == 126))
      × ((bit_and s 0xffc0 == 0xfe80) ≡ (s / 64 == 1018))
unfolding true_to
masked_segment s h =
    let local : ℕ → Bool = λ x. same_test (bit_and x 0xfe00 == 0xfc00) (x / 512 == 126) in
    let link : ℕ → Bool = λ x. same_test (bit_and x 0xffc0 == 0xfe80) (x / 64 == 1018) in
    let within : s ≤ 65535 = omega arith in
    (
      same_test_sound _ _ (true_to-at local 65535 s within refl),
      same_test_sound _ _ (true_to-at link 65535 s within refl),
    )

-- An address of bytes, or of segments of 16 bits.
abbrev pub IsAddress : IpAddr → Type 0
IsAddress (v4 a b c d) = (a < 256) × (b < 256) × (c < 256) × (d < 256)
IsAddress (v6 s₀ s₁ s₂ s₃ s₄ s₅ s₆ s₇) = (s₀ < 65536) × (s₆ < 65536) × (s₇ < 65536)

-- fc00::/7, fe80::/10, ::1 and ::, and the blocks of four bytes behind ::ffff:0:0/96.
abbrev pub in_blocks : IpAddr → Bool
in_blocks (v4 a b c d) = any (in_block (number_v4 a b c d)) blocks_v4
in_blocks (v6 s₀ s₁ s₂ s₃ s₄ s₅ s₆ s₇) =
    let zeros = segments_are_zero (s₀ ∷ s₁ ∷ s₂ ∷ s₃ ∷ s₄ ∷ []) in
    (zeros && s₅ == 0 && s₆ == 0 && s₇ == 1)
    || (zeros && s₅ == 0 && s₆ == 0 && s₇ == 0)
    || s₀ / 512 == 126
    || s₀ / 64 == 1018
    || (zeros && s₅ == 0xffff && any (in_block (s₆ * 65536 + s₇)) blocks_v4)

number_of_segments : (s t : ℕ) → number_v4 (s / 256) (s % 256) (t / 256) (t % 256) ≡ s * 65536 + t
number_of_segments s t = omega arith

mapped-blocks :
    (s₀ s₁ s₂ s₃ s₄ s₅ s₆ s₇ : ℕ)
    → s₆ < 65536
    → s₇ < 65536
    → is_mapped_restricted (to_ipv4_mapped s₀ s₁ s₂ s₃ s₄ s₅ s₆ s₇) ≡ (
        segments_are_zero (s₀ ∷ s₁ ∷ s₂ ∷ s₃ ∷ s₄ ∷ [])
        && s₅ == 0xffff
        && any (in_block (s₆ * 65536 + s₇)) blocks_v4)
unfolding to_ipv4_mapped
mapped-blocks s₀ s₁ s₂ s₃ s₄ s₅ s₆ s₇ h₆ h₇ =
    let test = segments_are_zero (s₀ ∷ s₁ ∷ s₂ ∷ s₃ ∷ s₄ ∷ []) && s₅ == 0xffff in
    elim (Bool-cases test) [
      | inl mapped ↦ rw mapped (
          is_restricted_v4-blocks (s₆ / 256) (s₆ % 256) (s₇ / 256) (s₇ % 256) (omega arith)
            (omega arith) (omega arith) (omega arith)
          ∙ ap (λ n. any (in_block n) blocks_v4) (number_of_segments s₆ s₇))
      | inr other ↦ rw other refl
    ]

-- The tests for ::1 and ::, bracketed as in the source and as in the blocks.
zeros_split :
    (a b c d e f g h : Bool)
    → ((a && (b && (c && (d && (e && (f && (g && true))))))) && h)
      ≡ ((a && (b && (c && (d && (e && true))))) && f && g && h)
zeros_split a b c d e f g h = ground arith

all_zeros_split :
    (a b c d e f g h : Bool)
    → (a && (b && (c && (d && (e && (f && (g && (h && true))))))))
      ≡ ((a && (b && (c && (d && (e && true))))) && f && g && h)
all_zeros_split a b c d e f g h = ground arith

-- The addresses that are refused are those of the nine blocks of four bytes, the same behind
-- ::ffff:0:0/96, ::1, :: and those of fc00::/7 and fe80::/10.
pub is_private_or_restricted_ip-blocks :
    (ip : IpAddr) → IsAddress ip → is_private_or_restricted_ip ip ≡ in_blocks ip
unfolding is_private_or_restricted_ip
is_private_or_restricted_ip-blocks (v4 a b c d) (ha, hb, hc, hd) =
    is_restricted_v4-blocks a b c d ha hb hc hd
is_private_or_restricted_ip-blocks (v6 s₀ s₁ s₂ s₃ s₄ s₅ s₆ s₇) (h₀, h₆, h₇) =
    rw
      (
        zeros_split (s₀ == 0) (s₁ == 0) (s₂ == 0) (s₃ == 0) (s₄ == 0) (s₅ == 0) (s₆ == 0) (s₇ == 1),
        all_zeros_split (s₀ == 0) (s₁ == 0) (s₂ == 0) (s₃ == 0) (s₄ == 0) (s₅ == 0) (s₆ == 0)
            (s₇ == 0),
        (masked_segment s₀ h₀).0,
        (masked_segment s₀ h₀).1,
        mapped-blocks s₀ s₁ s₂ s₃ s₄ s₅ s₆ s₇ h₆ h₇,
      )
      refl
