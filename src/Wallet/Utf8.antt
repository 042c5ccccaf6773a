-- ===== src/Wallet/Utf8.antt =====
-- The `TextEncoder` and the fatal `TextDecoder('utf-8')` of the platform, which
-- packages/wallet/src/cbor.ts and packages/enrollment/src/service.ts call. A text is the list of its
-- code points; a surrogate stands for a lone one.
use cardano_on_evm.Prelude.{
  ℕ, zero, suc, ◌+◌, ◌-◌, ◌*◌, ◌/◌, ◌%◌, ◌≡◌, refl, Bool, true, false, ◌&&◌, ◌||◌, not, [], ◌∷◌,
  ◌++◌, Option, none, some, arith, Str, Bytes, IsBytes, All, All-append, has_prefix, ltb, leb,
  if◌then◌else◌, tests, Bool-cases, inl, inr, ◌≤◌, length, drop, length-append, ◌≢◌, ◌<◌,
}

-- A code point that is no surrogate.
abbrev pub is_scalar : ℕ → Bool
is_scalar c = ltb c 0xd800 || (leb 0xe000 c && ltb c 0x110000)

-- A lone surrogate is written as U+FFFD.
utf8_char : ℕ → Bytes
utf8_char c =
    if ltb c 0x80
    then c ∷ []
    else if ltb c 0x800
    then (192 + c / 64) ∷ (128 + c % 64) ∷ []
    else if not (is_scalar c)
    then 239 ∷ 191 ∷ 189 ∷ []
    else if ltb c 0x10000
    then (224 + c / 4096) ∷ (128 + c / 64 % 64) ∷ (128 + c % 64) ∷ []
    else (240 + c / 262144) ∷ (128 + c / 4096 % 64) ∷ (128 + c / 64 % 64) ∷ (128 + c % 64) ∷ []

unfoldable pub utf8_encode : Str → Bytes
unfolding utf8_char
utf8_encode [] = []
utf8_encode (c ∷ s) = utf8_char c ++ utf8_encode s

abbrev is_tail : ℕ → Bool
is_tail b = leb 128 b && ltb b 192

-- Two, three and four bytes: no overlong form, no surrogate, nothing above U+10FFFF.
utf8_two : ℕ → Bytes → Option (ℕ × Bytes)
utf8_two a [] = none
utf8_two a (b ∷ r) = if is_tail b then some ((a - 192) * 64 + (b - 128), r) else none

utf8_three : ℕ → Bytes → Option (ℕ × Bytes)
utf8_three a [] = none
utf8_three a (b ∷ []) = none
utf8_three a (b ∷ c ∷ r) =
    let value = (a - 224) * 4096 + (b - 128) * 64 + (c - 128) in
    if is_tail b && is_tail c && leb 0x800 value && is_scalar value then some (value, r) else none

utf8_four : ℕ → Bytes → Option (ℕ × Bytes)
utf8_four a [] = none
utf8_four a (b ∷ []) = none
utf8_four a (b ∷ c ∷ []) = none
utf8_four a (b ∷ c ∷ d ∷ r) =
    let value = (a - 240) * 262144 + (b - 128) * 4096 + (c - 128) * 64 + (d - 128) in
    if is_tail b && is_tail c && is_tail d && leb 0x10000 value && ltb value 0x110000
    then some (value, r)
    else none

utf8_next : ℕ → Bytes → Option (ℕ × Bytes)
unfolding utf8_two utf8_three utf8_four
utf8_next a r =
    if ltb a 128
    then some (a, r)
    else if ltb a 194
    then none
    else if ltb a 224
    then utf8_two a r
    else if ltb a 240
    then utf8_three a r
    else if ltb a 245
    then utf8_four a r
    else none

-- The fuel is the number of bytes: each character takes one at least.
utf8_loop : ℕ → Bytes → Option Str
utf8_loop fuel [] = some []
utf8_loop zero (a ∷ r) = none
utf8_loop (suc fuel) (a ∷ r) = elim (utf8_next a r) [
  | none ↦ none
  | some (c, r') ↦ elim (utf8_loop fuel r') [ none ↦ none | some s ↦ some (c ∷ s) ]
]

abbrev bom : Bytes
bom = 239 ∷ 187 ∷ 191 ∷ []

-- The decoder drops one byte order mark in front.
unfoldable pub utf8_decode : Bytes → Option Str
unfolding utf8_loop utf8_next
utf8_decode bs =
    let body = if has_prefix bom bs then drop 3 bs else bs in utf8_loop (length body) body

-- A text that survives: no lone surrogate, and no byte order mark in front.
abbrev pub IsPlain : Str → Type 0
IsPlain [] = Unit
IsPlain (c ∷ s) = (c ≢ 0xfeff) × All (λ d. is_scalar d ≡ true) (c ∷ s)

utf8_char-IsBytes : (c : ℕ) → IsBytes (utf8_char c)
unfolding utf8_char
utf8_char-IsBytes c = elim (Bool-cases (ltb c 0x80)) [
  | inl one ↦ rw one (omega tests)
  | inr e ↦ rw e (elim (Bool-cases (ltb c 0x800)) [
    | inl two ↦ rw two (omega tests)
    | inr e' ↦ rw e' (elim (Bool-cases (is_scalar c)) [
      | inr lone ↦ rw lone (omega arith)
      | inl fine ↦ rw fine (elim (Bool-cases (ltb c 0x10000)) [
        | inl three ↦ rw three (omega tests)
        | inr four ↦ rw four (let top : c < 0x110000 = ground arith in omega arith)
      ])
    ])
  ])
]

pub utf8_encode-IsBytes : (s : Str) → IsBytes (utf8_encode s)
unfolding utf8_encode
utf8_encode-IsBytes [] = tt
utf8_encode-IsBytes (c ∷ s) =
    All-append (λ b. b < 256) (utf8_char c) _ (utf8_char-IsBytes c) (utf8_encode-IsBytes s)

utf8_two_lem :
    (c : ℕ) (rest : Bytes)
    → 0x80 ≤ c
    → c < 0x800
    → utf8_next (192 + c / 64) ((128 + c % 64) ∷ rest) ≡ some (c, rest)
unfolding utf8_next
utf8_two_lem c rest lo hi = ground arith

utf8_three_lem :
    (c : ℕ) (rest : Bytes)
    → 0x800 ≤ c
    → c < 0x10000
    → is_scalar c ≡ true
    → utf8_next (224 + c / 4096) ((128 + c / 64 % 64) ∷ (128 + c % 64) ∷ rest) ≡ some (c, rest)
unfolding utf8_next
utf8_three_lem c rest lo hi h =
    let value : (224 + c / 4096 - 224) * 4096
          + (128 + c / 64 % 64 - 128) * 64
          + (128 + c % 64 - 128)
        ≡ c =
      omega arith in
    rw value (ground arith)

utf8_four_lem :
    (c : ℕ) (rest : Bytes)
    → 0x10000 ≤ c
    → c < 0x110000
    → utf8_next
        (240 + c / 262144)
        ((128 + c / 4096 % 64) ∷ (128 + c / 64 % 64) ∷ (128 + c % 64) ∷ rest)
      ≡ some (c, rest)
unfolding utf8_next
utf8_four_lem c rest lo hi =
    let value : (240 + c / 262144 - 240) * 262144
          + (128 + c / 4096 % 64 - 128) * 4096
          + (128 + c / 64 % 64 - 128) * 64
          + (128 + c % 64 - 128)
        ≡ c =
      omega arith in
    rw value (ground arith)

-- One character is read off the front of what follows it.
utf8_next-char :
    (c : ℕ) (rest : Bytes)
    → is_scalar c ≡ true
    → (a : ℕ) × (t : Bytes) × (utf8_char c ≡ a ∷ t) × (utf8_next a (t ++ rest) ≡ some (c, rest))
unfolding utf8_char
utf8_next-char c rest h = elim (Bool-cases (ltb c 0x80)) [
  | inl one ↦ rw one (c, [], refl, unfold utf8_next in rw one)
  | inr e ↦ rw e (elim (Bool-cases (ltb c 0x800)) [
    | inl two ↦
        rw two (
          192 + c / 64,
          (128 + c % 64) ∷ [],
          refl,
          utf8_two_lem c rest (ground arith) (ground arith),
        )
    | inr e' ↦
        rw (e', h)
          (elim (Bool-cases (ltb c 0x10000)) [
            | inl three ↦ rw three (
              224 + c / 4096,
              (128 + c / 64 % 64) ∷ (128 + c % 64) ∷ [],
              refl,
              utf8_three_lem c rest (ground arith) (ground arith) h,
            )
            | inr four ↦ rw four (
              240 + c / 262144,
              (128 + c / 4096 % 64) ∷ (128 + c / 64 % 64) ∷ (128 + c % 64) ∷ [],
              refl,
              utf8_four_lem c rest (ground arith) (ground arith),
            )
          ])
  ])
]

utf8_loop-encode :
    (s : Str) (fuel : ℕ)
    → All (λ d. is_scalar d ≡ true) s
    → length (utf8_encode s) ≤ fuel
    → utf8_loop fuel (utf8_encode s) ≡ some s
unfolding utf8_loop utf8_encode
utf8_loop-encode [] fuel h le = refl
utf8_loop-encode (c ∷ s) fuel h le =
    let (a, t, e, next) = utf8_next-char c (utf8_encode s) h.0 in
    rw e (step a t fuel next (utf8_loop-encode s) (rw e at le))
  where
    step :
        (a : ℕ) (t : Bytes) (fuel : ℕ)
        → utf8_next a (t ++ utf8_encode s) ≡ some (c, utf8_encode s)
        → ((k : ℕ)
            → All (λ d. is_scalar d ≡ true) s
            → length (utf8_encode s) ≤ k
            → utf8_loop k (utf8_encode s) ≡ some s)
        → length (a ∷ (t ++ utf8_encode s)) ≤ fuel
        → utf8_loop fuel (a ∷ (t ++ utf8_encode s)) ≡ some (c ∷ s)
    step a t zero next ih le = absurd (omega arith)
    step a t (suc k) next ih le =
        let room : length (utf8_encode s) ≤ k = omega (arith, length-append t (utf8_encode s)) in
        rw (next, utf8_loop) (rw (ih k h.1 room))

-- Only U+FEFF encodes to a byte order mark.
has_prefix-bom : (s : Str) → IsPlain s → has_prefix bom (utf8_encode s) ≡ false
unfolding utf8_encode utf8_char has_prefix
has_prefix-bom [] h = refl
has_prefix-bom (c ∷ s) h = elim (Bool-cases (ltb c 0x80)) [
  | inl one ↦ rw one (ground arith)
  | inr e ↦ rw e (elim (Bool-cases (ltb c 0x800)) [
    | inl two ↦ rw two (ground arith)
    | inr e' ↦
        rw (e', h.1.0)
          (elim (Bool-cases (ltb c 0x10000)) [
            | inl three ↦ rw three (ground (arith, h.0))
            | inr four ↦ rw four (ground arith)
          ])
  ])
]

-- What was encoded decodes to the text, unless a mark stands in front.
pub utf8_decode-encode : (s : Str) → IsPlain s → utf8_decode (utf8_encode s) ≡ some s
unfolding utf8_decode utf8_encode has_prefix
utf8_decode-encode [] h = refl
utf8_decode-encode (c ∷ s) h =
    rw (has_prefix-bom (c ∷ s) h) (utf8_loop-encode (c ∷ s) _ h.1 (omega arith))
