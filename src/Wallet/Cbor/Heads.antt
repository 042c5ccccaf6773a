-- ===== src/Wallet/Cbor/Heads.antt =====
-- The head that `head` writes is the one that the decoder reads.
use cardano_on_evm.Prelude.{
  ℕ, ◌+◌, ◌-◌, ◌*◌, ◌/◌, ◌%◌, ◌^◌, ◌<◌, ◌≡◌, refl, inl, inr, Bool, false, [], ◌∷◌, ◌++◌, arith, ok,
  Bytes, ltb, ◌==◌, tests, Bool-cases, length, take-length_append, drop-length_append,
  length-append,
}
use cardano_on_evm.Wallet.Cbor.{
  Cbor, Reader, take_bytes, read_length, check_minimal, big_endian, read_payload, read_behind,
  read_item, head,
}

pub take_bytes-append : (b rest : Bytes) → take_bytes (length b) (b ++ rest) ≡ ok (b, rest)
unfolding take_bytes
take_bytes-append b rest =
    let fits : ltb (length (b ++ rest)) (length b) ≡ false = ground (arith, length-append b rest) in
    rw (fits, take-length_append b rest, drop-length_append b rest)

-- The head of a length, read back: major type and length are those that were written.
abbrev pub HeadReads : ℕ → ℕ → Bytes → Type 0
HeadReads major n h =
    (reader : Reader Cbor) (tag : Bool) (rest : Bytes)
    → read_item reader tag (h ++ rest) ≡ read_payload reader tag major n rest

-- The first byte carries the major type and the additional information.
split_first :
    (major ai n : ℕ) (t : Bytes)
    → major < 7
    → ai < 32
    → ((rest : Bytes) → read_length ai (t ++ rest) ≡ ok (n, rest))
    → HeadReads major n ((major * 32 + ai) ∷ t)
unfolding read_item read_behind
split_first major ai n t hm ha len reader tag rest =
    let m : (major * 32 + ai) / 32 ≡ major = omega arith in
    let a : (major * 32 + ai) % 32 ≡ ai = omega arith in
    let other : (major == 7) ≡ false = ground arith in
    rw (take_bytes-append ((major * 32 + ai) ∷ []) (t ++ rest)) (rw (m, a, other) (rw (len rest)))

-- A length in `width` bytes.
read_wide :
    (ai n : ℕ) (t : Bytes)
    → ltb ai 24 ≡ false
    → ltb 26 ai ≡ false
    → 2 ^ (ai - 24) ≡ length t
    → big_endian 0 t ≡ n
    → check_minimal (length t) n ≡ ok tt
    → (rest : Bytes) → read_length ai (t ++ rest) ≡ ok (n, rest)
unfolding read_length
read_wide ai n t wide known w value minimal rest =
    rw (wide, known, w, take_bytes-append t rest) (rw (value, minimal))

pub head-reads :
    (major n : ℕ)
    → major < 7
    → n < 2 ^ 32
    → (h : Bytes) × (head major n ≡ ok h) × HeadReads major n h
unfolding head big_endian check_minimal
head-reads major n hm hn =
    let small : ltb 0xffffffff n ≡ false = ground arith in
    rw small (elim (Bool-cases (ltb n 24)) [
      | inl tiny ↦ rw tiny (
        (major * 32 + n) ∷ [],
        refl,
        split_first major n n [] hm (omega tests) (λ rest. unfold read_length in rw tiny),
      )
      | inr e ↦ rw e (elim (Bool-cases (ltb n 256)) [
        | inl one ↦ rw one (
          _,
          refl,
          split_first major 24 n (n ∷ []) hm (omega arith)
              (read_wide 24 n (n ∷ []) refl refl refl (omega arith) (rw e)),
        )
        | inr e' ↦ rw e' (elim (Bool-cases (ltb n 65536)) [
          | inl two ↦ rw two (
            _,
            refl,
            split_first major 25 n (n / 256 ∷ n % 256 ∷ []) hm (omega arith)
                (read_wide 25 n (n / 256 ∷ n % 256 ∷ []) refl refl refl (omega arith) (rw e')),
          )
          | inr four ↦ rw four (
            _,
            refl,
            split_first major 26 n (n / 16777216 ∷ n / 65536 % 256 ∷ n / 256 % 256 ∷ n % 256 ∷ [])
                hm (omega arith)
                (read_wide 26 n (n / 16777216 ∷ n / 65536 % 256 ∷ n / 256 % 256 ∷ n % 256 ∷ []) refl
                  refl refl (omega arith) (rw four)),
          )
        ])
      ])
    ])
