-- ===== src/Wallet/Cbor/Atoms.antt =====
-- Numbers, byte strings, texts and keys read back.
use mathlib.Core.List.{flatten}
use cardano_on_evm.Prelude.{
  ℕ, zero, suc, ◌^◌, ◌<◌, ◌≡◌, refl, ◌∙◌, Bool, false, [], ◌∷◌, ◌++◌, some, arith, ok, Str, Bytes,
  length, append_assoc, append-nil,
}
use cardano_on_evm.Prelude.Int.{ℤ, pos, negsuc}
use cardano_on_evm.Wallet.Bytes.{concat_bytes}
use cardano_on_evm.Wallet.Bytes.Compare.{concat_bytes-eq-flatten}
use cardano_on_evm.Wallet.Utf8.{utf8_encode, utf8_decode-encode}
use cardano_on_evm.Wallet.Cbor.{
  Key, Cbor, num_key, text_key, num, text, bytes, as_key, read_payload, read, encode_num,
  encode_string, encode_key,
}
use cardano_on_evm.Wallet.Cbor.Heads.{take_bytes-append, head-reads}
use cardano_on_evm.Wallet.Cbor.Limits.{FitsNum, FitsText, FitsKey}

abbrev pub ReadsAs : ℕ → Cbor → Bytes → Type 0
ReadsAs levels v p = (tag : Bool) (rest : Bytes) → read levels tag (p ++ rest) ≡ ok (v, rest)

pub num_back :
    (levels : ℕ) (n : ℤ)
    → FitsNum levels n
    → (p : Bytes) × (encode_num n ≡ ok p) × ReadsAs levels (num n) p
unfolding encode_num read read_payload
num_back zero n h = absurd h
num_back (suc levels) (pos n) h =
    let (p, e, reads) = head-reads 0 n (omega arith) h in
    (p, e, λ tag rest. reads (read levels false) tag rest)
num_back (suc levels) (negsuc n) h =
    let (p, e, reads) = head-reads 1 n (omega arith) h in
    (p, e, λ tag rest. reads (read levels false) tag rest)

-- A head and the bytes behind it, in one array.
joined : (h body rest : Bytes) → concat_bytes (h ∷ body ∷ []) ++ rest ≡ h ++ (body ++ rest)
unfolding flatten
joined h body rest =
    rw (concat_bytes-eq-flatten (h ∷ body ∷ [])) (rw (append-nil body, append_assoc h body rest))

pub bytes_back :
    (levels : ℕ) (b : Bytes)
    → length b < 2 ^ 32
    → (p : Bytes) × (encode_string 2 b ≡ ok p) × ReadsAs (suc levels) (bytes b) p
unfolding encode_string read read_payload
bytes_back levels b h =
    let (p, e, reads) = head-reads 2 (length b) (omega arith) h in
    (
      concat_bytes (p ∷ b ∷ []),
      (rw e),
      λ tag rest.
          rw (joined p b rest)
            (reads (read levels false) tag (b ++ rest) ∙ (rw (take_bytes-append b rest))),
    )

pub text_back :
    (levels : ℕ) (s : Str)
    → FitsText levels s
    → (p : Bytes) × (encode_string 3 (utf8_encode s) ≡ ok p) × ReadsAs levels (text s) p
unfolding encode_string read read_payload
text_back zero s h = absurd h
text_back (suc levels) s h =
    let b = utf8_encode s in
    let (p, e, reads) = head-reads 3 (length b) (omega arith) h.1 in
    (
      concat_bytes (p ∷ b ∷ []),
      (rw e),
      λ tag rest. rw (joined p b rest) (
          reads (read levels false) tag (b ++ rest)
          ∙ (rw (take_bytes-append b rest) (rw (utf8_decode-encode s h.0)))),
    )

-- A key reads back as the value that `as_key` takes for it.
pub key_back :
    (levels : ℕ) (k : Key)
    → FitsKey levels k
    → (p : Bytes) × (c : Cbor) × (encode_key k ≡ ok p) × (as_key c ≡ some k) × ReadsAs levels c p
unfolding encode_key as_key
key_back levels (num_key n) h =
    let (p, e, reads) = num_back levels n h in (p, num n, e, refl, reads)
key_back levels (text_key s) h =
    let (p, e, reads) = text_back levels s h in (p, text s, e, refl, reads)
