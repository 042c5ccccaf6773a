-- ===== src/Wallet/Bytes/Compare.antt =====
-- The byte comparison decides equality, and the copying concatenation is the concatenation.
use mathlib.Core.List.{flatten}
use Prim.Native.Nat.{bit_or, bit_xor}
use cardano_on_evm.Prelude.{
  ℕ, zero, suc, ◌+◌, ◌≡◌, refl, ap, ◌∙◌, ◌↔◌, inl, inr, true, List, [], ◌∷◌, ◌++◌, arith, Bytes,
  ◌==◌, ==_iff, ==_refl, Bool-cases, length, replicate, drop, length-append, append_assoc,
  take-length_append, length-drop,
}
use cardano_on_evm.Prelude.Bits.{bit_xor-zero, bit_xor_self, bit_or-zero, zero-bit_or}
use cardano_on_evm.Wallet.Bytes.{
  difference, equal_bytes, write_at, total_length, copy_parts, concat_bytes,
}

difference_acc : (a b : Bytes) (d : ℕ) → difference a b d ≡ 0 → d ≡ 0
unfolding difference
difference_acc [] b d h = h
difference_acc (x ∷ a) [] d h = (bit_or-zero d _ (difference_acc a [] (bit_or d (bit_xor x 0)) h)).0
difference_acc (x ∷ a) (y ∷ b) d h =
    (bit_or-zero d _ (difference_acc a b (bit_or d (bit_xor x y)) h)).0

difference→eq : (a b : Bytes) (d : ℕ) → length a ≡ length b → difference a b d ≡ 0 → a ≡ b
unfolding difference
difference→eq [] [] d l h = refl
difference→eq [] (y ∷ b) d l h = absurd (omega arith)
difference→eq (x ∷ a) [] d l h = absurd (omega arith)
difference→eq (x ∷ a) (y ∷ b) d l h =
    let head = bit_xor-zero x y (bit_or-zero d _ (difference_acc a b _ h)).1 in
    let rest = difference→eq a b _ (omega arith) h in cc (head, rest)

difference_self : (a : Bytes) → difference a a 0 ≡ 0
unfolding difference
difference_self [] = refl
difference_self (x ∷ a) = rw (bit_xor_self x, zero-bit_or 0) (difference_self a)

-- `equal_bytes` answers true exactly on equal arrays, whatever their lengths.
pub equal_bytes_iff : (a b : Bytes) → (equal_bytes a b ≡ true) ↔ (a ≡ b)
unfolding equal_bytes
equal_bytes_iff a b = (sound, complete)
  where
    sound : equal_bytes a b ≡ true → a ≡ b
    sound h = elim (Bool-cases (length a == length b)) [
      | inl same ↦ difference→eq a b 0 ((==_iff _ _).0 same) ((==_iff _ _).0 (rw (same) at h))
      | inr other ↦ absurd (ground (arith, h))
    ]

    complete : a ≡ b → equal_bytes a b ≡ true
    complete e = rw (← e) (rw (==_refl (length a), difference_self a))

pub equal_bytes_refl : (a : Bytes) → equal_bytes a a ≡ true
equal_bytes_refl a = (equal_bytes_iff a a).1 refl

drop_past : (done buf : Bytes) (m : ℕ) → drop (length done + m) (done ++ buf) ≡ drop m buf
drop_past [] buf m = let e : 0 + m ≡ m = omega arith in ap (λ k. drop k buf) e
drop_past (x ∷ done) buf m =
    let e : suc (length done) + m ≡ suc (length done + m) = omega arith in
    ap (λ k. drop k (x ∷ (done ++ buf))) e ∙ drop_past done buf m

write_at_lem :
    (done buf p : Bytes)
    → write_at (done ++ buf) (length done) p ≡ (done ++ p) ++ drop (length p) buf
unfolding write_at
write_at_lem done buf p = rw (take-length_append done buf, drop_past done buf (length p))

copy_parts-eq :
    (done buf : Bytes) (parts : List Bytes)
    → length buf ≡ total_length parts
    → copy_parts (done ++ buf) (length done) parts ≡ done ++ flatten parts
unfolding copy_parts total_length flatten
copy_parts-eq done [] [] h = refl
copy_parts-eq done (x ∷ buf) [] h = absurd (omega arith)
copy_parts-eq done buf (p ∷ parts) h =
    let rest = drop (length p) buf in
    let room : length rest ≡ total_length parts = omega (arith, length-drop (length p) buf) in
    rw (write_at_lem done buf p, ← length-append done p)
      (copy_parts-eq (done ++ p) rest parts room ∙ append_assoc done p (flatten parts))

length-zeros : (n : ℕ) → length (replicate {A = ℕ} n 0) ≡ n
length-zeros zero = refl
length-zeros (suc n) = ap suc (length-zeros n)

-- Copying the parts behind one another into a fresh array gives their concatenation.
pub concat_bytes-eq-flatten : (parts : List Bytes) → concat_bytes parts ≡ flatten parts
unfolding concat_bytes
concat_bytes-eq-flatten parts =
    copy_parts-eq [] (replicate (total_length parts) 0) parts (length-zeros (total_length parts))
