-- ===== src/Wallet/Cbor/RoundTrip.antt =====
-- An encoded value decodes to itself, within the limits of the decoder.
use mathlib.Core.List.{flatten}
use mathlib.Core.Path.{subst}
use cardano_on_evm.Prelude.{
  ℕ, zero, suc, ◌+◌, ◌*◌, ◌/◌, ◌%◌, ◌≤◌, ◌<◌, ◌≡◌, refl, ◌∙◌, Bool, true, false, List, [], ◌∷◌,
  ◌++◌, arith, ok, err, if◌then◌else◌, Bool-cases, inl, inr, Bytes, ltb, length, append_assoc,
  append-nil,
}
use cardano_on_evm.Wallet.Bytes.{concat_bytes}
use cardano_on_evm.Wallet.Bytes.Compare.{concat_bytes-eq-flatten}
use cardano_on_evm.Wallet.Cbor.{
  Key, Cbor, Items, Entries, num, bool, null, text, bytes, array, object, nil, cons, end, entry,
  key_mem, read_items, read_entries, read_payload, read_behind, read_simple, read_item, read,
  decode_cbor, count, map_size, encode_cbor, encode_items, encode_entries,
}
use cardano_on_evm.Wallet.Cbor.Heads.{take_bytes-append, head-reads}
use cardano_on_evm.Wallet.Cbor.Limits.{FitsKey, Fits, FitsItems, FitsEntries}
use cardano_on_evm.Wallet.Cbor.Atoms.{ReadsAs, num_back, bytes_back, text_back, key_back}

abbrev ValueBack : ℕ → Cbor → Type 0
ValueBack levels v = (p : Bytes) × (encode_cbor v ≡ ok p) × ReadsAs levels v p

abbrev ItemsBack : ℕ → Items → Type 0
ItemsBack levels vs =
    (ps : List Bytes) × (encode_items vs ≡ ok ps)
    × ((rest : Bytes)
        → read_items (read levels false) (count vs) (flatten ps ++ rest) ≡ ok (vs, rest))

abbrev EntriesBack : ℕ → List Key → Entries → Type 0
EntriesBack levels seen es =
    (ps : List Bytes) × (encode_entries es ≡ ok ps)
    × ((rest : Bytes)
        → read_entries (read levels false) (map_size es) seen (flatten ps ++ rest) ≡ ok (es, rest))

cons_back :
    (levels : ℕ) (v : Cbor) (vs : Items)
    → ValueBack levels v
    → ItemsBack levels vs
    → ItemsBack levels (cons v vs)
unfolding encode_cbor read_items flatten
cons_back levels v vs (p, e, reads) (ps, es, more) = (
  p ∷ ps,
  rw (e, es),
  λ rest.
      rw (append_assoc p (flatten ps) rest)
        (rw (reads false (flatten ps ++ rest)) (rw (more rest))),
)

entry_back :
    (levels : ℕ) (seen : List Key) (k : Key) (v : Cbor) (es : Entries)
    → FitsKey levels k
    → key_mem k seen ≡ false
    → ValueBack levels v
    → EntriesBack levels (k ∷ seen) es
    → EntriesBack levels seen (entry k v es)
unfolding encode_cbor read_entries flatten
entry_back levels seen k v es fits fresh (p, e, reads) (ps, ee, more) =
    let (kp, c, ek, key, reads_key) = key_back levels k fits in
    (
      concat_bytes (kp ∷ p ∷ []) ∷ ps,
      rw (ek, e) (rw ee),
      λ rest.
          rw
            (
              append_assoc (concat_bytes (kp ∷ p ∷ [])) (flatten ps) rest,
              concat_bytes-eq-flatten (kp ∷ p ∷ []),
              append-nil p,
              append_assoc kp p (flatten ps ++ rest),
            )
            (rw (reads_key false (p ++ (flatten ps ++ rest)))
              (rw (key, fresh) (rw (reads false (flatten ps ++ rest)) (rw (more rest))))),
    )

array_back :
    (levels : ℕ) (vs : Items)
    → count vs ≤ 64
    → ItemsBack levels vs
    → ValueBack (suc levels) (array vs)
unfolding encode_cbor read read_payload flatten
array_back levels vs few (ps, e, more) =
    let (h, eh, reads) = head-reads 4 (count vs) (omega arith) (omega arith) in
    let limit : ltb 64 (count vs) ≡ false = ground arith in
    (
      concat_bytes (h ∷ ps),
      rw (eh, e),
      λ tag rest.
          rw (concat_bytes-eq-flatten (h ∷ ps), append_assoc h (flatten ps) rest)
            (reads (read levels false) tag (flatten ps ++ rest) ∙ rw limit (rw (more rest))),
    )

object_back :
    (levels : ℕ) (es : Entries)
    → map_size es ≤ 16
    → EntriesBack levels [] es
    → ValueBack (suc levels) (object es)
unfolding encode_cbor read read_payload flatten
object_back levels es few (ps, e, more) =
    let (h, eh, reads) = head-reads 5 (map_size es) (omega arith) (omega arith) in
    let limit : ltb 16 (map_size es) ≡ false = ground arith in
    (
      concat_bytes (h ∷ ps),
      rw (eh, e),
      λ tag rest.
          rw (concat_bytes-eq-flatten (h ∷ ps), append_assoc h (flatten ps) rest)
            (reads (read levels false) tag (flatten ps ++ rest) ∙ rw limit (rw (more rest))),
    )

-- A simple value: the one byte of its encoding.
simple_back :
    (levels ai : ℕ) (v : Cbor) (tag : Bool) (rest : Bytes)
    → ai < 32
    → ((left : Bytes) → read_simple ai left ≡ ok (v, left))
    → read (suc levels) tag ((7 * 32 + ai) ∷ rest) ≡ ok (v, rest)
unfolding read read_item read_behind
simple_back levels ai v tag rest hi simple =
    let m : (7 * 32 + ai) / 32 ≡ 7 = omega arith in
    let a : (7 * 32 + ai) % 32 ≡ ai = omega arith in
    rw (take_bytes-append ((7 * 32 + ai) ∷ []) rest) (rw (m, a) (simple rest))

mutual
  unfolding encode_cbor read_items read_entries read_simple flatten

  value_back : (v : Cbor) (levels : ℕ) → Fits levels v → ValueBack levels v
  value_back null zero h = absurd h
  value_back (bool b) zero h = absurd h
  value_back (num n) zero h = absurd h
  value_back (text s) zero h = absurd h
  value_back (bytes b) zero h = absurd h
  value_back (array vs) zero h = absurd h
  value_back (object es) zero h = absurd h
  value_back null (suc l) h =
      (_, refl, λ tag rest. simple_back l 22 null tag rest (omega arith) (λ left. refl))
  value_back (bool true) (suc l) h =
      (_, refl, λ tag rest. simple_back l 21 (bool true) tag rest (omega arith) (λ left. refl))
  value_back (bool false) (suc l) h =
      (_, refl, λ tag rest. simple_back l 20 (bool false) tag rest (omega arith) (λ left. refl))
  value_back (num n) (suc l) h = num_back (suc l) n h
  value_back (text s) (suc l) h = text_back (suc l) s h
  value_back (bytes b) (suc l) h = bytes_back l b h
  value_back (array vs) (suc l) h = array_back l vs h.0 (items_back vs l h.1)
  value_back (object es) (suc l) h = object_back l es h.0 (entries_back es l [] h.1)

  items_back : (vs : Items) (levels : ℕ) → FitsItems levels vs → ItemsBack levels vs
  items_back nil l h = ([], refl, λ rest. refl)
  items_back (cons v vs) l h = cons_back l v vs (value_back v l h.0) (items_back vs l h.1)

  entries_back :
      (es : Entries) (levels : ℕ) (seen : List Key)
      → FitsEntries levels seen es
      → EntriesBack levels seen es
  entries_back end l seen h = ([], refl, λ rest. refl)
  entries_back (entry k v es) l seen (hk, fresh, hv, hs) =
      entry_back l seen k v es hk fresh (value_back v l hv) (entries_back es l (k ∷ seen) hs)

-- A value inside the limits has an encoding, and decoding it gives the value, or the size limit if
-- the encoding is longer than 16384 bytes, whether or not the COSE_Sign1 tag is allowed.
pub decode_cbor-encode_cbor :
    (v : Cbor) (tag : Bool)
    → Fits 9 v
    → (p : Bytes) × (encode_cbor v ≡ ok p)
      × (decode_cbor p tag ≡ (if ltb 16384 (length p) then err "CBOR size limit" else ok v))
unfolding decode_cbor
decode_cbor-encode_cbor v tag h =
    let (p, e, reads) = value_back v 9 h in
    let whole : read 9 tag p ≡ ok (v, []) =
      subst (λ q. read 9 tag q ≡ ok (v, [])) (append-nil p) (reads tag []) in
    (
      p,
      e,
      elim (Bool-cases (ltb 16384 (length p))) [
        | inl long ↦ rw long
        | inr short ↦ rw (short, whole)
      ],
    )
