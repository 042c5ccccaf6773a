-- ===== src/Protocol/Operation/RoundTrip.antt =====
-- An operation that was read is read again from its JSON, unchanged: what
-- packages/submission/src/index.ts relies on when it copies an operation.
use mathlib.Core.Path.{subst}
use cardano_on_evm.Prelude.{
  ℕ, ◌^◌, ◌≡◌, refl, ap, ◌∙◌, Bool, true, false, not, ◌&&◌, ◌||◌, List, [], ◌∷◌, map, none, some,
  arith, Result, ok, or_throw, >>=-eq-ok, >>-eq-ok, ok-injective, ok-ne-err, str_eq, Str,
  has_prefix, includes, to_lower, ltb, if◌then◌else◌, length,
}
use cardano_on_evm.Prelude.Decimal.{decimal}
use cardano_on_evm.Prelude.Decimal.Digits.{is_numeral-decimal, digits_value-decimal}
use cardano_on_evm.Prelude.Json.{Json, text, object, entries, lookup}
use cardano_on_evm.Wallet.Bytes.{all_hex, is_hex_digit}
use cardano_on_evm.Protocol.Operation.{
  Field, Operation, numeric, required, address_fields, parse_number, parse_bytes, parse_address,
  allowed, has_member, is_unpaired, is_incomplete, is_unexpected, is_overpaid, bits_of, field_text,
  operation_to_json, parse_integer, is_hex_bytes, has_all, only_allowed, check_operation,
  parse_string, parse_field, parse_fields, parse_entries, operation_from_json,
}

parse_integer-decimal : (n : ℕ) → parse_integer (decimal n) ≡ some n
unfolding parse_integer
parse_integer-decimal n = rw (is_numeral-decimal n, digits_value-decimal n)

is_hex_digit-to_lower : (c : ℕ) → is_hex_digit c ≡ true → is_hex_digit (to_lower c) ≡ true
unfolding is_hex_digit to_lower
is_hex_digit-to_lower c h = ground arith

to_lower_twice : (c : ℕ) → to_lower (to_lower c) ≡ to_lower c
unfolding to_lower
to_lower_twice c = ground arith

map-to_lower_twice : (s : Str) → map to_lower (map to_lower s) ≡ map to_lower s
map-to_lower_twice [] = refl
map-to_lower_twice (c ∷ s) = rw (to_lower_twice c, map-to_lower_twice s)

length-to_lower : (s : Str) → length (map to_lower s) ≡ length s
length-to_lower [] = refl
length-to_lower (c ∷ s) = rw (length-to_lower s)

all_hex-to_lower : (s : Str) → all_hex s ≡ true → all_hex (map to_lower s) ≡ true
unfolding all_hex
all_hex-to_lower [] h = refl
all_hex-to_lower (c ∷ s) h =
    ground (arith, is_hex_digit-to_lower c (ground arith), all_hex-to_lower s (ground arith))

is_hex_bytes-to_lower : (s : Str) → is_hex_bytes s ≡ true → is_hex_bytes (map to_lower s) ≡ true
unfolding is_hex_bytes has_prefix to_lower
is_hex_bytes-to_lower [] h = h
is_hex_bytes-to_lower (a ∷ []) h = ground arith
is_hex_bytes-to_lower (a ∷ b ∷ s) h =
    ground (arith, length-to_lower s, all_hex-to_lower s (ground arith))

parse_number-field_text :
    (name item : Str) (f : Field)
    → parse_number name item ≡ ok f
    → parse_number name (field_text f) ≡ ok f
unfolding parse_number
parse_number-field_text name item f h =
    let (n, _, h₁) = >>=-eq-ok (or_throw (parse_integer item) "Invalid operation integer") _ h in
    let (small, h₂) = >>-eq-ok (not (ltb n (2 ^ bits_of name))) _ _ h₁ in
    subst (λ (g : Field). parse_number name (field_text g) ≡ ok g) (ok-injective h₂)
      (rw (parse_integer-decimal n, small))

parse_bytes-field_text :
    (item : Str) (f : Field) → parse_bytes item ≡ ok f → parse_bytes (field_text f) ≡ ok f
unfolding parse_bytes
parse_bytes-field_text item f h =
    let (fits, h₁) = >>-eq-ok (not (is_hex_bytes item) || ltb 32770 (length item)) _ _ h in
    let hex : is_hex_bytes item ≡ true = ground (arith, fits) in
    let short : ltb 32770 (length item) ≡ false = ground (arith, fits) in
    subst (λ (g : Field). parse_bytes (field_text g) ≡ ok g) (ok-injective h₁)
      (rw (is_hex_bytes-to_lower item hex, length-to_lower item, short, map-to_lower_twice item))

check_operation-same : (op r : Operation) → check_operation op ≡ ok r → op ≡ r
unfolding check_operation
check_operation-same op r h =
    let (_, h₁) = >>-eq-ok (is_unpaired op) _ _ h in
    let (_, h₂) = >>-eq-ok (is_incomplete op) _ _ h₁ in
    let (_, h₃) = >>-eq-ok (is_unexpected op) _ _ h₂ in
    let (_, h₄) = >>-eq-ok (is_overpaid op) _ _ h₃ in ok-injective h₄

module _ (get_address : Str → Result Str)
    (get_address_twice : (a b : Str) → get_address a ≡ ok b → get_address b ≡ ok b) where
  parse_address-field_text :
      (item : Str) (f : Field)
      → parse_address get_address item ≡ ok f
      → parse_address get_address (field_text f) ≡ ok f
  unfolding parse_address
  parse_address-field_text item f h =
      let (a, e, h₁) = >>=-eq-ok (get_address item) _ h in
      subst (λ (g : Field). parse_address get_address (field_text g) ≡ ok g) (ok-injective h₁)
        (rw (get_address_twice item a e))

  parse_string-field_text :
      (name item : Str) (f : Field)
      → parse_string get_address name item ≡ ok f
      → parse_string get_address name (field_text f) ≡ ok f
  unfolding parse_string
  parse_string-field_text name item f h =
      either (includes name numeric) (includes name address_fields) h
    where
      either :
          (b c : Bool)
          → (if b
              then parse_number name item
              else if c
              then parse_address get_address item
              else parse_bytes item)
            ≡ ok f
          → (if b
              then parse_number name (field_text f)
              else if c
              then parse_address get_address (field_text f)
              else parse_bytes (field_text f))
            ≡ ok f
      either true c h = parse_number-field_text name item f h
      either false true h = parse_address-field_text item f h
      either false false h = parse_bytes-field_text item f h

  parse_field-field_text :
      (name : Str) (item : Json) (f : Field)
      → parse_field get_address name item ≡ ok f
      → parse_string get_address name (field_text f) ≡ ok f
  unfolding parse_field
  parse_field-field_text name (text item) f h = parse_string-field_text name item f h
  parse_field-field_text name _ f h = cc

  -- The fields of an operation that was read, and the names under which they were found.
  parse_fields-back :
      (es : List (Str × Json)) (op : Operation)
      → parse_fields get_address es ≡ ok op
      → (parse_fields get_address (entries (operation_to_json op)) ≡ ok op)
        × (only_allowed (entries (operation_to_json op)) ≡ only_allowed es)
        × ((k : Str) → has_member (entries (operation_to_json op)) k ≡ has_member es k)
  unfolding parse_fields operation_to_json only_allowed lookup parse_field
  parse_fields-back [] op h =
      subst
        (λ (o : Operation).
          (parse_fields get_address (entries (operation_to_json o)) ≡ ok o)
          × (only_allowed (entries (operation_to_json o)) ≡ true)
          × ((k : Str) → has_member (entries (operation_to_json o)) k ≡ false))
        (ok-injective h) (refl, refl, λ k. refl)
  parse_fields-back ((name, item) ∷ es) op h =
      let (f, ef, h₁) = >>=-eq-ok (parse_field get_address name item) _ h in
      let (rest, er, h₂) = >>=-eq-ok (parse_fields get_address es) _ h₁ in
      let (again, names, keys) = parse_fields-back es rest er in
      subst
        (λ (o : Operation).
          (parse_fields get_address (entries (operation_to_json o)) ≡ ok o)
          × (only_allowed (entries (operation_to_json o))
              ≡ (includes name allowed && only_allowed es))
          × ((k : Str)
              → has_member (entries (operation_to_json o)) k ≡ has_member ((name, item) ∷ es) k))
        (ok-injective h₂)
        (
          rw (parse_field-field_text name item f ef, again),
          ap (λ (b : Bool). includes name allowed && b) names,
          λ k. either (str_eq name k) (text (field_text f)) k rest (keys k),
        )
    where
      either :
          (b : Bool) (v : Json) (k : Str) (rest : Operation)
          → has_member (entries (operation_to_json rest)) k ≡ has_member es k
          → (elim (if b then some v else lookup k (entries (operation_to_json rest))) [
            | none ↦ false
            | some v ↦ true
          ])
            ≡ (elim (if b then some item else lookup k es) [ none ↦ false | some v ↦ true ])
      either true v k rest e = refl
      either false v k rest e = e

  has_all-same :
      {A B : Type 0} (names : List Str) (es : List (Str × A)) (fs : List (Str × B))
      → ((k : Str) → has_member es k ≡ has_member fs k)
      → has_all names es ≡ has_all names fs
  unfolding has_all
  has_all-same [] es fs h = refl
  has_all-same (n ∷ ns) es fs h = rw (h n, has_all-same ns es fs h)

  parse_entries-back :
      (es : List (Str × Json)) (op : Operation)
      → parse_entries get_address es ≡ ok op
      → parse_entries get_address (entries (operation_to_json op)) ≡ ok op
  unfolding parse_entries
  parse_entries-back es op h =
      let (named, h₁) = >>-eq-ok (not (only_allowed es && has_all required es)) _ _ h in
      let (read, e, h₂) = >>=-eq-ok (parse_fields get_address es) _ h₁ in
      let same : read ≡ op = check_operation-same read op h₂ in
      let (again, names, keys) = parse_fields-back es op (e ∙ ap ok same) in
      rw (names, has_all-same required _ es keys, named, again)
        (subst (λ (o : Operation). check_operation o ≡ ok op) same h₂)

  -- If getAddress accepts what it returns, unchanged, then an operation that was read is read again
  -- from its JSON, unchanged.
  pub operation_from_json-to_json :
      (v : Json) (op : Operation)
      → operation_from_json get_address v ≡ ok op
      → operation_from_json get_address (object (operation_to_json op)) ≡ ok op
  unfolding operation_from_json
  operation_from_json-to_json (object ms) op h = parse_entries-back (entries ms) op h
  operation_from_json-to_json _ op h = absurd (ok-ne-err h)
